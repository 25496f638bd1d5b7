-- ===== src/Bootstrap/Lifecycle/Laws.antt =====
-- The stop ends in bounded time, and forces the workers only beyond the budget.
use recording.Prelude.{
  some-injective, ℕ, ◌*◌, ◌≤◌, ◌≡◌, ◌⊎◌, inl, inr, refl, sym, subst, Bool, true, false, ◌||◌, not,
  Option, none, some, ltb, ◌==◌, arith, if◌then◌else◌,
}
use recording.Pool.{drain, stop}
use recording.Bootstrap.Lifecycle.{
  Lifecycle, Waits, drain_all, bounded, finishes, at_end, forced, after_workers, closed,
  shutdown_once, shutdown,
}

bounded_le : (limit : ℕ) (t : Option ℕ) → bounded limit t ≤ limit
bounded_le limit none = omega arith
bounded_le limit (some t) = ground arith

-- The workers have ended by themselves within the budget.
abbrev pub EndInTime : Lifecycle → Waits → Type 0
EndInTime lc waits = (d : ℕ) × (waits.workers ≡ some d) × (d ≤ lc.timeout)

finishes-EndInTime :
    (budget t : ℕ) (waits : Waits) (o : Option ℕ)
    → waits.workers ≡ o
    → (elim o [
      | none ↦ false
      | some d ↦
          if ltb budget d
          then false
          else if t == budget || d == budget
          then waits.done_first
          else true
    ])
      ≡ true
    → (d : ℕ) × (waits.workers ≡ some d) × (d ≤ budget)
finishes-EndInTime budget t waits none e h = absurd (cc h)
finishes-EndInTime budget t waits (some d) e h = (d, e, ground arith)

at_end_le :
    (t budget : ℕ) (o : Option ℕ) (d : ℕ)
    → o ≡ some d
    → t ≤ budget
    → d ≤ budget
    → at_end t o ≤ budget
at_end_le t budget none d e h k = absurd (cc e)
at_end_le t budget (some c) d e h k = let same_time : c ≡ d = some-injective c d e in ground arith

-- How the wait for the workers ends.
abbrev HowEnded : Lifecycle → Waits → Lifecycle → Type 0
HowEnded lc waits l =
    ((l.pool ≡ lc.pool)
      × (l.run_cancelled ≡ lc.run_cancelled)
      × ((lc.pool.started ≡ false) ⊎ EndInTime lc waits))
    ⊎ ((l.pool ≡ stop (record (lc.pool) { parent_done = true }))
        × (l.run_cancelled ≡ true)
        × (lc.pool.started ≡ true))

-- The time and the coordinator after it.
abbrev IsEnded : Lifecycle → Waits → ℕ × Lifecycle → Type 0
IsEnded lc waits (u, l) =
    (u ≤ 2 * lc.timeout)
    × (l.timeout ≡ lc.timeout)
    × (l.ready ≡ lc.ready)
    × (l.cleanup_cancelled ≡ lc.cleanup_cancelled)
    × (l.shut ≡ lc.shut)
    × HowEnded lc waits l

after_select :
    (t : ℕ) (waits : Waits) (lc : Lifecycle) (b : Bool)
    → t ≤ lc.timeout
    → lc.pool.started ≡ true
    → finishes lc.timeout t waits ≡ b
    → IsEnded lc waits (if b then (at_end t waits.workers, lc) else forced lc.timeout waits lc)
after_select t waits lc true h s f =
    let (d, at, le) = finishes-EndInTime lc.timeout t waits waits.workers refl f in
    let early = at_end_le t lc.timeout waits.workers d at h le in
    (omega arith, refl, refl, refl, refl, inl (refl, refl, inr (d, at, le)))
after_select t waits lc false h s f =
    let short = bounded_le lc.timeout waits.stop in
    (omega arith, refl, refl, refl, refl, inr (refl, refl, s))

after_started :
    (t : ℕ) (waits : Waits) (lc : Lifecycle) (b : Bool)
    → t ≤ lc.timeout
    → lc.pool.started ≡ b
    → IsEnded lc waits (
        if b
        then if finishes lc.timeout t waits
          then (at_end t waits.workers, lc)
          else forced lc.timeout waits lc
        else (t, lc))
after_started t waits lc true h s = after_select t waits lc (finishes lc.timeout t waits) h s refl
after_started t waits lc false h s = (omega arith, refl, refl, refl, refl, inl (refl, refl, inl s))

-- What a stop of the coordinator has done, and how long it took.
abbrev pub IsStopped : Waits → Lifecycle → ℕ × Lifecycle → Type 0
IsStopped waits lc (time, after) =
    (time ≤ 3 * lc.timeout)
    × (after.ready ≡ false)
    × (after.cleanup_cancelled ≡ true)
    × (after.shut ≡ true)
    × (after.db_closed ≡ not waits.close_fails)
    × (((after.pool ≡ drain lc.pool)
          × (after.run_cancelled ≡ lc.run_cancelled)
          × (((drain lc.pool).started ≡ false) ⊎ EndInTime lc waits))
        ⊎ ((after.pool ≡ stop (record (drain lc.pool) { parent_done = true }))
            × (after.run_cancelled ≡ true)
            × ((drain lc.pool).started ≡ true)))

closed-IsStopped :
    (waits : Waits) (lc : Lifecycle) (r : ℕ × Lifecycle)
    → IsEnded (drain_all (record lc { shut = true })) waits r
    → IsStopped waits lc (closed waits r)
unfolding drain_all
closed-IsStopped waits lc (u, l) (early, same_timeout, ready, cleanup, shut, how) =
    let short = bounded_le l.timeout waits.cleanup in (omega arith, ready, cleanup, shut, refl, how)

shutdown_once-IsStopped :
    (waits : Waits) (lc : Lifecycle) → IsStopped waits lc (shutdown_once waits lc)
unfolding shutdown_once
shutdown_once-IsStopped waits lc =
    let drained : Lifecycle = drain_all (record lc { shut = true }) in
    closed-IsStopped waits lc (after_workers (bounded lc.timeout waits.server) waits drained) (
      after_started (bounded lc.timeout waits.server) waits drained drained.pool.started
        (bounded_le lc.timeout waits.server) refl)

-- A first `Shutdown` takes three times the timeout at most, whatever does not end. It has told the
-- pool to drain, cancelled the context of the clean-up loop, which may still run, and made the
-- service unready; the database is closed, unless closing fails. Either the pool is as drained, and
-- then it was not started or its workers have ended within the timeout, or it was started, and the
-- context of the run is cancelled and the pool is told to stop, though its workers may not have
-- ended.
pub shutdown_lem :
    (waits : Waits) (lc : Lifecycle) → lc.shut ≡ false → IsStopped waits lc (shutdown waits lc)
unfolding shutdown
shutdown_lem waits lc h =
    subst (λ b. IsStopped waits lc (if b then (0, lc) else shutdown_once waits lc)) (sym h)
      (shutdown_once-IsStopped waits lc)
