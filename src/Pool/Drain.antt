-- ===== src/Pool/Drain.antt =====
-- Draining the pool of internal/infrastructure/worker/pool.go: its workers end, in bounded time.
use recording.Prelude.{
  ℕ, ◌*◌, ◌≤◌, ◌≡◌, ◌⊎◌, inl, inr, refl, sym, ap, subst, Bool, true, List, [], ◌∷◌, some, arith,
  All, ◌≢◌, length, Bool-cases,
}
use recording.Pool.{
  Phase, idle, at_top, in_round, waiting, returned, Worker, Pool, run_done, claim_done, moved_to,
  new_pool, drain, Move, see_done, round_ends, next, move, Moves, first, later, Run,
}
use recording.Pool.Ending.{if-both, left, moves_left, rounds, IsEnding, Run-Ends, or_true}
use recording.Pool.Sound.{IsLaunched, IsSound, Run-IsSound, drain-IsSound}

abbrev pub IsReturned : Worker → Type 0
IsReturned w = w.phase ≡ returned

phase-moves :
    (ph : Phase) (wake : Bool)
    → ph ≢ idle
    → (ph ≡ returned) ⊎ ((m : Move) × (after : Phase) × (next true m ph wake ≡ some after))
unfolding next
phase-moves idle wake h = absurd (h refl)
phase-moves at_top wake h = inr (see_done, returned, refl)
phase-moves in_round wake h = inr (round_ends, waiting, refl)
phase-moves waiting wake h = inr (see_done, returned, refl)
phase-moves returned wake h = inl refl

-- After the claims have ended, a worker that has not returned can always move.
worker-moves :
    (w : Worker)
    → IsLaunched w
    → IsReturned w ⊎ ((m : Move) × (v : Worker) × (move true m w ≡ some v))
unfolding move
worker-moves w h = elim (phase-moves w.phase w.wake h) [
  | inl at ↦ inl at
  | inr (m, after, e) ↦ inr (m, _, ap (moved_to m w) e)
]

All-moves :
    (ws : List Worker)
    → All IsLaunched ws
    → All IsReturned ws ⊎ ((vs : List Worker) × Moves true ws vs)
All-moves [] h = inl tt
All-moves (w ∷ ws) h = elim (worker-moves w h.0) [
  | inr (m, v, e) ↦ inr (v ∷ ws, first m w v ws e)
  | inl at ↦ elim (All-moves ws h.1) [
    | inl rest ↦ inl (at, rest)
    | inr (vs, more) ↦ inr (w ∷ vs, later w ws vs more)
  ]
]

left_le : (ph : Phase) → left ph ≤ 3
left_le idle = omega arith
left_le at_top = omega arith
left_le in_round = omega arith
left_le waiting = omega arith
left_le returned = omega arith

moves_left_le : (ws : List Worker) → moves_left ws ≤ 3 * length ws
moves_left_le [] = omega arith
moves_left_le (w ∷ ws) = omega (arith, left_le w.phase, moves_left_le ws)

drain-workers : (p : Pool) → (drain p).workers ≡ p.workers
unfolding drain
drain-workers p =
    if-both (λ (q : Pool). q.workers ≡ p.workers) p.started
      (if-both (λ (q : Pool). q.workers ≡ p.workers) p.drained refl refl) refl

drain-Ending : (p : Pool) → IsSound p → p.started ≡ true → IsEnding (drain p)
unfolding drain
drain-Ending p h s = elim (Bool-cases p.drained) [
  | inl d ↦ rw s (rw d (refl, rw (h.1 d) (or_true (run_done p))))
  | inr d ↦ rw s (rw d (refl, or_true (run_done p)))
]

new_pool-IsSound : (k : ℕ) (parent_done : Bool) → IsSound (new_pool k parent_done)
unfolding new_pool
new_pool-IsSound k parent_done = ((λ e. absurd (cc e)), λ e. absurd (cc e))

-- For a pool that has been started, after any calls and moves since it was made, `Drain` ends the
-- work: in whatever calls and moves follow it, the workers make at most three moves each, at no
-- point are more workers in a round than there were at the call, and, as long as a worker has not
-- returned, some worker can move.
pub drain_lem :
    {p r : Pool} {m n : ℕ} (k : ℕ) (parent_done : Bool)
    → Run (new_pool k parent_done) m p
    → p.started ≡ true
    → Run (drain p) n r
    → (n ≤ 3 * length p.workers)
      × (rounds r.workers ≤ rounds p.workers)
      × (All IsReturned r.workers ⊎ ((vs : List Worker) × Moves (claim_done r) r.workers vs))
drain_lem {p} {r} k parent_done before s after =
    let sound = Run-IsSound before (new_pool-IsSound k parent_done) in
    let h = Run-Ends after (drain-Ending p sound s) in
    let same_workers = drain-workers p in
    (
      ground (arith, moves_left_le p.workers),
      ground arith,
      subst (λ d. All IsReturned r.workers ⊎ ((vs : List Worker) × Moves d r.workers vs))
          (sym h.2.1) (All-moves r.workers ((Run-IsSound after (drain-IsSound p sound)).0 h.2.0)),
    )
