-- ===== src/Bootstrap/Lifecycle.antt =====
-- bootstrap/lifecycle.go: the stop in two phases. Times are nanoseconds since the call of `Shutdown`;
-- what is between the waits takes none.
pub mod Laws
use recording.Prelude.{
  ℕ, ◌+◌, Bool, true, false, ◌&&◌, ◌||◌, not, List, [], ◌∷◌, Option, none, some, ◌==◌, ltb, leb,
  if◌then◌else◌,
}
use recording.Pool.{Pool, drain, stop}

-- The coordinator and what it holds. `shut` is the `sync.Once`, and `run_cancelled` the cancellation
-- of the context that the pool was started with.
pub record Lifecycle : Type 0 where
  pub timeout : ℕ
  pub pool : Pool
  pub ready : Bool
  pub cleanup_cancelled : Bool
  pub run_cancelled : Bool
  pub shut : Bool
  pub db_closed : Bool

-- How long the parts would take; `none` is for ever. `done_first` is the choice of the `select`
-- where both of its channels are ready.
pub record Waits : Type 0 where
  pub server : Option ℕ
  pub workers : Option ℕ
  pub done_first : Bool
  pub stop : Option ℕ
  pub cleanup : Option ℕ
  pub close_fails : Bool

-- Phase 1.
unfoldable pub drain_all : Lifecycle → Lifecycle
drain_all lc = record lc { pool = drain lc.pool; cleanup_cancelled = true; ready = false }

-- A wait that ends at the limit at the latest: `waitBounded`, and `srv.Shutdown` with a context.
abbrev pub bounded : ℕ → Option ℕ → ℕ
bounded limit none = limit
bounded limit (some t) = if ltb limit t then limit else t

abbrev pub later : ℕ → ℕ → ℕ
later a b = if ltb a b then b else a

-- The `select` at time `t` over the end of the workers and the end of the budget.
abbrev pub finishes : ℕ → ℕ → Waits → Bool
finishes budget t waits = elim waits.workers [
  | none ↦ false
  | some d ↦
      if ltb budget d then false else if t == budget || d == budget then waits.done_first else true
]

abbrev pub at_end : ℕ → Option ℕ → ℕ
at_end t none = t
at_end t (some d) = later t d

-- The time and the coordinator after the wait for the workers: they have ended by themselves, or
-- the run is cancelled and the pool is stopped.
abbrev pub forced : ℕ → Waits → Lifecycle → ℕ × Lifecycle
forced t waits lc = (
  t + bounded lc.timeout waits.stop,
  record lc { run_cancelled = true; pool = stop (record (lc.pool) { parent_done = true }) },
)

abbrev pub after_workers : ℕ → Waits → Lifecycle → ℕ × Lifecycle
after_workers t waits lc =
    if lc.pool.started
    then if finishes lc.timeout t waits
      then (at_end t waits.workers, lc)
      else forced lc.timeout waits lc
    else (t, lc)

-- The wait for the clean-up loop, and the database.
abbrev pub closed : Waits → ℕ × Lifecycle → ℕ × Lifecycle
closed waits (t, lc) =
    (t + bounded lc.timeout waits.cleanup, record lc { db_closed = not waits.close_fails })

-- The body of the `once`.
unfoldable pub shutdown_once : Waits → Lifecycle → ℕ × Lifecycle
unfolding drain_all
shutdown_once waits lc =
    let drained : Lifecycle = drain_all (record lc { shut = true }) in
    closed waits (after_workers (bounded lc.timeout waits.server) waits drained)

-- The time that the call takes, and the coordinator after it.
unfoldable pub shutdown : Waits → Lifecycle → ℕ × Lifecycle
unfolding shutdown_once
shutdown waits lc = if lc.shut then (0, lc) else shutdown_once waits lc
