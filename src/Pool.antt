-- ===== src/Pool.antt =====
-- internal/infrastructure/worker/pool.go: the pool of workers, its two contexts and its wake-ups.
-- What the goroutines and the callers of the pool do is a sequence of steps; a worker's step is one
-- choice of a `select`, or the end of a round.
pub mod Ending
pub mod Sound
pub mod Drain
use recording.Prelude.{
  ℕ, zero, suc, ◌≡◌, Bool, true, false, ◌||◌, List, [], ◌∷◌, map, Option, none, some, if◌then◌else◌,
}

-- Where the loop of a worker is; `idle` is before `Start`.
pub data Phase : Type 0 where
  idle at_top in_round waiting returned : Phase

-- `wake` tells whether the channel, of capacity one, holds a wake-up.
pub record Worker : Type 0 where
  pub phase : Phase
  pub wake : Bool

-- `parent_done` is the context that `Start` is given; the others are what the pool has cancelled.
pub record Pool : Type 0 where
  pub workers : List Worker
  pub started : Bool
  pub stopped : Bool
  pub drained : Bool
  pub parent_done : Bool
  pub run_cancelled : Bool
  pub claim_cancelled : Bool

abbrev pub new_workers : ℕ → List Worker
new_workers zero = []
new_workers (suc n) = record { phase = idle; wake = false } ∷ new_workers n

unfoldable pub new_pool : ℕ → Bool → Pool
new_pool n parent_done = record {
  workers = new_workers n;
  started = false;
  stopped = false;
  drained = false;
  parent_done = parent_done;
  run_cancelled = false;
  claim_cancelled = false;
}

-- A context is done with its parent: the parent's, runCtx, claimCtx.
abbrev pub run_done : Pool → Bool
run_done p = p.parent_done || p.run_cancelled

abbrev pub claim_done : Pool → Bool
claim_done p = run_done p || p.claim_cancelled

abbrev pub launched : Worker → Worker
launched w = record w { phase = at_top }

abbrev pub launch : Pool → Pool
launch p = record p { started = true; workers = map launched p.workers }

unfoldable pub start : Pool → Pool
start p = if p.started then p else launch p

-- A full channel already has the wake-up.
abbrev pub woken : Worker → Worker
woken w = record w { wake = true }

unfoldable pub notify : Pool → Pool
notify p = record p { workers = map woken p.workers }

abbrev pub stop_claims : Pool → Pool
stop_claims p = record p { drained = true; claim_cancelled = true }

unfoldable pub drain : Pool → Pool
drain p = if p.started then if p.drained then p else stop_claims p else p

abbrev pub cancel_both : Pool → Pool
cancel_both p = record p { claim_cancelled = true; run_cancelled = true }

abbrev pub note_stopped : Pool → Pool
note_stopped p = record p { stopped = true }

-- `Stop` up to its wait for the workers.
unfoldable pub stop : Pool → Pool
stop p =
    if p.started
    then if p.stopped then note_stopped p else cancel_both (note_stopped p)
    else note_stopped p

-- The cases of the two `select` statements, and the end of `process`.
pub data Move : Type 0 where
  see_done go_on round_ends take_wake tick : Move

-- The phase after a move, when the move is possible; `done` tells whether claimCtx is done, which it
-- is whenever runCtx is.
unfoldable pub next : (done : Bool) → Move → Phase → (wake : Bool) → Option Phase
next true see_done at_top _ = some returned
next true see_done waiting _ = some returned
next false go_on at_top _ = some in_round
next _ round_ends in_round _ = some waiting
next _ take_wake waiting true = some at_top
next _ tick waiting _ = some at_top
next _ _ _ _ = none

abbrev pub wake_after : Move → Bool → Bool
wake_after take_wake _ = false
wake_after _ wake = wake

abbrev pub moved_to : Move → Worker → Option Phase → Option Worker
moved_to m w none = none
moved_to m w (some ph) = some (record { phase = ph; wake = wake_after m w.wake })

unfoldable pub move : Bool → Move → Worker → Option Worker
move done m w = moved_to m w (next done m w.phase w.wake)

-- One worker of the list moves.
pub data Moves (done : Bool) : List Worker → List Worker → Type 0 where
  first :
      (m : Move) (w v : Worker) (ws : List Worker)
      → move done m w ≡ some v
      → Moves done (w ∷ ws) (v ∷ ws)
  later : (w : Worker) (ws vs : List Worker) → Moves done ws vs → Moves done (w ∷ ws) (w ∷ vs)

-- A call of the pool, or the end of the parent context.
pub data Call : Pool → Pool → Type 0 where
  starts : (p : Pool) → Call p (start p)
  notifies : (p : Pool) → Call p (notify p)
  drains : (p : Pool) → Call p (drain p)
  stops : (p : Pool) → Call p (stop p)
  parent_ends : (p : Pool) → Call p (record p { parent_done = true })

-- Any order of calls and of moves, with the number of the moves.
pub data Run : Pool → ℕ → Pool → Type 0 where
  here : {p : Pool} → Run p 0 p
  call : {p r : Pool} {n : ℕ} (q : Pool) → Call p q → Run q n r → Run p n r
  moved :
      {r : Pool} {n : ℕ} (p : Pool) (ws : List Worker)
      → Moves (claim_done p) p.workers ws
      → Run (record p { workers = ws }) n r
      → Run p (suc n) r
