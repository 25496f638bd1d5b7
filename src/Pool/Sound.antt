-- ===== src/Pool/Sound.antt =====
-- What holds of every pool of internal/infrastructure/worker/pool.go, under any calls and moves.
use recording.Prelude.{
  ℕ, ◌≡◌, refl, subst, Bool, true, false, List, [], ◌∷◌, Option, none, some, some-injective, arith,
  All, ◌≢◌, map,
}
use recording.Pool.{
  Phase, idle, at_top, in_round, waiting, Worker, Pool, claim_done, launched, start, moved_to,
  woken, notify, drain, stop, Move, see_done, go_on, round_ends, take_wake, tick, next, move, Moves,
  first, later, Call, starts, notifies, drains, stops, parent_ends, Run, here, call, moved,
}
use recording.Pool.Ending.{if-both}

-- A launched pool has no idle worker, and a drained one claims no more.
abbrev pub IsLaunched : Worker → Type 0
IsLaunched w = w.phase ≢ idle

abbrev pub IsSound : Pool → Type 0
IsSound p =
    (p.started ≡ true → All IsLaunched p.workers) × (p.drained ≡ true → p.claim_cancelled ≡ true)

next-IsLaunched :
    (done : Bool) (m : Move) (ph : Phase) (wake : Bool) (after : Phase)
    → next done m ph wake ≡ some after
    → after ≢ idle
unfolding next
next-IsLaunched true see_done at_top wake after e = ground arith
next-IsLaunched true see_done waiting wake after e = ground arith
next-IsLaunched false go_on at_top wake after e = ground arith
next-IsLaunched _ round_ends in_round wake after e = ground arith
next-IsLaunched _ tick waiting wake after e = ground arith
next-IsLaunched _ take_wake waiting true after e = ground arith
next-IsLaunched _ _ _ _ after e = absurd (cc e)

moved_to-IsLaunched :
    (m : Move) (w v : Worker) (o : Option Phase)
    → moved_to m w o ≡ some v
    → ((ph : Phase) → o ≡ some ph → ph ≢ idle)
    → IsLaunched v
moved_to-IsLaunched m w v none e h = absurd (cc e)
moved_to-IsLaunched m w v (some ph) e h = subst IsLaunched (some-injective _ _ e) (h ph refl)

Moves-IsLaunched :
    (done : Bool) (ws vs : List Worker) → Moves done ws vs → All IsLaunched ws → All IsLaunched vs
unfolding move
Moves-IsLaunched done _ _ (first m w v ws e) h = (
  moved_to-IsLaunched m w v (next done m w.phase w.wake) e (next-IsLaunched done m w.phase w.wake),
  h.1,
)
Moves-IsLaunched done _ _ (later w ws vs rest) h = (h.0, Moves-IsLaunched done ws vs rest h.1)

map-IsLaunched : (ws : List Worker) → All IsLaunched (map launched ws)
map-IsLaunched [] = tt
map-IsLaunched (w ∷ ws) = ((λ e. cc e), map-IsLaunched ws)

IsLaunched-woken : (ws : List Worker) → All IsLaunched ws → All IsLaunched (map woken ws)
IsLaunched-woken [] h = tt
IsLaunched-woken (w ∷ ws) h = (h.0, IsLaunched-woken ws h.1)

start-IsSound : (p : Pool) → IsSound p → IsSound (start p)
unfolding start
start-IsSound p h = if-both IsSound p.started h ((λ _. map-IsLaunched p.workers), h.1)

notify-IsSound : (p : Pool) → IsSound p → IsSound (notify p)
unfolding notify
notify-IsSound p h = ((λ s. IsLaunched-woken p.workers (h.0 s)), h.1)

pub drain-IsSound : (p : Pool) → IsSound p → IsSound (drain p)
unfolding drain
drain-IsSound p h = if-both IsSound p.started (if-both IsSound p.drained h (h.0, λ _. refl)) h

stop-IsSound : (p : Pool) → IsSound p → IsSound (stop p)
unfolding stop
stop-IsSound p h = if-both IsSound p.started (if-both IsSound p.stopped h (h.0, λ _. refl)) h

Call-IsSound : {p q : Pool} → Call p q → IsSound p → IsSound q
Call-IsSound (starts p) h = start-IsSound p h
Call-IsSound (notifies p) h = notify-IsSound p h
Call-IsSound (drains p) h = drain-IsSound p h
Call-IsSound (stops p) h = stop-IsSound p h
Call-IsSound (parent_ends p) h = h

pub Run-IsSound : {p r : Pool} {n : ℕ} → Run p n r → IsSound p → IsSound r
Run-IsSound here h = h
Run-IsSound (call q c rest) h = Run-IsSound rest (Call-IsSound c h)
Run-IsSound (moved p ws m rest) h =
    Run-IsSound rest ((λ s. Moves-IsLaunched (claim_done p) p.workers ws m (h.0 s)), h.1)
