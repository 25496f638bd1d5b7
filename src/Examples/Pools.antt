-- ===== src/Examples/Pools.antt =====
-- A pool of two workers: it is started, one worker begins a round, and the pool is drained.
use recording.Prelude.{◌≤◌, ◌*◌, ◌⊎◌, refl, true, false, List, [], ◌∷◌, All}
use recording.Pool.{
  at_top, in_round, waiting, returned, Worker, Pool, new_pool, start, drain, move, next, go_on,
  see_done, round_ends, Moves, first, later, starts, Run, here, call, moved,
}
use recording.Pool.Ending.{rounds}
use recording.Pool.Drain.{IsReturned, drain_lem}

abbrev top_1 : Worker
top_1 = record { phase = at_top; wake = false }

abbrev busy_1 : Worker
busy_1 = record { phase = in_round; wake = false }

abbrev waiting_1 : Worker
waiting_1 = record { phase = waiting; wake = false }

abbrev returned_1 : Worker
returned_1 = record { phase = returned; wake = false }

abbrev pool_1 : Pool
pool_1 = record {
  workers = busy_1 ∷ top_1 ∷ [];
  started = true;
  stopped = false;
  drained = false;
  parent_done = false;
  run_cancelled = false;
  claim_cancelled = false;
}

abbrev drained_1 : List Worker → Pool
drained_1 ws = record pool_1 { workers = ws; drained = true; claim_cancelled = true }

to_pool_1 : Run (new_pool 2 false) 1 pool_1
unfolding new_pool start move next
to_pool_1 = call (start (new_pool 2 false)) (starts (new_pool 2 false)) (
    moved (start (new_pool 2 false)) (busy_1 ∷ top_1 ∷ [])
      (first go_on top_1 busy_1 (top_1 ∷ []) refl) here)

from_drain_1 : Run (drain pool_1) 3 (drained_1 (returned_1 ∷ returned_1 ∷ []))
unfolding drain move next
from_drain_1 =
    moved (drained_1 (busy_1 ∷ top_1 ∷ [])) (busy_1 ∷ returned_1 ∷ [])
      (later busy_1 (top_1 ∷ []) (returned_1 ∷ []) (first see_done top_1 returned_1 [] refl))
      (moved (drained_1 (busy_1 ∷ returned_1 ∷ [])) (waiting_1 ∷ returned_1 ∷ [])
        (first round_ends busy_1 waiting_1 (returned_1 ∷ []) refl)
        (moved (drained_1 (waiting_1 ∷ returned_1 ∷ [])) (returned_1 ∷ returned_1 ∷ [])
          (first see_done waiting_1 returned_1 (returned_1 ∷ []) refl) here))

drain_lem_example :
    (3 ≤ 3 * 2)
    × (rounds (returned_1 ∷ returned_1 ∷ []) ≤ rounds (busy_1 ∷ top_1 ∷ []))
    × (All IsReturned (returned_1 ∷ returned_1 ∷ [])
        ⊎ ((vs : List Worker) × Moves true (returned_1 ∷ returned_1 ∷ []) vs))
drain_lem_example = drain_lem 2 false to_pool_1 refl from_drain_1
