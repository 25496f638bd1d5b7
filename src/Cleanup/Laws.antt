-- ===== src/Cleanup/Laws.antt =====
-- The loop is a sequence of uses of the service.
use recording.Prelude.{ℕ, suc, List, [], ◌∷◌}
use recording.Database.Tx.{Env}
use recording.FileStore.{Disk}
use recording.Service.{World}
use recording.Service.Delete.{cleanup_pending}
use recording.Service.Reach.{◌↝*◌, here, use_of, cleans_up}
use recording.Cleanup.{Seen, ctx_done, ticked, cleanup_loop}

-- Whatever its ticker does, the clean-up loop is a sequence of clean-ups, so that it keeps what every
-- use of the service keeps.
pub cleanup_loop-uses :
    (envs : ℕ → ℕ → Env) (disks : ℕ → ℕ → Disk) (i : ℕ) (seen : List Seen) (w : World)
    → w ↝* cleanup_loop (λ j. cleanup_pending (envs j) (disks j)) i seen w
unfolding cleanup_loop
cleanup_loop-uses envs disks i [] w = here
cleanup_loop-uses envs disks i (ctx_done ∷ seen) w = here
cleanup_loop-uses envs disks i (ticked ∷ seen) w =
    use_of (cleanup_pending (envs i) (disks i) w) (cleans_up (envs i) (disks i) w)
      (cleanup_loop-uses envs disks (suc i) seen (cleanup_pending (envs i) (disks i) w))
