-- ===== src/Cleanup.antt =====
-- `StartCleanup` of internal/infrastructure/worker/cleanup.go: the loop that cleans up from time to
-- time. The ticker is an answer of the world.
pub mod Laws
use recording.Prelude.{ℕ, suc, List, [], ◌∷◌, ◌==◌, if◌then◌else◌}
use recording.Decimal.{ℤ, pos, negsuc}

-- Thirty seconds, where the interval is not positive.
unfoldable pub interval_of : ℤ → ℕ
interval_of (pos n) = if n == 0 then 30000000000 else n
interval_of (negsuc n) = 30000000000

-- What the `select` sees in one round.
pub data Seen : Type 0 where
  ctx_done ticked : Seen

-- `cleanup i` is the call in round `i`.
unfoldable pub cleanup_loop {ℓ} : {A : Type ℓ} → (ℕ → A → A) → ℕ → List Seen → A → A
cleanup_loop cleanup i [] a = a
cleanup_loop cleanup i (ctx_done ∷ seen) a = a
cleanup_loop cleanup i (ticked ∷ seen) a = cleanup_loop cleanup (suc i) seen (cleanup i a)
