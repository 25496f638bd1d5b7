-- ===== src/Asr/Laws.antt =====
-- The first call of a task fails, the later ones succeed.
use recording.Prelude.{
  ◌≡◌, ◌≤◌, inl, inr, refl, ℕ, String, true, false, none, arith, Bool-cases, Option-cases,
  same_refl,
}
use recording.Asr.{
  Ctx, wait, seed_text, transcription_failed, DeterministicTranscriber, has_failed, fail_first_now,
  transcribe_deterministic, delay_of,
}
use recording.Service.Process.{returned}

-- A wait lasts between 5 and 14.9 seconds.
pub delay_of_lem : (h : ℕ) → (5000000000 ≤ delay_of h) × (delay_of h ≤ 14900000000)
unfolding delay_of
delay_of_lem h = (omega arith, omega arith)

module _ (seed : String → ℕ) (ctx : Ctx) (task_id : String) (d : DeterministicTranscriber) where
  -- A task is not forgotten.
  pub transcribe_deterministic-has_failed :
      (other : String)
      → has_failed other d ≡ true
      → has_failed other (transcribe_deterministic seed ctx task_id d).1 ≡ true
  unfolding transcribe_deterministic fail_first_now
  transcribe_deterministic-has_failed other h = elim (Option-cases (wait ctx d.delay)) [
    | inr (e, broken) ↦ rw broken h
    | inl over ↦ elim (Bool-cases d.fail_first) [
      | inr never ↦ rw (over, never) h
      | inl first ↦ elim (Bool-cases (has_failed task_id d)) [
        | inl known ↦ rw (over, first, known) h
        | inr new ↦ rw (over, first, new) (ground (arith, h))
      ]
    ]
  ]

  module _ (over : wait ctx d.delay ≡ none) (first : d.fail_first ≡ true) where
    pub first_call :
        has_failed task_id d ≡ false
        → ((transcribe_deterministic seed ctx task_id d).0 ≡ transcription_failed task_id)
          × (has_failed task_id (transcribe_deterministic seed ctx task_id d).1 ≡ true)
    unfolding transcribe_deterministic fail_first_now
    first_call new =
        (rw (over, first, new) refl, rw (over, first, new) (ground (arith, same_refl task_id)))

    pub later_call :
        d.fail ≡ false
        → has_failed task_id d ≡ true
        → transcribe_deterministic seed ctx task_id d ≡ (returned (seed_text seed task_id), d)
    unfolding transcribe_deterministic fail_first_now
    later_call sound known = rw (over, first, known, sound) refl
