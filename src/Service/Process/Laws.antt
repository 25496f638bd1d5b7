-- ===== src/Service/Process/Laws.antt =====
-- What one round of a worker leaves behind.
use recording.Prelude.{
  sym, subst, ℕ, zero, suc, ◌-◌, ◌≤◌, ◌<◌, ◌≡◌, ◌⊎◌, inl, inr, refl, String, Bool, true, false,
  Option, none, some, Result, ok, err, Bool-cases, Result-cases, arith, leb, if◌then◌else◌,
}
use recording.Service.Process.{
  text_append, fail_task, complete_task, save_transcription, Call, CallError, Round, Processing,
  cut_back, truncate_message, fail_first, fail_second, recover_round, after_summary, after_saved,
  after_transcript, is_still_mine, execute, after_claim, process, returned, failed_with, panicked,
  call_canceled, llm_timed_out, llm_upstream, llm_invalid, call_failed,
}
use recording.ErrorCode.{ErrorCode, internal_error}
use recording.Database.Tx.{Env, is_some}
use Prim.Native.Char.{Char, len_utf8}
use Prim.Native.Nat.{compare, Ordering}
use Prim.Native.String.{[], ◌∷◌, len, slice, fits}
use Prim.Native.String.len as len_laws
use Prim.Native.String.slice as slice_laws
use text.Mathlib.TextPositions.{len-append, boundary-zero}
use text.Mathlib.Text.{is_char_boundary}
use recording.Domain.Summary.{Summary}
use recording.Domain.Task.{ExecutionKey}
use recording.Database.Rows.{Db}
use recording.Database.Log.{IsConsistent}
use recording.Ports.{TxError, ClaimedExecution}
use recording.ProcessingTx.Claim.{claim_next}
use recording.ProcessingTx.Claim.Laws.{claim_next-IsConsistent}
use recording.ProcessingTx.Save.Laws.{save_transcription-IsConsistent}
use recording.ProcessingTx.Complete.Laws.{complete_task-IsConsistent}
use recording.ProcessingTx.Fail.Laws.{fail_task-IsConsistent}
use recording.Query.{get_task}
use recording.Service.Persist.{Persisted}
use recording.Service.Persist.Laws.{persist-keeps}
use recording.CancelTable.{register}

-- A summary that is returned has the property.
abbrev pub Returns : (Summary → Type 0) → Call Summary → Type 0
Returns V (returned s) = V s
Returns V (failed_with e) = Unit
Returns V (panicked msg) = Unit

pub Returns-any : (c : Call Summary) → Returns (λ s. Unit) c
Returns-any (returned s) = tt
Returns-any (failed_with e) = tt
Returns-any (panicked msg) = tt

-- A property of the database that the four transactions of a worker keep, where the summaries have
-- the property `V`.
pub record Keeps (V : Summary → Type 0) (P : Db → Type 0) : Type 0 where
  pub claim : (env : Env) (db : Db) → P db → P (claim_next env db).1
  pub save :
      (env : Env) (key : ExecutionKey) (text : String) (db : Db)
      → P db
      → P (save_transcription env key text db).1
  pub complete :
      (env : Env) (key : ExecutionKey) (s : Summary) (db : Db)
      → V s
      → P db
      → P (complete_task env key s db).1
  pub fail :
      (env : Env) (key : ExecutionKey) (code : ErrorCode) (msg : String) (db : Db)
      → P db
      → P (fail_task env key code msg db).1

module _ {V : Summary → Type 0} {P : Db → Type 0} (k : Keeps V P) (r : Round)
    (valid : (text : String) → Returns V (r.summarize text)) (key : ExecutionKey) where
  abbrev IsOk : Processing → Type 0
  IsOk s = P s.db

  recover_round-IsOk : (msg : String) (s : Processing) → IsOk s → IsOk (recover_round r key msg s)
  recover_round-IsOk msg s c = elim (Bool-cases (is_some r.run_ctx)) [
    | inl stopping ↦ rw stopping c
    | inr running ↦ rw running (k.fail r.panic key internal_error _ s.db c)
  ]

  fail_second-IsOk :
      (code : ErrorCode) (e : CallError) (s : Processing)
      → IsOk s
      → IsOk (fail_second r key code e s)
  fail_second-IsOk code e s c =
      persist-keeps P _ (λ i d c'. k.fail (r.second i) key code _ d c') r.second_ctx
        r.second_waits.0 r.second_waits.1 s.db c

  fail_first-IsOk :
      (code : ErrorCode) (e : CallError) (s : Processing)
      → IsOk s
      → IsOk (fail_first r key code e s)
  fail_first-IsOk code e s c =
      persist-keeps P _ (λ i d c'. k.fail (r.first i) key code _ d c') r.first_ctx r.first_waits.0
        r.first_waits.1 s.db c

  after_summary-IsOk :
      (c : Call Summary) (s : Processing) → Returns V c → IsOk s → IsOk (after_summary r key c s)
  after_summary-IsOk (failed_with call_canceled) s v c = c
  after_summary-IsOk (failed_with (llm_timed_out m)) s v c =
      fail_second-IsOk _ (llm_timed_out m) s c
  after_summary-IsOk (failed_with (llm_upstream m)) s v c = fail_second-IsOk _ (llm_upstream m) s c
  after_summary-IsOk (failed_with (llm_invalid m)) s v c = fail_second-IsOk _ (llm_invalid m) s c
  after_summary-IsOk (failed_with (call_failed m)) s v c = fail_second-IsOk _ (call_failed m) s c
  after_summary-IsOk (panicked msg) s v c = recover_round-IsOk msg s c
  after_summary-IsOk (returned summary) s v c =
      persist-keeps P _ (λ i d c'. k.complete (r.second i) key summary d v c') r.second_ctx
        r.second_waits.0 r.second_waits.1 s.db c

  after_saved-IsOk :
      (transcript : String) (s : Processing) (p : Persisted)
      → P p.db
      → IsOk (after_saved r key transcript s p)
  after_saved-IsOk transcript s p c = elim (Result-cases p.result) [
    | inl (_, saved) ↦ rw saved (after_summary-IsOk (r.summarize transcript) _ (valid transcript) c)
    | inr (e, failed) ↦ rw failed c
  ]

  after_transcript-IsOk :
      (c : Call String) (s : Processing) → IsOk s → IsOk (after_transcript r key c s)
  after_transcript-IsOk (failed_with call_canceled) s c = c
  after_transcript-IsOk (failed_with (llm_timed_out m)) s c =
      fail_first-IsOk _ (llm_timed_out m) s c
  after_transcript-IsOk (failed_with (llm_upstream m)) s c = fail_first-IsOk _ (llm_upstream m) s c
  after_transcript-IsOk (failed_with (llm_invalid m)) s c = fail_first-IsOk _ (llm_invalid m) s c
  after_transcript-IsOk (failed_with (call_failed m)) s c = fail_first-IsOk _ (call_failed m) s c
  after_transcript-IsOk (panicked msg) s c = recover_round-IsOk msg s c
  after_transcript-IsOk (returned transcript) s c = after_saved-IsOk transcript s _ (
      persist-keeps P _ (λ i d c'. k.save (r.first i) key transcript d c') r.first_ctx
        r.first_waits.0 r.first_waits.1 s.db c)

  execute-IsOk : (s : Processing) → IsOk s → IsOk (execute r key s)
  unfolding execute
  execute-IsOk s c = elim (Bool-cases (is_still_mine key (get_task r.check key.task_id s.db))) [
    | inl mine ↦ rw mine (after_transcript-IsOk (r.transcribe key.task_id) s c)
    | inr lost ↦ rw lost c
  ]

if-keeps :
    (P : Db → Type 0) (b : Bool) (x y : Processing) → P x.db → P y.db → P (if b then x else y).db
if-keeps P true x y hx hy = hx
if-keeps P false x y hx hy = hy

-- What the transactions keep, a round keeps.
pub process-keeps :
    (V : Summary → Type 0) (P : Db → Type 0)
    → Keeps V P
    → (r : Round) (s : Processing) → ((text : String) → Returns V (r.summarize text))
    → P s.db
    → P (process r s).db
unfolding process
process-keeps V P k r s valid c =
    if-keeps P s.halted s _ c (by_claim (claim_next r.claim s.db) (k.claim r.claim s.db c))
  where
    by_claim :
        (out : Result TxError (Option ClaimedExecution) × Db) → P out.1 → P (after_claim r s out).db
    by_claim (err e, db) c' = c'
    by_claim (ok none, db) c' = c'
    by_claim (ok (some claimed), db) c' =
        execute-IsOk k r valid claimed.execution_key
          (record s { db = db; table = register claimed.execution_key r.task_ctx s.table }) c'

-- One round of a worker keeps the database consistent: whatever the transcriber and the summarizer
-- return, whether they panic, and whichever of the writes fail or lose their reply.
pub process-IsConsistent :
    (r : Round) (s : Processing) → IsConsistent s.db → IsConsistent (process r s).db
process-IsConsistent r s c =
    process-keeps (λ x. Unit) IsConsistent
      (record {
        claim = claim_next-IsConsistent;
        save = save_transcription-IsConsistent;
        complete = λ env key x db v. complete_task-IsConsistent env key x db;
        fail = fail_task-IsConsistent;
      })
      r s (λ text. Returns-any (r.summarize text)) c

-- The cut of `truncateMessage` is a position before the limit that starts a character, or 0.
pub cut_back_lem :
    (msg : String) (n : ℕ)
    → (cut_back msg n ≤ n) × ((cut_back msg n ≡ 0) ⊎ (is_char_boundary msg (cut_back msg n) ≡ true))
unfolding cut_back
cut_back_lem msg zero = (omega arith, inl refl)
cut_back_lem msg (suc n) = elim (Bool-cases (is_char_boundary msg (suc n))) [
  | inl starts ↦ rw starts (omega arith, inr starts)
  | inr inside ↦ let (le, at) = cut_back_lem msg n in rw inside (omega (arith, le), at)
]

fits-len :
    (o : Ordering) (c : Char) (s : String) (n : ℕ)
    → compare (len_utf8 c) n ≡ o
    → len s ≤ n - len_utf8 c
    → len (fits o c s) ≤ n
fits-len Ordering.lt c s n e le = ground (arith, len_laws.cons c s)
fits-len Ordering.eq c s n e le = ground (arith, len_laws.cons c s)
fits-len Ordering.gt c s n e le = omega (arith, len_laws.nil)

len-slice_le : (s : String) (n : ℕ) → len (slice s 0 n) ≤ n
len-slice_le [] n = rw slice_laws.nil (omega (arith, len_laws.nil))
len-slice_le (c ∷ s) n = rw (slice_laws.cons-zero c s n) (
    fits-len (compare (len_utf8 c) n) c (slice s 0 (n - len_utf8 c)) n refl
      (len-slice_le s (n - len_utf8 c)))

cut_back-last :
    (msg : String) (n m : ℕ) → cut_back msg n < m → m ≤ n → is_char_boundary msg m ≡ false
unfolding cut_back
cut_back-last msg zero m low high = absurd (omega arith)
cut_back-last msg (suc n) m low high = elim (Bool-cases (is_char_boundary msg (suc n))) [
  | inl starts ↦ absurd (omega (arith, rw starts at low, high))
  | inr inside ↦ elim (Bool-cases (leb m n)) [
    | inl below ↦ cut_back-last msg n m (rw inside at low) (ground arith)
    | inr above ↦
        let beyond : n < m = ground arith in
        let at : suc n ≡ m = omega (arith, high, beyond) in
        subst (λ k. is_char_boundary msg k ≡ false) at inside
  ]
]

-- The text is the longest beginning of the message that ends between two characters and has at most
-- 500 bytes, and an ellipsis.
pub record Cut (msg out : String) (n : ℕ) : Type 0 where
  pub bounded : n ≤ 500
  pub whole : is_char_boundary msg n ≡ true
  pub longest : (m : ℕ) → n < m → m ≤ 500 → is_char_boundary msg m ≡ false
  pub text : out ≡ text_append (slice msg 0 n) "…"

-- A message of at most 500 bytes is stored as it is. Of a longer one the longest beginning of at
-- most 500 bytes that ends between two characters is stored, with an ellipsis, 503 bytes at most.
pub truncate_message_lem :
    (msg : String)
    → ((len msg ≤ 500) × (truncate_message msg ≡ msg))
      ⊎ ((500 < len msg)
          × (len (truncate_message msg) ≤ 503)
          × ((n : ℕ) × Cut msg (truncate_message msg) n))
unfolding truncate_message
truncate_message_lem msg = elim (Bool-cases (leb (len msg) 500)) [
  | inl short ↦ inl (ground arith, rw short refl)
  | inr long ↦
      let n = cut_back msg 500 in
      let ellipsis : len "…" ≡ 3 = refl in
      let (cut, at) = cut_back_lem msg 500 in
      inr (
        ground arith,
        rw long (omega (arith, cut, len-slice_le msg n, len-append (slice msg 0 n) "…", ellipsis)),
        (
          n,
          record {
            bounded = cut;
            whole = elim at [
              | inl start ↦
                  subst (λ k. is_char_boundary msg k ≡ true) (sym start) (boundary-zero msg)
              | inr starts ↦ starts
            ];
            longest = cut_back-last msg 500;
            text = rw long refl;
          },
        ),
      )
]
