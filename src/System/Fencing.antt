-- ===== src/System/Fencing.antt =====
-- What a worker can still do with the key of an execution: the conditional updates of
-- processing_tx.go under any interleaving with other transactions.
use recording.Prelude.{
  Option-cases, none, ℕ, ◌+◌, ◌*◌, ◌≤◌, ◌≡◌, ◌≢◌, inl, inr, refl, sym, ap, subst, ◌∙◌,
  some-injective, String, some, arith, ok, true,
}
use recording.Domain.Status.{TaskStatus, is_in_flight}
use recording.Domain.Summary.{Summary}
use recording.Domain.Task.{ExecutionKey}
use recording.ErrorCode.{ErrorCode}
use recording.Database.Rows.{Db, TaskRow, EventRow}
use recording.Database.Tx.{Env}
use recording.Database.Log.{find_task, IsConsistent}
use recording.Database.Log.Post.{Posted, Posted-read_back, find_task-id}
use recording.ProcessingTx.Save.{save_transcription}
use recording.ProcessingTx.Save.Laws.{save_transcription_lem}
use recording.ProcessingTx.Complete.{complete_task}
use recording.ProcessingTx.Complete.Laws.{complete_task_lem, complete_task-IsConsistent}
use recording.ProcessingTx.Fail.{fail_task}
use recording.ProcessingTx.Fail.Laws.{fail_task_lem, fail_task-IsConsistent}
use recording.System.{◌⟶*◌, here, step, step-IsConsistent}
use recording.System.Follows.{progress}
use recording.System.Follows.Steps.{step-Became}

-- The execution is over: the task has gone past the last stage of its attempt.
abbrev pub IsPast : ExecutionKey → Db → Type 0
IsPast key db =
    (t : TaskRow) → find_task key.task_id db.tasks ≡ some t → 4 * key.attempt + 3 ≤ progress t

past_apart :
    (key : ExecutionKey) (t : TaskRow)
    → 4 * key.attempt + 3 ≤ progress t
    → t.attempt ≡ key.attempt
    → is_in_flight t.status ≡ true
    → ⊥
past_apart key t past current flying = ground arith

module _ (env : Env) (key : ExecutionKey) (db : Db) (past : IsPast key db) where
  save_refused :
      (text : String)
      → let (res, d) = save_transcription env key text db in (d ≡ db) × (res ≢ ok tt)
  save_refused text = elim (save_transcription_lem env key text db) [
    | inl nothing ↦ nothing
    | inr (_, (t, _, w)) ↦ absurd (
        past_apart key t (past t w.posted.task) w.posted.current
          (ap is_in_flight w.posted.in_status))
  ]

  complete_refused :
      (s : Summary) → let (res, d) = complete_task env key s db in (d ≡ db) × (res ≢ ok tt)
  complete_refused s = elim (complete_task_lem env key s db) [
    | inl nothing ↦ nothing
    | inr (_, (t, _, w)) ↦ absurd (
        past_apart key t (past t w.posted.task) w.posted.current
          (ap is_in_flight w.posted.in_status))
  ]

  fail_refused :
      (code : ErrorCode) (msg : String)
      → let (res, d) = fail_task env key code msg db in (d ≡ db) × (res ≢ ok tt)
  fail_refused code msg = elim (fail_task_lem env key code msg db) [
    | inl nothing ↦ nothing
    | inr (_, (t, _, w)) ↦
        absurd (past_apart key t (past t w.posted.task) w.posted.current w.in_flight)
  ]

-- Along the path no step gives the id to a new task: where there is no task, there is none after.
abbrev pub NotReused : String → {db d : Db} → db ⟶* d → Type 0
NotReused j here = Unit
NotReused j (step {a = a} b s rest) =
    (find_task j a.tasks ≡ none → find_task j b.tasks ≡ none) × NotReused j rest

steps-IsPast :
    (key : ExecutionKey) {db d : Db} (path : db ⟶* d)
    → IsConsistent db
    → NotReused key.task_id path
    → IsPast key db
    → IsPast key d
steps-IsPast key here c single past = past
steps-IsPast key (step {a = a} b s rest) c (stays, single) past =
    steps-IsPast key rest (step-IsConsistent s c) single (λ u at.
      elim (Option-cases (find_task key.task_id a.tasks)) [
        | inl absent ↦ absurd (cc (stays absent, at))
        | inr (t, there) ↦ elim (step-Became key.task_id t s c there) [
          | inl gone ↦ absurd (cc (gone, at))
          | inr (v, v_at, f) ↦
              let same_row = some-injective v u (sym v_at ∙ at) in
              subst (λ y. 4 * key.attempt + 3 ≤ progress y) same_row
                (omega (arith, past t there, f.forward))
        ]
      ])

-- The row that a conditional update leaves under its key.
Posted-row :
    {db d : Db} {k : String} {a : ℕ} {s : TaskStatus} {t u : TaskRow} {f : TaskRow → TaskRow}
    {e : EventRow}
    → Posted db d k a s t f e
    → ((x : TaskRow) → (f x).id ≡ x.id)
    → find_task k d.tasks ≡ some u
    → u ≡ f t
Posted-row {db} {d} {k} {a} {s} {t} {u} {f} w same_id there =
    Posted-read_back w same_id
      (subst (λ i. find_task i d.tasks ≡ some u) (sym (find_task-id k db.tasks t w.task)) there)

completed-IsPast :
    (env : Env) (key : ExecutionKey) (s : Summary) (db : Db)
    → (complete_task env key s db).0 ≡ ok tt
    → IsPast key (complete_task env key s db).1
completed-IsPast env key s db ran t there = elim (complete_task_lem env key s db) [
  | inl (_, not_ok) ↦ absurd (not_ok ran)
  | inr (_, (t0, _, w)) ↦
      let row = Posted-row w.posted (λ x. refl) there in
      subst (λ y. 4 * key.attempt + 3 ≤ progress y) (sym row) (ground (arith, w.posted.current))
]

failed-IsPast :
    (env : Env) (key : ExecutionKey) (code : ErrorCode) (msg : String) (db : Db)
    → (fail_task env key code msg db).0 ≡ ok tt
    → IsPast key (fail_task env key code msg db).1
failed-IsPast env key code msg db ran t there = elim (fail_task_lem env key code msg db) [
  | inl (_, not_ok) ↦ absurd (not_ok ran)
  | inr (_, (t0, _, w)) ↦
      let row = Posted-row w.posted (λ x. refl) there in
      subst (λ y. 4 * key.attempt + 3 ≤ progress y) (sym row) (ground (arith, w.posted.current))
]

-- What the three calls of a worker with one key do on a database: nothing, and no success.
pub record Refused (key : ExecutionKey) (d : Db) : Type 0 where
  pub save :
      (env : Env) (text : String)
      → ((save_transcription env key text d).1 ≡ d)
        × ((save_transcription env key text d).0 ≢ ok tt)
  pub complete :
      (env : Env) (s : Summary)
      → ((complete_task env key s d).1 ≡ d) × ((complete_task env key s d).0 ≢ ok tt)
  pub fail :
      (env : Env) (code : ErrorCode) (msg : String)
      → ((fail_task env key code msg d).1 ≡ d) × ((fail_task env key code msg d).0 ≢ ok tt)

past-Refused : (key : ExecutionKey) (d : Db) → IsPast key d → Refused key d
past-Refused key d past = record {
  save = λ env text. save_refused env key d past text;
  complete = λ env s. complete_refused env key d past s;
  fail = λ env code msg. fail_refused env key d past code msg;
}

-- An execution completes at most once: on a consistent database, after a `CompleteTask` that has
-- returned success and any further transactions, a purge of the task among them, of which none gives
-- the task's id to a new task, `SaveTranscription`, `CompleteTask` and `FailTask` with the same key
-- change nothing and return no success.
pub completed-Refused :
    (env : Env) (key : ExecutionKey) (s : Summary) (db d : Db)
    → IsConsistent db
    → (complete_task env key s db).0 ≡ ok tt
    → (path : (complete_task env key s db).1 ⟶* d) → NotReused key.task_id path
    → Refused key d
completed-Refused env key s db d c ran path single = past-Refused key d (
    steps-IsPast key path (complete_task-IsConsistent env key s db c) single
      (completed-IsPast env key s db ran))

-- The same after a `FailTask` that has returned success, whether it has failed the task or
-- scheduled its next attempt, under the same conditions: a consistent database, and no further
-- transaction that gives the task's id to a new task.
pub failed-Refused :
    (env : Env) (key : ExecutionKey) (code : ErrorCode) (msg : String) (db d : Db)
    → IsConsistent db
    → (fail_task env key code msg db).0 ≡ ok tt
    → (path : (fail_task env key code msg db).1 ⟶* d) → NotReused key.task_id path
    → Refused key d
failed-Refused env key code msg db d c ran path single = past-Refused key d (
    steps-IsPast key path (fail_task-IsConsistent env key code msg db c) single
      (failed-IsPast env key code msg db ran))
