-- ===== src/ProcessingTx/Reset/Effect.antt =====
-- What `ResetInFlight` of processing_tx.go leaves in the tables, column by column.
use recording.Prelude.{
  same_refl, same, ◌≡◌, ◌+◌, ◌⊎◌, ◌∙◌, inl, inr, refl, ap, ℕ, String, Bool, true, false, List, [],
  ◌∷◌, none, some, arith, length, ok, err, Bool-cases, ◌||◌, if◌then◌else◌,
}
use recording.ProcessingTx.Reset.{
  message, number, reset_in_flight, reset_row, reset_event, in_flight,
}
use recording.Domain.Status.{is_status, TaskStatus, pending, transcribing, summarizing, failed}
use recording.Domain.Json.{Fields, num, str, end, field}
use recording.ErrorCode.{number, message}
use mathlib.Core.Option
use recording.Domain.Status
use recording.Domain.Event.{task_interrupted, task_recovered, warn, info}
use recording.Database.Rows.{TaskRow, EventRow, Db, to_task_event_po}
use recording.Database.Table.{update}
use recording.Database.Tx.{Env}
use recording.Database.Log.{find_task, history, IsConsistent}
use recording.Database.Log.Post.{find_task-update}
use recording.Database.Log.Moved.{Stamped, Says, NoError}
use recording.Ports.{TxError, commit_unknown}
use recording.ProcessingTx.Fail.{status_text}
use recording.ProcessingTx.Fail.Effect.{Stage, at_asr, at_llm}
use recording.ProcessingTx.Reset.Events.{history-pushed-none, history-pushed-some}
use recording.ProcessingTx.Reset.Laws.{
  flying, WasReset, reset_in_flight_lem, reset_row-id, find_task-flying, flying_unique,
}

-- A status outside of processing.
pub data Idle : TaskStatus → Type 0 where
  waits : Idle pending
  is_done : Idle Status.done
  has_failed : Idle failed

-- The columns of both events that are the same: the stamp, and what was interrupted.
abbrev pub details_of : TaskRow → String → Fields
details_of t stage =
    field "previous_attempt" (num t.attempt) (field "previous_status" (str stage) end)

module _ (env : Env) where
  -- With the interruption as a failure: the task has failed in its attempt, and keeps what the
  -- attempt has produced.
  pub record Interrupted (t u : TaskRow) (e : EventRow) : Type 0 where
    pub status : u.status ≡ failed
    pub attempt : u.attempt ≡ t.attempt
    pub transcript : u.transcript ≡ t.transcript
    pub summary_json : u.summary_json ≡ t.summary_json
    pub error_code : u.error_code ≡ some 30003
    pub error_message : u.error_message ≡ "服务重启中断了任务，请手动重试"
    pub started_at : u.started_at ≡ t.started_at
    pub finished_at : u.finished_at ≡ some env.now
    pub next_retry_at : u.next_retry_at ≡ t.next_retry_at
    pub says : Says e task_interrupted warn t.attempt none
    pub event_code : e.error_code ≡ some 30003
    pub event_message : e.error_message ≡ some "服务重启中断了任务，请手动重试"

  -- Without: the task is pending again in the next attempt, with no trace of this one.
  pub record Recovered (t u : TaskRow) (e : EventRow) : Type 0 where
    pub status : u.status ≡ pending
    pub attempt : u.attempt ≡ t.attempt + 1
    pub transcript : u.transcript ≡ ""
    pub summary_json : u.summary_json ≡ none
    pub error_code : u.error_code ≡ none
    pub error_message : u.error_message ≡ ""
    pub started_at : u.started_at ≡ none
    pub finished_at : u.finished_at ≡ none
    pub next_retry_at : u.next_retry_at ≡ t.next_retry_at
    pub says : Says e task_recovered info (t.attempt + 1) none
    pub no_error : NoError e

  abbrev pub Ended : Bool → TaskRow → TaskRow → EventRow → Type 0
  Ended true t u e = Interrupted t u e
  Ended false t u e = Recovered t u e

  reset-Ended :
      (interrupt : Bool) (i : ℕ) (t : TaskRow)
      → Ended interrupt t
          (reset_row env interrupt t)
          (to_task_event_po (reset_event env interrupt i t (t.event_seq + 1)))
  unfolding number message same
  reset-Ended true i t = ground arith
  reset-Ended false i t = ground (arith, same_refl "")

  reset-Stamped :
      (interrupt : Bool) (i : ℕ) (t : TaskRow)
      → Stamped env i t
          (reset_row env interrupt t)
          (to_task_event_po (reset_event env interrupt i t (t.event_seq + 1)))
  reset-Stamped true i t = ground arith
  reset-Stamped false i t = ground arith

  module _ (interrupt : Bool) (db : Db) where
    -- A task in processing: its row, and its log, which has one more event.
    pub record WasEnded (d : Db) (j : String) (t u : TaskRow) (e : EventRow) (i : ℕ)
        (stage : String) : Type 0 where
      pub row : find_task j d.tasks ≡ some u
      pub log : history j d.events ≡ e ∷ history j db.events
      pub stamped : Stamped env i t u e
      pub ended : Ended interrupt t u e
      pub details : e.details ≡ details_of t stage

    -- Every task in processing has ended, with one event; the other tasks and their logs, the
    -- recordings and the locks are as they were.
    pub record AllEnded (n : ℕ) (d : Db) : Type 0 where
      pub ended :
          (j : String) (t : TaskRow) (stage : String)
          → find_task j db.tasks ≡ some t
          → Stage t.status stage
          → (u : TaskRow) × (e : EventRow) × (i : ℕ) × WasEnded d j t u e i stage
      pub spared :
          (j : String) (t : TaskRow)
          → find_task j db.tasks ≡ some t
          → Idle t.status
          → (find_task j d.tasks ≡ some t) × (history j d.events ≡ history j db.events)
      pub absent :
          (j : String)
          → find_task j db.tasks ≡ none
          → (find_task j d.tasks ≡ none) × (history j d.events ≡ history j db.events)
      pub recordings : d.recordings ≡ db.recordings
      pub hash_locks : d.hash_locks ≡ db.hash_locks
      pub count : n ≡ length (flying env interrupt db)

Stage-status_text :
    (s : TaskStatus) (stage : String)
    → Stage s stage
    → ((is_status s transcribing || is_status s summarizing) ≡ true) × (status_text s ≡ stage)
Stage-status_text s stage at_asr = (refl, refl)
Stage-status_text s stage at_llm = (refl, refl)

Idle-is_status :
    (s : TaskStatus) → Idle s → (is_status s transcribing || is_status s summarizing) ≡ false
Idle-is_status s waits = refl
Idle-is_status s is_done = refl
Idle-is_status s has_failed = refl

is_status-Idle :
    (s : TaskStatus) → (is_status s transcribing || is_status s summarizing) ≡ false → Idle s
is_status-Idle pending h = waits
is_status-Idle transcribing h = absurd (cc h)
is_status-Idle summarizing h = absurd (cc h)
is_status-Idle Status.done h = is_done
is_status-Idle failed h = has_failed

module _ (env : Env) (interrupt : Bool) (db : Db) (c : IsConsistent db) where
  found_after :
      (j : String)
      → find_task j (update in_flight (reset_row env interrupt) db.tasks)
        ≡ Option.map
            (λ x. if in_flight x then reset_row env interrupt x else x)
            (find_task j db.tasks)
  found_after j =
      find_task-update in_flight (reset_row env interrupt) (reset_row-id env interrupt) j db.tasks

  WasReset-ended :
      {n : ℕ} {d : Db}
      → WasReset env interrupt db n d
      → (j : String) (t : TaskRow) (stage : String) → find_task j db.tasks ≡ some t
      → Stage t.status stage
      → (u : TaskRow) × (e : EventRow) × (i : ℕ) × WasEnded env interrupt db d j t u e i stage
  WasReset-ended w j t stage there at =
      let (on, text) = Stage-status_text t.status stage at in
      let (i, more) =
        history-pushed-some env interrupt j 0 (flying env interrupt db) db.events t
          (flying_unique env interrupt db c)
          (find_task-flying env interrupt db c j ∙ rw there (rw on refl)) in
      (
        _,
        _,
        i,
        record {
          row = ap (find_task j) w.tasks ∙ found_after j ∙ rw (there, on) refl;
          log = ap (history j) w.events ∙ more;
          stamped = reset-Stamped env interrupt i t;
          ended = reset-Ended env interrupt i t;
          details = rw text refl;
        },
      )

  WasReset-AllEnded :
      (n : ℕ) (d : Db) → WasReset env interrupt db n d → AllEnded env interrupt db n d
  WasReset-AllEnded n d w = record {
    ended = WasReset-ended w;
    spared = λ j t there idle.
        let off = Idle-is_status t.status idle in
        (
          ap (find_task j) w.tasks ∙ found_after j ∙ rw (there, off) refl,
          ap (history j) w.events
              ∙ history-pushed-none env interrupt j 0 (flying env interrupt db) db.events
                  (find_task-flying env interrupt db c j ∙ rw there (rw off refl)),
        );
    absent = λ j none_there. (
      ap (find_task j) w.tasks ∙ found_after j ∙ rw none_there refl,
      ap (history j) w.events
          ∙ history-pushed-none env interrupt j 0 (flying env interrupt db) db.events
              (find_task-flying env interrupt db c j ∙ rw none_there refl),
    );
    recordings = w.recordings;
    hash_locks = w.hash_locks;
    count = w.count;
  }

  none_flying :
      length (flying env interrupt db) ≡ 0
      → (j : String) (t : TaskRow) → find_task j db.tasks ≡ some t
      → Idle t.status
  none_flying empty_list j t there = elim (Bool-cases (in_flight t)) [
    | inr off ↦ is_status-Idle t.status off
    | inl on ↦
        let listed : find_task j (flying env interrupt db) ≡ some t =
          find_task-flying env interrupt db c j ∙ rw there (rw on refl) in
        absurd (no_member (flying env interrupt db) empty_list listed)
  ]
    where
      no_member : (ts : List TaskRow) → length ts ≡ 0 → find_task j ts ≡ some t → ⊥
      no_member [] e h = cc h
      no_member (x ∷ xs) e h = omega (arith, e)

  -- On a consistent database: either nothing has changed, and a success says that no task was
  -- transcribing or summarizing; or each such task has ended, with one event more in its log, and all
  -- other tasks, logs, recordings and locks are as they were. With the flag it has failed in its
  -- attempt with the code and the message of an interrupted service, finished at this time, and the
  -- event is `task_interrupted`; without, it is pending in the next attempt, without a transcript,
  -- summary, error, start or end, and the event is `task_recovered`. The result is then the number of
  -- these tasks or an unknown commit.
  pub reset_in_flight-AllEnded :
      let (res, d) = reset_in_flight env interrupt db in
      ((d ≡ db)
        × (((res ≡ ok 0)
              × ((j : String) (t : TaskRow) → find_task j db.tasks ≡ some t → Idle t.status))
            ⊎ ((x : TxError) × (res ≡ err x))))
      ⊎ ((n : ℕ) × ((res ≡ ok n) ⊎ (res ≡ err commit_unknown)) × AllEnded env interrupt db n d)
  reset_in_flight-AllEnded = elim (reset_in_flight_lem env interrupt db) [
    | inl (same_db, inl (zero_tasks, empty_list)) ↦
        inl (same_db, inl (zero_tasks, none_flying empty_list))
    | inl (same_db, inr failure) ↦ inl (same_db, inr failure)
    | inr (n, res, w) ↦ inr (n, res, WasReset-AllEnded n _ w)
  ]
