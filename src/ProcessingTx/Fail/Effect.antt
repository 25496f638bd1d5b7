-- ===== src/ProcessingTx/Fail/Effect.antt =====
-- What `FailTask` of processing_tx.go leaves in the tables, column by column.
use recording.ProcessingTx.Fail.{failed_event, failed_row, status_text, fail_task}
use recording.Prelude.{
  same→eq, same, ◌≡◌, ◌≢◌, ◌+◌, ◌*◌, ◌-◌, ◌^◌, ◌<◌, ◌≤◌, ◌⊎◌, inl, inr, refl, String, true, none,
  some, arith, find?, ok, err, ltb, Bool-cases,
}
use recording.Database.Rows.{to_task_event_po, str_ptr, TaskRow, EventRow, RecordingRow, Db}
use recording.Domain.Status
use recording.Domain.Status.{
  is_status, is_in_flight, TaskStatus, pending, transcribing, summarizing, failed,
}
use recording.Domain.Event.{task_auto_retry_scheduled, task_failed, warn, error}
use recording.Domain.Json.{num, end, field}
use recording.Domain.Task.{ExecutionKey}
use recording.ErrorCode.{ErrorCode, number}
use recording.Database.Tx.{Env, has_recording_id}
use recording.Database.Log.Moved.{Moved, Says, Posted-Moved}
use recording.Ports.{commit_unknown}
use recording.ProcessingTx.Fail.Laws.{Failed, fail_task_lem}

-- A stage of processing, and the word for it in an event.
pub data Stage : TaskStatus → String → Type 0 where
  at_asr : Stage transcribing "transcribing"
  at_llm : Stage summarizing "summarizing"

is_in_flight-Stage : (s : TaskStatus) → is_in_flight s ≡ true → Stage s (status_text s)
is_in_flight-Stage pending h = ground arith
is_in_flight-Stage transcribing h = at_asr
is_in_flight-Stage summarizing h = at_llm
is_in_flight-Stage Status.done h = ground arith
is_in_flight-Stage failed h = ground arith

-- An empty text is stored as NULL.
stored_text : (m : String) → (str_ptr m ≡ some m) ⊎ ((m ≡ "") × (str_ptr m ≡ none))
stored_text m = elim (Bool-cases (same m "")) [
  | inl blank ↦ inr (same→eq m "" blank, ground arith)
  | inr text ↦ inl (ground arith)
]

module _ (env : Env) (key : ExecutionKey) (code : ErrorCode) (msg : String) (db : Db) where
  -- What both outcomes share: the task `t` of the key, in flight in the attempt of the key, is the
  -- row `u` now, which has the error and no results, and so has the one new event `e`.
  pub record Broken (d : Db) (t u : TaskRow) (e : EventRow) (r : RecordingRow) (stage : String)
      : Type 0 where
    pub moved : Moved env db d key.task_id t u e
    pub current : t.attempt ≡ key.attempt
    pub was : Stage t.status stage
    pub recording : find? (has_recording_id t.recording_id) db.recordings ≡ some r
    pub visible : r.deleting_at ≡ none
    pub transcript : u.transcript ≡ ""
    pub summary_json : u.summary_json ≡ none
    pub error_code : u.error_code ≡ some (number code)
    pub error_message : u.error_message ≡ msg
    pub started_at : u.started_at ≡ t.started_at
    pub event_code : e.error_code ≡ some (number code)
    pub event_message : (e.error_message ≡ some msg) ⊎ ((msg ≡ "") × (e.error_message ≡ none))

  -- In an attempt below the third the task is pending again, in the next attempt and after one
  -- second, doubled with each attempt.
  pub record Rescheduled (t u : TaskRow) (e : EventRow) (stage : String) : Type 0 where
    pub early : t.attempt < 3
    pub status : u.status ≡ pending
    pub attempt : u.attempt ≡ t.attempt + 1
    pub next_retry_at : u.next_retry_at ≡ some (env.now + 1000000000 * 2 ^ (t.attempt - 1))
    pub finished_at : u.finished_at ≡ none
    pub says : Says e task_auto_retry_scheduled warn t.attempt (some stage)
    pub details :
        e.details
        ≡ field "next_attempt"
            (num (t.attempt + 1))
            (field "retry_after_ms" (num (1000 * 2 ^ (t.attempt - 1))) end)

  -- From the third attempt on the task has failed.
  pub record GivenUp (t u : TaskRow) (e : EventRow) (stage : String) : Type 0 where
    pub late : 3 ≤ t.attempt
    pub status : u.status ≡ failed
    pub attempt : u.attempt ≡ t.attempt
    pub next_retry_at : u.next_retry_at ≡ none
    pub finished_at : u.finished_at ≡ some env.now
    pub says : Says e task_failed error t.attempt (some stage)
    pub details : e.details ≡ end

  outcome :
      (t : TaskRow)
      → t.attempt ≡ key.attempt
      → let u = failed_row env (t.event_seq + 1) t code msg t in
        let e = to_task_event_po (failed_event env key t code msg (t.event_seq + 1)) in
        Rescheduled t u e (status_text t.status) ⊎ GivenUp t u e (status_text t.status)
  outcome t current = elim (Bool-cases (ltb t.attempt 3)) [
    | inl early ↦ inl (ground (arith, current))
    | inr late ↦ inr (ground (arith, current))
  ]

  Failed-Broken :
      (d : Db) (t : TaskRow) (r : RecordingRow)
      → Failed env key code msg db d t r
      → (u : TaskRow) × (e : EventRow) × (stage : String) × Broken d t u e r stage
        × (Rescheduled t u e stage ⊎ GivenUp t u e stage)
  Failed-Broken d t r w = (
    _,
    _,
    status_text t.status,
    record {
      moved = Posted-Moved env w.posted (λ x. refl) (ground arith);
      current = w.posted.current;
      was = is_in_flight-Stage t.status w.in_flight;
      recording = w.recording;
      visible = w.visible;
      transcript = refl;
      summary_json = refl;
      error_code = refl;
      error_message = refl;
      started_at = refl;
      event_code = refl;
      event_message = stored_text msg;
    },
    outcome t w.posted.current,
  )

  -- Either nothing has changed and the result is no success; or the task of the key, in flight in the
  -- attempt of the key, with a recording that is not being deleted, has the error and no transcript or
  -- summary, and there is one event with the error and the stage. In an attempt below the third the
  -- task is pending in the next attempt, not before one second times 2^(attempt - 1) from now, and the
  -- event is `task_auto_retry_scheduled`; from the third on it has failed in its attempt, finished at
  -- this time, and the event is `task_failed`. Nothing else has changed, and the result is success or
  -- an unknown commit.
  pub fail_task-Broken :
      let (res, d) = fail_task env key code msg db in
      ((d ≡ db) × (res ≢ ok tt))
      ⊎ (((res ≡ ok tt) ⊎ (res ≡ err commit_unknown))
          × ((t : TaskRow) × (u : TaskRow) × (e : EventRow) × (r : RecordingRow) × ((stage : String)
                × Broken d t u e r stage
                × (Rescheduled t u e stage ⊎ GivenUp t u e stage))))
  fail_task-Broken = elim (fail_task_lem env key code msg db) [
    | inl unchanged ↦ inl unchanged
    | inr (res, (t, r, w)) ↦
        let (u, e, stage, broken, way) = Failed-Broken _ t r w in
        inr (res, (t, u, e, r, (stage, broken, way)))
  ]
