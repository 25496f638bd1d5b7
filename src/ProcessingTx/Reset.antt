-- ===== src/ProcessingTx/Reset.antt =====
-- `ResetInFlight` of processing_tx.go: the tasks that a crash has left in flight.
pub mod Laws
pub mod Effect
pub mod Events
use recording.Prelude.{
  ℕ, suc, ◌+◌, String, Bool, ◌||◌, not, List, [], ◌∷◌, Option, none, some, ◌==◌, if◌then◌else◌,
  Result, ok, err, keep, length,
}
use recording.Domain.Status.{
  TaskStatus, pending, transcribing, summarizing, failed, DomainError, is_status,
}
use recording.Domain.Json.{Fields, num, str, end, field}
use recording.Domain.Task.{ProcessingTask, zero_task, transition_for_recovery, allocate_event_seq}
use recording.Domain.Event.{TaskEvent, zero_event, task_recovered, task_interrupted, info, warn}
use recording.ErrorCode.{service_interrupted, number, message}
use recording.Database.Table.{order_by}
use recording.Database.Rows.{TaskRow, Db}
use recording.Database.Tx.{
  Env, Tx, ◌>>=◌, ◌>>◌, scan_tasks, attempt, commit, pure, rollback, stop_if, select_tasks,
  update_tasks, insert_event_row, transact,
}
use recording.Ports.{TxError, driver_failed, other}
use recording.ProcessingTx.Fail.{status_text}

-- WHERE status IN ('transcribing', 'summarizing').
abbrev pub in_flight : TaskRow → Bool
in_flight t = is_status t.status transcribing || is_status t.status summarizing

abbrev pub reset_target : Bool → TaskStatus
reset_target interrupt = if interrupt then failed else pending

abbrev pub reset_event : Env → Bool → ℕ → TaskRow → ℕ → TaskEvent
reset_event env interrupt i task seq = record zero_event {
  event_id = env.new_id i;
  task_id = task.id;
  recording_id = task.recording_id;
  event_seq = seq;
  attempt = if interrupt then task.attempt else task.attempt + 1;
  kind = if interrupt then task_interrupted else task_recovered;
  occurred_at = env.now;
  level = if interrupt then warn else info;
  from_status = some task.status;
  to_status = some (reset_target interrupt);
  created_request_id = task.created_request_id;
  instance_id = env.instance_id;
  error_code = if interrupt then some (number service_interrupted) else none;
  error_message = if interrupt then message service_interrupted else "";
  details =
      field "previous_attempt" (num task.attempt)
        (field "previous_status" (str (status_text task.status)) end);
}

-- One round of the first loop: the checked edge, and the event of the task.
abbrev pub recovered :
    Env → Bool → ℕ → TaskRow → ProcessingTask × Option DomainError → Option TaskEvent
recovered env interrupt i task (dom, some e) = none
recovered env interrupt i task (dom, none) =
    let (allocated, seq) = allocate_event_seq dom in some (reset_event env interrupt i task seq)

abbrev pub recover_one : Env → Bool → ℕ → TaskRow → Option TaskEvent
recover_one env interrupt i task = recovered env interrupt i task (
    transition_for_recovery (record zero_task { status = task.status; event_seq = task.event_seq })
      (reset_target interrupt))

abbrev pub push_event : Option TaskEvent → Option (List TaskEvent) → Option (List TaskEvent)
push_event none es = none
push_event (some e) none = none
push_event (some e) (some es) = some (e ∷ es)

-- The first loop; `none` where an edge is refused.
unfoldable pub recover_events : Env → Bool → ℕ → List TaskRow → Option (List TaskEvent)
unfolding allocate_event_seq transition_for_recovery
recover_events env interrupt i [] = some []
recover_events env interrupt i (t ∷ ts) =
    push_event (recover_one env interrupt i t) (recover_events env interrupt (suc i) ts)

abbrev pub reset_row : Env → Bool → TaskRow → TaskRow
reset_row env interrupt t =
    if interrupt
    then record t {
      status = failed;
      event_seq = t.event_seq + 1;
      updated_at = env.now;
      error_code = some (number service_interrupted);
      error_message = message service_interrupted;
      finished_at = some env.now;
    }
    else record t {
      status = pending;
      event_seq = t.event_seq + 1;
      updated_at = env.now;
      attempt = t.attempt + 1;
      transcript = "";
      summary_json = none;
      error_code = none;
      error_message = "";
      started_at = none;
      finished_at = none;
    }

-- The last loop.
unfoldable pub insert_events : {R : Type 0} → Env → List TaskEvent → Tx R (Unit {0})
insert_events env [] = pure tt
insert_events env (e ∷ es) = do insert_event_row env e; insert_events env es

abbrev pub events_or : {R : Type 0} → Option (List TaskEvent) → Tx R (List TaskEvent)
events_or none = rollback (err (driver_failed other))
events_or (some es) = pure es

unfoldable pub reset_body : Env → Bool → Tx ℕ ℕ
unfolding recover_events insert_events
reset_body env interrupt = do
  attempt env scan_tasks
  tasks ←
      select_tasks
        (λ ts. order_by (λ (a b : TaskRow). env.text_before a.id b.id) (keep in_flight ts))
  stop_if (length tasks == 0) (ok 0)
  events ← events_or (recover_events env interrupt 0 tasks)
  rows ← update_tasks env in_flight (reset_row env interrupt)
  stop_if (not (rows == length tasks)) (err (driver_failed other))
  insert_events env events
  commit (length tasks)

unfoldable pub reset_in_flight : Env → Bool → Db → Result TxError ℕ × Db
unfolding reset_body
reset_in_flight env interrupt = transact env (reset_body env interrupt)
