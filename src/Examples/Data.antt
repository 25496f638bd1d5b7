-- ===== src/Examples/Data.antt =====
-- The concrete data: one recording from its upload to its summary.
use Prim.Native.String.{◌++◌ as text_append}
use recording.Prelude.{ℕ, zero, suc, String, [], ◌∷◌, none, some, false, refl}
use recording.Domain.Status.{pending}
use recording.Domain.Summary.{Summary}
use recording.Domain.Task.{ProcessingTask, zero_task, ExecutionKey}
use recording.Domain.Event.{TaskEvent, zero_event}
use recording.Database.Rows.{Db, empty, Recording, TaskRow, RecordingRow}
use recording.Database.Tx.{Env, acknowledged}
use recording.Ports.{CreateInput}
use recording.RecordingTx.Create.{create_or_reuse_by_content_hash}
use recording.RecordingTx.Create.Laws.{IsFreshInput}
use recording.ProcessingTx.Claim.{claim_next, claimed_row}
use recording.ProcessingTx.Save.{save_transcription, transcribed_row}
use recording.ProcessingTx.Complete.{complete_task}
use recording.System.{◌⟶*◌, here, step, claim, save, complete, create_or_reuse}
use recording.FileStore.{Disk, Store}

abbrev pub fresh_id : String → ℕ → String
fresh_id prefix zero = prefix
fresh_id prefix (suc n) = text_append (fresh_id prefix n) "'"

-- A server without faults, at a time and with ids of its own.
abbrev pub quiet : String → ℕ → Env
quiet prefix now = record {
  fails = λ s. none;
  commit_reply = acknowledged;
  skips = λ t. false;
  text_before = λ a b. false;
  now = now;
  new_id = fresh_id prefix;
  instance_id = "instance-1";
}

abbrev pub recording_1 : Recording
recording_1 = record {
  id = "rec-1";
  original_filename = "talk.mp3";
  storage_path = "file-1.mp3";
  extension = "mp3";
  size_bytes = 2048;
  content_hash = "hash-1";
  deleting_at = none;
  created_at = 10;
  updated_at = 10;
}

abbrev pub task_1 : ProcessingTask
task_1 = record zero_task {
  id = "task-1";
  recording_id = "rec-1";
  attempt = 1;
  event_seq = 1;
  created_request_id = "req-1";
  created_at = 10;
  updated_at = 10;
}

abbrev pub event_1 : TaskEvent
event_1 = record zero_event {
  event_id = "event-1";
  task_id = "task-1";
  recording_id = "rec-1";
  event_seq = 1;
  attempt = 1;
  to_status = some pending;
}

abbrev pub input_1 : CreateInput
input_1 = record { recording = recording_1; task = task_1; event = event_1 }

pub input_1-IsFreshInput : IsFreshInput input_1
input_1-IsFreshInput = record {
  status = refl;
  attempt = refl;
  event_seq = refl;
  finished_at = refl;
  recording = refl;
  event_task = refl;
  event_recording = refl;
  first = refl;
  from_status = refl;
  to_status = refl;
}

abbrev pub key_1 : ExecutionKey
key_1 = record { task_id = "task-1"; attempt = 1 }

abbrev pub summary_1 : Summary
summary_1 = record { summary = "a talk"; key_points = "first" ∷ []; todos = [] }

-- After the upload, the claim, the transcript and the summary.
abbrev pub uploaded : Db
uploaded = (create_or_reuse_by_content_hash (quiet "a" 10) input_1 empty).1

abbrev pub claimed : Db
claimed = (claim_next (quiet "b" 20) uploaded).1

abbrev pub transcribed : Db
transcribed = (save_transcription (quiet "c" 30) key_1 "hello" claimed).1

abbrev pub completed : Db
completed = (complete_task (quiet "d" 40) key_1 summary_1 transcribed).1

pub to_uploaded : empty ⟶* uploaded
to_uploaded = step uploaded (create_or_reuse (quiet "a" 10) input_1 empty input_1-IsFreshInput) here

pub to_claimed : empty ⟶* claimed
to_claimed =
    step uploaded (create_or_reuse (quiet "a" 10) input_1 empty input_1-IsFreshInput)
      (step claimed (claim (quiet "b" 20) uploaded) here)

pub to_transcribed : empty ⟶* transcribed
to_transcribed = step uploaded (create_or_reuse (quiet "a" 10) input_1 empty input_1-IsFreshInput) (
    step claimed (claim (quiet "b" 20) uploaded)
      (step transcribed (save (quiet "c" 30) key_1 "hello" claimed) here))

pub to_completed : empty ⟶* completed
to_completed = step uploaded (create_or_reuse (quiet "a" 10) input_1 empty input_1-IsFreshInput) (
    step claimed (claim (quiet "b" 20) uploaded) (
      step transcribed (save (quiet "c" 30) key_1 "hello" claimed)
        (step completed (complete (quiet "d" 40) key_1 summary_1 transcribed) here)))

-- The rows on the way.
abbrev pub row_uploaded : TaskRow
row_uploaded = record {
  id = "task-1";
  recording_id = "rec-1";
  status = pending;
  attempt = 1;
  event_seq = 1;
  transcript = "";
  summary_json = none;
  error_code = none;
  error_message = "";
  created_request_id = "req-1";
  created_at = 10;
  updated_at = 10;
  started_at = none;
  finished_at = none;
  next_retry_at = none;
}

abbrev pub row_recording : RecordingRow
row_recording = record {
  id = "rec-1";
  original_filename = "talk.mp3";
  storage_path = "file-1.mp3";
  extension = "mp3";
  size_bytes = 2048;
  content_hash = "hash-1";
  deleting_at = none;
  created_at = 10;
  updated_at = 10;
}

abbrev pub row_claimed : TaskRow
row_claimed = claimed_row (quiet "b" 20) 2 row_uploaded

abbrev pub row_transcribed : TaskRow
row_transcribed = transcribed_row (quiet "c" 30) 3 "hello" row_claimed

-- A disk without faults, whose hash is a constant.
abbrev pub sound_disk : Disk
sound_disk = record {
  free = some 1000000;
  create_fails = false;
  close_fails = false;
  rename_fails = false;
  list_fails = false;
  remove_fails = λ name. false;
  ctx_err = λ i. none;
  write_fails = λ i. false;
  sha256_hex = λ bytes. "hash-2";
  new_name = fresh_id "new";
}

abbrev pub store_1 : Store
store_1 = record { max_file_bytes = 52428800; min_free_bytes = 1000 }
