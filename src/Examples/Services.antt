-- ===== src/Examples/Services.antt =====
-- The use cases, the queries and the rules of the domain on the concrete data.
use recording.Database.Tx.{Env, Stmt}
use recording.Query.Laws.{Reads, Shows, get_task_lem, rest_from, page_of_lem}
use recording.Service.Process.Laws.{Cut, truncate_message_lem}
use recording.RecordingTx.Purge.{purge_recording}
use recording.Ports.{
  TaskView, DriverError, driver_failed, task_not_found, commit_unknown, TxError, DeletingCleanup,
  data_inconsistent, stale_execution,
}
use recording.Domain.Summary.Parse.Laws.{parse_summary-IsValid, IsValid, parse_summary-marshal}
use recording.System.{reachable-IsConsistent}
use recording.Prelude.{
  ap, arith, ◌*◌, ℕ, zero, suc, ◌<◌, ◌≤◌, ◌≡◌, ◌≢◌, ◌⊎◌, refl, String, true, false, List, [], ◌∷◌,
  ◌++◌, none, some, Result, ok, err, length, same, if◌then◌else◌,
}
use recording.Service.Delete.{cleanup_pending, delete, finalize}
use Prim.Native.String.{len, compare, ◌++◌ as text_append}
use recording.Domain.Status.{
  pending, transcribing, invalid_transition, attempt_mismatch, transitions,
}
use recording.Domain.Summary.Parse.{parse_summary, check_non_empty_elements}
use recording.Domain.Task.{transition}
use recording.Domain.Machine.{transition_lem}
use recording.Domain.Filename.{
  parse_extension, split_last_dot, to_lower, sanitize_filename, supported_extensions,
}
use recording.Domain.Filename.Laws.{NoControl, Joined, sanitize_filename_lem, parse_extension_lem}
use recording.Database.Rows.{Db, empty, TaskRow, RecordingRow}
use recording.FileStore.{Chunk, eof, StoredFile, save, stream_copy, remove, tmp_name}
use recording.FileStore.Laws.{save_lem, bytes_of}
use recording.ErrorCode.{recording_delete_pending}
use recording.ProcessingTx.Complete.{marshal_summary, texts}
use recording.Query.{get_task, task_view, page_of}
use recording.RecordingTx.Purge.Laws.{Purged}
use text.Mathlib.Text.{is_eq}
use text.Mathlib.TextPositions.{slice-append_left}
use recording.Service.{World}
use recording.Service.Files.{HasFiles, has_file}
use recording.Service.Sound.{IsSound}
use recording.Service.Sound.Uploads.{IsFresh}
use recording.System
use recording.Service.Catalog.{IsCatalog, Single}
use recording.Service.Reach.{
  ◌↝*◌, uses-IsCatalog, here, use_of, uploads, works, deletes, cleans_up, uses-IsSound,
  empty-IsSound,
}
use recording.Service.Upload.{UploadRequest, upload}
use recording.Service.Upload.Laws.{upload-HasFiles}
use recording.Service.Delete.Laws.{finalize_lem}
use recording.Service.Persist.{elapsed, persist, settled}
use recording.Service.Persist.Laws.{settles, persist_elapsed}
use recording.Service.Process.{Round, process, truncate_message, returned}
use recording.Service.Recover.{remove_orphan_files}
use recording.Service.Recover.Laws.{remove_orphan_files-HasFiles}
use recording.Examples.Data.{
  quiet, task_1, summary_1, uploaded, row_uploaded, row_recording, sound_disk, store_1,
}

abbrev pub world_1 : World
world_1 = record {
  db = uploaded;
  files = "file-1.mp3" ∷ [];
  notified = 1;
  cancelled = [];
  mirrored = [];
}

abbrev request_2 : UploadRequest
request_2 = record {
  file_part = record { bytes = 7 ∷ 8 ∷ 9 ∷ []; after = eof } ∷ [];
  filename = "two.wav";
  request_id = "req-2";
}

-- The directory before anything is uploaded.
abbrev world_0 : World
world_0 = record { db = empty; files = "stray" ∷ []; notified = 0; cancelled = []; mirrored = [] }

upload-HasFiles_example :
    HasFiles
      (upload (quiet "u" 70) store_1 sound_disk request_2 world_0).1.db.recordings
      (upload (quiet "u" 70) store_1 sound_disk request_2 world_0).1.files
upload-HasFiles_example =
    upload-HasFiles (quiet "u" 70) store_1 sound_disk request_2 world_0 (λ ext. tt) tt tt

abbrev round_1 : Round
round_1 = record {
  task_ctx = 1;
  claim = quiet "b" 20;
  check = quiet "x" 21;
  first = λ i. quiet "c" 30;
  second = λ i. quiet "d" 40;
  panic = quiet "p" 50;
  first_waits = (elapsed, elapsed);
  second_waits = (elapsed, elapsed);
  first_ctx = none;
  second_ctx = none;
  run_ctx = none;
  transcribe = λ task_id. returned "hello";
  summarize = λ transcript. returned summary_1;
}

abbrev row_1 : DeletingCleanup
row_1 = record {
  recording_id = "rec-1";
  task_id = "task-1";
  storage_path = "file-1.mp3";
  status = some pending;
  attempt = 1;
  event_seq = 2;
}

named : same row_1.storage_path "" ≡ false
unfolding same
named = refl

finalize_lem_example :
    let (res, w') = finalize (quiet "z" 90) sound_disk row_1 world_1 in
    ((res ≡ ok tt)
      × (has_file "file-1.mp3" w'.files ≡ false)
      × Purged (quiet "z" 90) "rec-1" uploaded w'.db)
    ⊎ ((res ≡ err recording_delete_pending)
        × ((w'.db ≡ uploaded)
            ⊎ (((purge_recording (quiet "z" 90) "rec-1" uploaded).0 ≡ err commit_unknown)
                × (has_file "file-1.mp3" w'.files ≡ false)
                × Purged (quiet "z" 90) "rec-1" uploaded w'.db)))
finalize_lem_example = finalize_lem (quiet "z" 90) sound_disk row_1 world_1 named

remove_orphan_files-HasFiles_example :
    ((remove_orphan_files (quiet "o" 5) (λ i. sound_disk) world_0).1.db ≡ empty)
    × HasFiles empty.recordings
        (remove_orphan_files (quiet "o" 5) (λ i. sound_disk) world_0).1.files
remove_orphan_files-HasFiles_example =
    remove_orphan_files-HasFiles (quiet "o" 5) (λ i. sound_disk) world_0 tt tt

-- A write that answers a stale execution in the third round.
abbrev op_1 : ℕ → Db → Result TxError (Unit {0}) × Db
op_1 (suc (suc zero)) db = (err stale_execution, db)
op_1 i db = (err data_inconsistent, db)

abbrev op_2 : ℕ → Db → Result TxError (Unit {0}) × Db
op_2 i db = (err data_inconsistent, db)

persist_elapsed_example :
    let (r0, d0) = op_1 0 empty in
    let (r1, d1) = op_1 1 d0 in
    let (r2, d2) = op_1 2 d1 in
    persist op_1 none elapsed elapsed empty ≡ (
      if settles r0
      then settled d0 r0
      else if settles r1
      then settled d1 r1
      else if settles r2
      then settled d2 r2
      else record { result = r2; halts = true; db = d2 })
persist_elapsed_example = persist_elapsed op_1 empty

page_of_lem_example :
    (length (page_of (quiet "l" 90) uploaded 1 20) ≤ 20)
    × ((0 * 20 < 9223372036854775808)
          × (rest_from (quiet "l" 90) uploaded 20 0
              ≡ page_of (quiet "l" 90) uploaded 1 20 ++ rest_from (quiet "l" 90) uploaded 20 1)
        ⊎ (9223372036854775808 ≤ 0 * 20)
          × (page_of (quiet "l" 90) uploaded 1 20 ≡ page_of (quiet "l" 90) uploaded 1 20))
page_of_lem_example = page_of_lem (quiet "l" 90) uploaded 0 20 (omega arith)

abbrev table_1 : Db
table_1 = record {
  recordings = row_recording ∷ [];
  tasks = row_uploaded ∷ [];
  events = [];
  hash_locks = [];
}

shown_1 : get_task (quiet "l" 90) "task-1" table_1 ≡ ok (task_view row_uploaded)
unfolding get_task same
shown_1 = refl

get_task_lem_example :
    let env : Env = quiet "l" 90 in
    ((v : TaskView) × (t : TaskRow) × (r : RecordingRow) × (get_task env "task-1" table_1 ≡ ok v)
      × Reads "task-1" table_1 t r
      × Shows v t)
    ⊎ ((get_task env "task-1" table_1 ≡ err task_not_found)
        × ((t : TaskRow) (r : RecordingRow) → Reads "task-1" table_1 t r → ⊥))
    ⊎ ((q : Stmt) × (e : DriverError) × (env.fails q ≡ some e)
        × (get_task env "task-1" table_1 ≡ err (driver_failed e)))
get_task_lem_example = get_task_lem (quiet "l" 90) "task-1" table_1

summary-IsValid : IsValid summary_1
unfolding check_non_empty_elements same
summary-IsValid = record { summary = refl; key_points = refl; todos = refl }

parse_summary-marshal_example : parse_summary (some (marshal_summary summary_1)) ≡ ok summary_1
parse_summary-marshal_example = parse_summary-marshal summary_1 summary-IsValid

read_back_1 : parse_summary (some (marshal_summary summary_1)) ≡ ok summary_1
unfolding parse_summary marshal_summary texts same
read_back_1 = refl

transition_lem_example :
    ((1 ≡ task_1.attempt)
      × (transitions task_1.status transcribing ≡ true)
      × (transition task_1 1 transcribing ≡ (record task_1 { status = transcribing }, none)))
    ⊎ ((1 ≢ task_1.attempt) × (transition task_1 1 transcribing ≡ (task_1, some attempt_mismatch)))
    ⊎ ((1 ≡ task_1.attempt)
        × (transitions task_1.status transcribing ≡ false)
        × (transition task_1 1 transcribing ≡ (task_1, some invalid_transition)))
transition_lem_example = transition_lem task_1 1 transcribing

abbrev chunks_1 : List Chunk
chunks_1 = record { bytes = 7 ∷ 8 ∷ 9 ∷ []; after = eof } ∷ []

abbrev stored_1 : StoredFile
stored_1 = record { storage_path = "new'.wav"; size_bytes = 3; content_hash = "hash-2" }

saved_1 : save store_1 sound_disk chunks_1 "wav" [] ≡ (ok stored_1, "new'.wav" ∷ [])
unfolding save stream_copy same
saved_1 = refl

save_lem_example :
    (3 ≡ length (bytes_of chunks_1))
    × (0 < 3)
    × (3 ≤ 52428800)
    × (stored_1.content_hash ≡ "hash-2")
    × ("new'.wav" ∷ [] ≡ "new'.wav" ∷ remove (tmp_name sound_disk) (tmp_name sound_disk ∷ []))
save_lem_example = save_lem store_1 sound_disk chunks_1 "wav" [] ("new'.wav" ∷ []) stored_1 saved_1

sanitize_filename_lem_example :
    (len (sanitize_filename "talk.mp3") ≤ 255)
    × NoControl (sanitize_filename "talk.mp3")
    × (sanitize_filename (sanitize_filename "talk.mp3") ≡ sanitize_filename "talk.mp3")
sanitize_filename_lem_example = sanitize_filename_lem "talk.mp3"

accepted_1 : parse_extension "a.b.MP3" ≡ ok "mp3"
unfolding parse_extension split_last_dot to_lower same
accepted_1 = refl

parse_extension_lem_example :
    (supported_extensions "mp3" ≡ true)
    × ((before : String) × (spelled : String) × (same before "" ≡ false)
        × (to_lower spelled ≡ "mp3")
        × Joined "a.b.MP3" (before, spelled))
parse_extension_lem_example = parse_extension_lem "a.b.MP3" "mp3" accepted_1

truncate_message_lem_example :
    ((len "boom" ≤ 500) × (truncate_message "boom" ≡ "boom"))
    ⊎ ((500 < len "boom")
        × (len (truncate_message "boom") ≤ 503)
        × ((n : ℕ) × Cut "boom" (truncate_message "boom") n))
truncate_message_lem_example = truncate_message_lem "boom"

file_name-IsFresh : IsFresh (quiet "u" 70) sound_disk empty.recordings
unfolding same
file_name-IsFresh = record {
  id = refl;
  lasting =
      λ ext. ap (λ v. is_eq (compare v "tmp-")) (slice-append_left "new'" (text_append "." ext));
  new = λ ext. tt;
}

-- An upload, a round of a worker, a deletion and a clean-up.
abbrev world_2 : World
world_2 = (upload (quiet "u" 70) store_1 sound_disk request_2 world_0).1

abbrev world_3 : World
world_3 = record world_2 {
  db = (process round_1 (record { db = world_2.db; halted = false; table = [] })).db;
}

abbrev world_4 : World
world_4 = (delete (λ i. quiet "y" 80) sound_disk "u" world_3).1

abbrev world_5 : World
world_5 = cleanup_pending (λ i. quiet "w" 90) (λ i. sound_disk) world_4

summary_1-IsValid : IsValid summary_1
summary_1-IsValid = parse_summary-IsValid (some (marshal_summary summary_1)) summary_1 read_back_1

uses_1 : world_0 ↝* world_5
uses_1 =
    use_of world_2 (uploads (quiet "u" 70) store_1 sound_disk request_2 world_0 file_name-IsFresh) (
      use_of world_3
        (works round_1 (record { db = empty; halted = false; table = [] }) world_2
          (λ text. summary_1-IsValid))
        (use_of world_4 (deletes (λ i. quiet "y" 80) sound_disk "u" world_3)
          (use_of world_5 (cleans_up (λ i. quiet "w" 90) (λ i. sound_disk) world_4) here)))

uses-IsSound_example : IsSound world_5.db world_5.files
uses-IsSound_example = uses-IsSound uses_1 (empty-IsSound ("stray" ∷ []))

uses_2 : world_0 ↝* world_3
uses_2 =
    use_of world_2 (uploads (quiet "u" 70) store_1 sound_disk request_2 world_0 file_name-IsFresh) (
      use_of world_3
        (works round_1 (record { db = empty; halted = false; table = [] }) world_2
          (λ text. summary_1-IsValid))
        here)

empty-IsCatalog : IsCatalog empty.recordings empty.tasks
unfolding Single
empty-IsCatalog = record { named = tt; paired = tt; hosted = tt; single = tt; readable = tt }

uses-IsCatalog_example : IsCatalog world_3.db.recordings world_3.db.tasks
uses-IsCatalog_example = uses-IsCatalog uses_2 (reachable-IsConsistent System.here) empty-IsCatalog
