-- ===== src/Examples/Transactions.antt =====
-- The transactions on the concrete data.
use recording.Service.Catalog.{Single, IsCatalog}
use recording.ProcessingTx.Claim.Effect.{Taken, NothingToDo, claim_next-Taken}
use recording.ProcessingTx.Save.Effect.{Transcribed, save_transcription-Transcribed}
use recording.ProcessingTx.Complete.Effect.{Finished, complete_task-Finished}
use recording.ProcessingTx.Fail.Effect.{Broken, Rescheduled, GivenUp, fail_task-Broken}
use recording.ProcessingTx.Reset.Effect.{Idle, AllEnded, reset_in_flight-AllEnded}
use recording.RecordingTx.Retry.Effect.{Renewed, retry_task-Renewed}
use recording.Service.Catalog.Reuse.{Deduped, create_or_reuse-Deduped}
use recording.Database.Rows.{EventRow, Db, empty, TaskRow, RecordingRow}
use recording.Prelude.{
  String, [], ◌∷◌, ℕ, ◌≡◌, ◌≢◌, ◌⊎◌, refl, none, some, false, ok, err, find?, any, same, keep, All,
  not, ◌&&◌, ◌≤◌,
}
use recording.Domain.Status.{failed}
use recording.ErrorCode.{asr_failed}
use recording.Ports.{TxError, ClaimedExecution, commit_unknown}
use recording.Database.Table.{first?, update, affected, order_by, insert_ordered}
use recording.ProcessingTx.Claim.{candidates, is_claimable, claim_next, claim_body}
use recording.ProcessingTx.Claim.Laws.{candidate_oldest}
use recording.ProcessingTx.Complete.{completed_row, complete_task, complete_body}
use recording.ProcessingTx.Fail.{fail_task, fail_body}
use recording.ProcessingTx.Reset.{reset_in_flight}
use recording.RecordingTx.Retry.{retry_task}
use recording.RecordingTx.Purge.{purge_recording}
use recording.RecordingTx.Purge.Laws.{Purged, purge_recording_lem}
use recording.System.{here, step, claim, save, reachable-IsConsistent}
use recording.System.Fencing.{Refused, completed-Refused, failed-Refused}
use recording.System.Follows.{Became}
use recording.System.Follows.Steps.{step-Became}
use recording.System.Progress.{
  IsQuiet, is_used, save_transcription_succeeds, complete_task_succeeds, fail_task_succeeds,
}
use recording.Database.Tx.{Env, has_recording_id, transact}
use recording.Database.Log.{find_task, IsConsistent}
use recording.Domain.Task.{allocate_event_seq}
use recording.RecordingTx.{with_hash_lock}
use recording.RecordingTx.Create.{create_or_reuse_by_content_hash, create_or_reuse_body, join_tasks}
use recording.ProcessingTx.Save.{save_transcription, save_body}
use recording.Examples.Data.{
  quiet, input_1, key_1, summary_1, uploaded, claimed, transcribed, completed, to_uploaded,
  to_claimed, to_transcribed, to_completed, row_uploaded, row_recording, row_claimed,
  row_transcribed,
}

uploaded_task : find_task "task-1" uploaded.tasks ≡ some row_uploaded
unfolding allocate_event_seq create_or_reuse_by_content_hash create_or_reuse_body with_hash_lock
    transact join_tasks order_by insert_ordered same
uploaded_task = refl

claimed_task : find_task "task-1" claimed.tasks ≡ some row_claimed
unfolding allocate_event_seq create_or_reuse_by_content_hash create_or_reuse_body with_hash_lock
    transact join_tasks order_by insert_ordered claim_next claim_body update affected same
claimed_task = refl

transcribed_task : find_task "task-1" transcribed.tasks ≡ some row_transcribed
unfolding allocate_event_seq create_or_reuse_by_content_hash create_or_reuse_body with_hash_lock
    transact join_tasks order_by insert_ordered claim_next claim_body update affected
    save_transcription save_body same
transcribed_task = refl

completed_ok : (complete_task (quiet "d" 40) key_1 summary_1 transcribed).0 ≡ ok tt
unfolding allocate_event_seq create_or_reuse_by_content_hash create_or_reuse_body with_hash_lock
    transact join_tasks order_by insert_ordered claim_next claim_body update affected
    save_transcription save_body complete_task complete_body same
completed_ok = refl

abbrev row_completed : TaskRow
row_completed = completed_row (quiet "d" 40) 4 summary_1 row_transcribed

completed_task : find_task "task-1" completed.tasks ≡ some row_completed
unfolding allocate_event_seq create_or_reuse_by_content_hash create_or_reuse_body with_hash_lock
    transact join_tasks order_by insert_ordered claim_next claim_body update affected
    save_transcription save_body complete_task complete_body same
completed_task = refl

failed_ok : (fail_task (quiet "f" 40) key_1 asr_failed "no voice" claimed).0 ≡ ok tt
unfolding allocate_event_seq create_or_reuse_by_content_hash create_or_reuse_body with_hash_lock
    transact join_tasks order_by insert_ordered claim_next claim_body update affected fail_task
    fail_body same
failed_ok = refl

reachable-IsConsistent_example : IsConsistent completed
reachable-IsConsistent_example = reachable-IsConsistent to_completed

-- The completed task, after one more look for work.
abbrev later : Db
later = (claim_next (quiet "e" 50) completed).1

completed-Refused_example : Refused key_1 later
completed-Refused_example =
    completed-Refused (quiet "d" 40) key_1 summary_1 transcribed later
      (reachable-IsConsistent to_transcribed) completed_ok
      (step later (claim (quiet "e" 50) completed) here)
      ((λ gone. absurd (cc (gone, completed_task))), tt)

failed-Refused_example :
    Refused key_1 (fail_task (quiet "f" 40) key_1 asr_failed "no voice" claimed).1
failed-Refused_example =
    failed-Refused (quiet "f" 40) key_1 asr_failed "no voice" claimed
      (fail_task (quiet "f" 40) key_1 asr_failed "no voice" claimed).1
      (reachable-IsConsistent to_claimed) failed_ok here tt

step-Became_example : Became "task-1" row_claimed transcribed.tasks
step-Became_example =
    step-Became "task-1" row_claimed (save (quiet "c" 30) key_1 "hello" claimed)
      (reachable-IsConsistent to_claimed) claimed_task

claim_next-Taken_example :
    let env : Env = quiet "b" 20 in
    let (res, d) = claim_next env uploaded in
    ((d ≡ uploaded)
      × (((res ≡ ok none) × NothingToDo env uploaded) ⊎ ((e : TxError) × (res ≡ err e))))
    ⊎ ((x : ClaimedExecution) × ((res ≡ ok (some x)) ⊎ (res ≡ err commit_unknown))
        × ((t : TaskRow) × (u : TaskRow) × (e : EventRow) × (r : RecordingRow) × Taken env uploaded
              x d t u e r))
claim_next-Taken_example =
    claim_next-Taken (quiet "b" 20) uploaded (reachable-IsConsistent to_uploaded)

save_transcription-Transcribed_example :
    let env : Env = quiet "c" 30 in
    let (res, d) = save_transcription env key_1 "hello" claimed in
    ((d ≡ claimed) × (res ≢ ok tt))
    ⊎ (((res ≡ ok tt) ⊎ (res ≡ err commit_unknown))
        × ((t : TaskRow) × (u : TaskRow) × (e : EventRow) × (r : RecordingRow) × Transcribed env
              key_1 "hello" claimed d t u e r))
save_transcription-Transcribed_example =
    save_transcription-Transcribed (quiet "c" 30) key_1 "hello" claimed

complete_task-Finished_example :
    let env : Env = quiet "d" 40 in
    let (res, d) = complete_task env key_1 summary_1 transcribed in
    ((d ≡ transcribed) × (res ≢ ok tt))
    ⊎ (((res ≡ ok tt) ⊎ (res ≡ err commit_unknown))
        × ((t : TaskRow) × (u : TaskRow) × (e : EventRow) × (r : RecordingRow) × Finished env key_1
              summary_1 transcribed d t u e r))
complete_task-Finished_example = complete_task-Finished (quiet "d" 40) key_1 summary_1 transcribed

fail_task-Broken_example :
    let env : Env = quiet "f" 40 in
    let (res, d) = fail_task env key_1 asr_failed "no voice" claimed in
    ((d ≡ claimed) × (res ≢ ok tt))
    ⊎ (((res ≡ ok tt) ⊎ (res ≡ err commit_unknown))
        × ((t : TaskRow) × (u : TaskRow) × (e : EventRow) × (r : RecordingRow) × ((stage : String)
              × Broken env key_1 asr_failed "no voice" claimed d t u e r stage
              × (Rescheduled env key_1 asr_failed "no voice" claimed t u e stage
                  ⊎ GivenUp env key_1 asr_failed "no voice" claimed t u e stage))))
fail_task-Broken_example = fail_task-Broken (quiet "f" 40) key_1 asr_failed "no voice" claimed

-- The task has failed.
abbrev failed_1 : Db
failed_1 = record claimed {
  tasks = record row_claimed { status = failed; finished_at = some 40 } ∷ [];
}

retry_task-Renewed_example :
    let env : Env = quiet "g" 60 in
    let (res, d) = retry_task env "task-1" failed_1 in
    ((d ≡ failed_1) × ((x : TxError) × (res ≡ err x)))
    ⊎ ((a : ℕ) × ((res ≡ ok a) ⊎ (res ≡ err commit_unknown))
        × ((t : TaskRow) × (u : TaskRow) × (e : EventRow) × (r : RecordingRow) × Renewed env
              "task-1" failed_1 a d t u e r))
retry_task-Renewed_example = retry_task-Renewed (quiet "g" 60) "task-1" failed_1

reset_in_flight-AllEnded_example :
    let env : Env = quiet "h" 60 in
    let (res, d) = reset_in_flight env false claimed in
    ((d ≡ claimed)
      × (((res ≡ ok 0)
            × ((j : String) (t : TaskRow) → find_task j claimed.tasks ≡ some t → Idle t.status))
          ⊎ ((x : TxError) × (res ≡ err x))))
    ⊎ ((n : ℕ) × ((res ≡ ok n) ⊎ (res ≡ err commit_unknown)) × AllEnded env false claimed n d)
reset_in_flight-AllEnded_example =
    reset_in_flight-AllEnded (quiet "h" 60) false claimed (reachable-IsConsistent to_claimed)

purge_recording_lem_example :
    let env : Env = quiet "i" 60 in
    let (res, d) = purge_recording env "rec-1" completed in
    ((d ≡ completed) × (res ≢ ok tt))
    ⊎ (((res ≡ ok tt) ⊎ (res ≡ err commit_unknown)) × Purged env "rec-1" completed d)
purge_recording_lem_example = purge_recording_lem (quiet "i" 60) "rec-1" completed

nothing_stored : IsCatalog empty.recordings empty.tasks
unfolding Single
nothing_stored = record { named = tt; paired = tt; hosted = tt; single = tt; readable = tt }

create_or_reuse-Deduped_example :
    Deduped input_1 empty (create_or_reuse_by_content_hash (quiet "a" 10) input_1 empty)
create_or_reuse-Deduped_example =
    create_or_reuse-Deduped (quiet "a" 10) input_1 empty nothing_stored

claimed_recording : find? (has_recording_id "rec-1") claimed.recordings ≡ some row_recording
unfolding allocate_event_seq create_or_reuse_by_content_hash create_or_reuse_body with_hash_lock
    transact join_tasks order_by insert_ordered claim_next claim_body update affected same
claimed_recording = refl

unused_id : any (is_used "c") claimed.events ≡ false
unfolding allocate_event_seq create_or_reuse_by_content_hash create_or_reuse_body with_hash_lock
    transact join_tasks order_by insert_ordered claim_next claim_body update affected same
unused_id = refl

quiet-IsQuiet : IsQuiet (quiet "c" 30)
quiet-IsQuiet = record { runs = λ s. refl; commits = refl }

save_transcription_succeeds_example :
    (save_transcription (quiet "c" 30) key_1 "hello" claimed).0 ≡ ok tt
save_transcription_succeeds_example =
    save_transcription_succeeds (quiet "c" 30) quiet-IsQuiet key_1 claimed
      (reachable-IsConsistent to_claimed) unused_id "hello" row_claimed row_recording
      (record {
        task = claimed_task;
        attempt = refl;
        status = refl;
        recording = claimed_recording;
        visible = refl;
      })

fail_task_succeeds_example :
    (fail_task (quiet "c" 30) key_1 asr_failed "no voice" claimed).0 ≡ ok tt
fail_task_succeeds_example =
    fail_task_succeeds (quiet "c" 30) quiet-IsQuiet key_1 claimed
      (reachable-IsConsistent to_claimed) unused_id asr_failed "no voice" row_claimed row_recording
      (record {
        task = claimed_task;
        attempt = refl;
        status = refl;
        recording = claimed_recording;
        visible = refl;
      })
      refl

transcribed_recording : find? (has_recording_id "rec-1") transcribed.recordings ≡ some row_recording
unfolding allocate_event_seq create_or_reuse_by_content_hash create_or_reuse_body with_hash_lock
    transact join_tasks order_by insert_ordered claim_next claim_body update affected
    save_transcription save_body same
transcribed_recording = refl

unused_id_later : any (is_used "d") transcribed.events ≡ false
unfolding allocate_event_seq create_or_reuse_by_content_hash create_or_reuse_body with_hash_lock
    transact join_tasks order_by insert_ordered claim_next claim_body update affected
    save_transcription save_body same
unused_id_later = refl

complete_task_succeeds_example :
    (complete_task (quiet "d" 40) key_1 summary_1 transcribed).0 ≡ ok tt
complete_task_succeeds_example =
    complete_task_succeeds (quiet "d" 40) (record { runs = λ s. refl; commits = refl }) key_1
      transcribed (reachable-IsConsistent to_transcribed) unused_id_later summary_1 row_transcribed
      row_recording
      (record {
        task = transcribed_task;
        attempt = refl;
        status = refl;
        recording = transcribed_recording;
        visible = refl;
      })

first_candidate : first? (candidates (quiet "b" 20) uploaded.tasks) ≡ some row_uploaded
unfolding allocate_event_seq create_or_reuse_by_content_hash create_or_reuse_body with_hash_lock
    transact join_tasks order_by insert_ordered same
first_candidate = refl

candidate_oldest_example :
    All
      (λ (x : TaskRow). row_uploaded.created_at ≤ x.created_at)
      (keep (λ (x : TaskRow). is_claimable 20 x && not ((quiet "b" 20).skips x)) uploaded.tasks)
candidate_oldest_example = candidate_oldest (quiet "b" 20) uploaded row_uploaded first_candidate
