-- ===== src/RecordingTx/Purge/Laws.antt =====
-- What `PurgeRecording` of recording_tx.go removes.
use recording.Prelude.{◌≡◌, ◌⊎◌, ◌≢◌, inl, inr, sym, subst, String, arith, same, ok, err}
use recording.Database.Rows.{Db, TaskRow, EventRow, RecordingRow}
use recording.Database.Table.{delete}
use recording.Database.Tx.{Env, go, stop}
use recording.Database.Tx.Steps.{transact-keeps, transact-Outcome, undone, done}
use recording.Database.Log.{IsConsistent}
use recording.Database.Log.Remove.{IsConsistent-purge}
use recording.Ports.{commit_unknown}
use recording.RecordingTx.Purge.{purge_body, purge_recording}

module _ (env : Env) (recording_id : String) (db : Db) where
  -- All rows of the recording are gone, and no others.
  pub record Purged (d : Db) : Type 0 where
    pub tasks : d.tasks ≡ delete (λ (t : TaskRow). same t.recording_id recording_id) db.tasks
    pub events : d.events ≡ delete (λ (e : EventRow). same e.recording_id recording_id) db.events
    pub recordings :
        d.recordings ≡ delete (λ (r : RecordingRow). same r.id recording_id) db.recordings
    pub hash_locks : d.hash_locks ≡ db.hash_locks

  pub purge_body-go : (d : Db) → purge_body env recording_id db ≡ go tt d → Purged d
  unfolding purge_body
  purge_body-go d h = ground arith

  pub purge_recording-IsConsistent :
      IsConsistent db → IsConsistent (purge_recording env recording_id db).1
  unfolding purge_recording
  purge_recording-IsConsistent c =
      transact-keeps IsConsistent env (purge_body env recording_id) db c (λ a d h.
        let w = purge_body-go d h in IsConsistent-purge recording_id db d c w.tasks w.events)

  purge_body-not-ok : purge_body env recording_id db ≢ stop (ok tt)
  unfolding purge_body
  purge_body-not-ok h = ground arith

  -- Either nothing has changed and the result is an error, or exactly the rows of the recording are
  -- gone and the result is success or an unknown commit.
  pub purge_recording_lem :
      let (res, d) = purge_recording env recording_id db in
      ((d ≡ db) × (res ≢ ok tt)) ⊎ (((res ≡ ok tt) ⊎ (res ≡ err commit_unknown)) × Purged d)
  unfolding purge_recording
  purge_recording_lem = elim (transact-Outcome env (purge_body env recording_id) db) [
    | undone same_db stopped ↦ inl (same_db, λ h. purge_body-not-ok (stopped tt h))
    | done a d went at res ↦ inr (res, subst Purged (sym at) (purge_body-go d went))
  ]
