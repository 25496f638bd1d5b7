-- ===== src/Service/Answers/Retry.antt =====
-- The codes of a refused retry come out of the transaction.
use recording.Prelude.{ℕ, String, Option, none, some, arith, Result, ok, err}
use recording.ErrorCode.{http_status}
use recording.Database.Rows.{Db}
use recording.Database.Tx.{
  Env, Tx, Progress, stop, go, transact, CommitReply, acknowledged, lost_kept, lost_dropped, finish,
  begin_tx,
}
use recording.Ports.{
  DriverError, TxError, app, commit_unknown, stale_execution, data_inconsistent, task_not_found,
  recording_not_found, driver_failed,
}
use recording.RecordingTx.Retry.{retry_body, retry_task}
use recording.Service.{World}
use recording.Service.Answers.{IsAnswer, IsAnswered}
use recording.Service.Retry.{retry_error, after_retry, retry}

abbrev Coded : {R : Type 0} → Result TxError R → Type 0
Coded (err (app code)) = IsAnswer code
Coded _ = Unit

abbrev CodedEnd : {R A : Type 0} → Progress R A → Type 0
CodedEnd (stop r) = Coded r
CodedEnd (go a d) = Unit

finish-Coded :
    {R : Type 0} (c : CommitReply) (db : Db) (end : Progress R R)
    → CodedEnd end
    → Coded (finish c db end).0
finish-Coded c db (stop r) h = h
finish-Coded acknowledged db (go a d) h = tt
finish-Coded lost_kept db (go a d) h = tt
finish-Coded lost_dropped db (go a d) h = tt

retry_body-CodedEnd :
    (env : Env) (task_id : String) (db : Db) → CodedEnd (retry_body env task_id db)
unfolding retry_body http_status
retry_body-CodedEnd env task_id db = ground arith

begun-Coded :
    {R : Type 0} (c : CommitReply) (db : Db) (end : Progress R R) (o : Option DriverError)
    → CodedEnd end
    → Coded
        (elim o as (λ _. Result TxError R × Db) [
          | none ↦ finish c db end
          | some e ↦ (err (driver_failed e), db)
        ]).0
begun-Coded c db end none h = finish-Coded c db end h
begun-Coded c db end (some e) h = tt

transact-Coded :
    {R : Type 0} (env : Env) (body : Tx R R) (db : Db)
    → CodedEnd (body db)
    → Coded (transact env body db).0
unfolding transact
transact-Coded env body db h = begun-Coded env.commit_reply db (body db) (env.fails begin_tx) h

retry_error-IsAnswer : (e : TxError) → Coded {R = ℕ} (err e) → IsAnswer (retry_error e)
unfolding http_status
retry_error-IsAnswer (app code) h = h
retry_error-IsAnswer stale_execution h = omega arith
retry_error-IsAnswer data_inconsistent h = omega arith
retry_error-IsAnswer commit_unknown h = omega arith
retry_error-IsAnswer task_not_found h = omega arith
retry_error-IsAnswer recording_not_found h = omega arith
retry_error-IsAnswer (driver_failed e) h = omega arith

after_retry-IsAnswered :
    (task_id : String) (w : World) (r : Result TxError ℕ × Db)
    → Coded r.0
    → IsAnswered (after_retry task_id w r).0
after_retry-IsAnswered task_id w (ok attempt, db) h = tt
after_retry-IsAnswered task_id w (err e, db) h = retry_error-IsAnswer e h

pub retry-IsAnswered :
    (env : Env) (task_id : String) (w : World) → IsAnswered (retry env task_id w).0
unfolding retry retry_task
retry-IsAnswered env task_id w =
    after_retry-IsAnswered task_id w (retry_task env task_id w.db)
      (transact-Coded env (retry_body env task_id) w.db (retry_body-CodedEnd env task_id w.db))
