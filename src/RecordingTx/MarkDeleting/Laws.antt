-- ===== src/RecordingTx/MarkDeleting/Laws.antt =====
-- What `MarkDeleting` of recording_tx.go changes.
use recording.Prelude.{
  ℕ, ◌+◌, ◌≡◌, inl, inr, refl, sym, subst, ap, ◌∙◌, some-injective, String, Bool, true, false, ◌&&◌,
  not, List, [], ◌∷◌, none, some, arith, same, same_refl, same→eq, find?, Bool-cases, Option-cases,
}
use recording.Domain.Status.{TaskStatus, pending, transcribing, summarizing, done, failed}
use recording.Database.Table.{update}
use recording.Database.Rows.{Db, TaskRow, RecordingRow, to_task_event_po}
use recording.Database.Tx.{Env, find_hint, go, transact, has_recording_id, is_some}
use recording.Database.Tx.Steps.{transact-keeps}
use recording.Database.Log.{find_task, history, Shape, TaskLog, IsConsistent}
use recording.Database.Log.Post.{IsConsistent-post, TaskLog-cons, find_task-id}
use recording.Database.Log.Unique.{found_self, All-find?, find?-passes}
use recording.RecordingTx.HashLock.{
  with_hash_lock-Locked, IsConsistent-same, IsConsistent-Locked, ensuring_hash_lock-keeps,
}
use recording.RecordingTx.{with_hash_lock}
use recording.RecordingTx.MarkDeleting.{
  Hint, hint, mark_deleting, mark_body, mark_with_hint, marked_row, delete_event,
}

abbrev pub touched : Env → ℕ → TaskRow → TaskRow
touched env seq t = record t { event_seq = seq; updated_at = env.now }

Shape-touched :
    (env : Env) (seq : ℕ) (s : TaskStatus) (t : TaskRow) → Shape s t → Shape s (touched env seq t)
Shape-touched env seq pending t h = h
Shape-touched env seq transcribing t h = h
Shape-touched env seq summarizing t h = h
Shape-touched env seq done t h = h
Shape-touched env seq failed t h = h

find_recording-id :
    (j : String) (rs : List RecordingRow) (r : RecordingRow)
    → find? (has_recording_id j) rs ≡ some r
    → r.id ≡ j
find_recording-id j [] r h = cc
find_recording-id j (x ∷ xs) r h = elim (Bool-cases (same x.id j)) [
  | inl hit ↦ ground (arith, same→eq x.id j hit)
  | inr miss ↦ find_recording-id j xs r (rw miss at h)
]

module _ (env : Env) (recording_id : String) (h : Hint) (db : Db) where
  abbrev pub marked : List RecordingRow
  marked =
      update (λ r. same r.id recording_id && not (is_some r.deleting_at)) (marked_row env)
        db.recordings

  -- A commit: the recording was visible and is marked now; the task of the hint, if there is one,
  -- has one more event, a request to delete it, and keeps its status.
  pub data Marked (res : String × Bool) (d : Db) : Type 0 where
    alone :
        (r : RecordingRow)
        → find? (has_recording_id recording_id) db.recordings ≡ some r
        → r.deleting_at ≡ none
        → same h.task_id "" ≡ true
        → res ≡ ("", true)
        → d ≡ record db { recordings = marked }
        → Marked res d
    with_task :
        (r : RecordingRow) (t : TaskRow)
        → find? (has_recording_id recording_id) db.recordings ≡ some r
        → r.deleting_at ≡ none
        → same h.task_id "" ≡ false
        → find_task h.task_id db.tasks ≡ some t
        → res ≡ (t.id, true)
        → d.recordings ≡ marked
        → d.tasks ≡ update (λ x. same x.id t.id) (touched env (t.event_seq + 1)) db.tasks
        → d.events ≡ to_task_event_po (delete_event env r t (t.event_seq + 1)) ∷ db.events
        → Marked res d

  pub mark_body-go :
      (res : String × Bool) (d : Db) → mark_body env recording_id h db ≡ go res d → Marked res d
  unfolding mark_body
  mark_body-go res d e = elim (Option-cases (find? (has_recording_id recording_id) db.recordings)) [
    | inl absent ↦ absurd (ground arith)
    | inr (r, there) ↦ elim (Bool-cases (same h.task_id "")) [
      | inl no_task ↦ Marked.alone r there (ground arith) no_task (ground arith) (ground arith)
      | inr hinted ↦ elim (Option-cases (find_task h.task_id db.tasks)) [
        | inl missing ↦ absurd (ground arith)
        | inr (t, found) ↦
            Marked.with_task r t there (ground arith) hinted found (ground arith) (ground arith)
              (ground arith) (ground arith)
      ]
    ]
  ]

  -- The hint is not wrong: a task under the id that it names is the recording's.
  abbrev pub IsHintFor : Type 0
  IsHintFor =
      (t : TaskRow)
      → same h.task_id "" ≡ false
      → find_task h.task_id db.tasks ≡ some t
      → t.recording_id ≡ recording_id

  touched_log :
      (r : RecordingRow) (t : TaskRow)
      → r.id ≡ recording_id
      → t.recording_id ≡ recording_id
      → TaskLog t (history t.id db.events)
      → TaskLog
          (touched env (t.event_seq + 1) t)
          (to_task_event_po (delete_event env r t (t.event_seq + 1)) ∷ history t.id db.events)
  touched_log r t at of log =
      TaskLog-cons t (touched env (t.event_seq + 1) t)
        (to_task_event_po (delete_event env r t (t.event_seq + 1))) (history t.id db.events) log
        refl refl refl (at ∙ sym of) refl refl (inr (refl, refl)) log.attempt_positive (omega arith)
        (Shape-touched env (t.event_seq + 1) t.status t log.shaped)

  pub Marked-IsConsistent :
      (res : String × Bool) (d : Db) → IsHintFor → IsConsistent db → Marked res d → IsConsistent d
  Marked-IsConsistent res d hinted c (Marked.alone r there v no_task q at) =
      IsConsistent-same (ap (λ x. x.tasks) at) (ap (λ x. x.events) at) c
  Marked-IsConsistent res d hinted c (Marked.with_task r t there v named found q rs ts es) =
      let at_id = find_task-id h.task_id db.tasks t found in
      let found' = subst (λ i. find_task i db.tasks ≡ some t) (sym at_id) found in
      IsConsistent-post db d t.id t (λ x. same x.id t.id) (touched env (t.event_seq + 1))
        (to_task_event_po (delete_event env r t (t.event_seq + 1))) c found'
        (λ x hit. same→eq x.id t.id hit) (same_refl t.id) (λ x. refl) refl
        (touched_log r t (find_recording-id recording_id db.recordings r there)
          (hinted t named found) (c.logs t.id t found'))
        ts es

module _ (env : Env) (recording_id : String) (h : Hint) (db : Db) where
  pub mark_with_hint-IsConsistent :
      IsHintFor env recording_id h db
      → IsConsistent db
      → IsConsistent (mark_with_hint env recording_id h db).1
  unfolding mark_with_hint
  mark_with_hint-IsConsistent hinted c = elim (Bool-cases (same h.content_hash "")) [
    | inl no_row ↦ rw no_row c
    | inr row ↦
        let w = with_hash_lock-Locked h.content_hash env.now db in
        let c' = IsConsistent-Locked w c in
        let d0 = with_hash_lock h.content_hash env.now db in
        let hinted' : IsHintFor env recording_id h d0 = rw w.tasks hinted in
        rw row (
          ensuring_hash_lock-keeps IsConsistent env h.content_hash env.now
            (transact env (mark_body env recording_id h)) db c
            (transact-keeps IsConsistent env (mark_body env recording_id h) d0 c' (λ res d e.
              Marked-IsConsistent env recording_id h d0 res d hinted' c'
                (mark_body-go env recording_id h d0 res d e))))
  ]

module _ (env : Env) (recording_id : String) (db : Db) where
  -- The hint that is read in the same state is not wrong.
  hint_right : IsConsistent db → IsHintFor env recording_id (hint recording_id db) db
  hint_right c t named found =
      elim (Option-cases (find? (has_recording_id recording_id) db.recordings)) [
        | inl absent ↦ absurd (cc (same_refl "", rw absent at named))
        | inr (r, there) ↦
            let of = find_recording-id recording_id db.recordings r there in
            elim (Option-cases (find? (λ (x : TaskRow). same x.recording_id r.id) db.tasks)) [
              | inl no_task ↦ absurd (cc (same_refl "", rw (there, no_task) at named))
              | inr (x, joined) ↦
                  let owns = same→eq x.recording_id r.id (find?-passes _ db.tasks x joined) in
                  let self =
                    All-find? (λ (y : TaskRow). find_task y.id db.tasks ≡ some y) _ db.tasks x
                      (found_self db.tasks c.unique) joined in
                  let same_row = some-injective x t (sym self ∙ rw (there, joined) at found) in
                  ap (λ (y : TaskRow). y.recording_id) (sym same_row) ∙ owns ∙ of
            ]
      ]

  -- `MarkDeleting` keeps the database consistent, with the hint that it has read in the same state.
  pub mark_deleting-IsConsistent :
      IsConsistent db → IsConsistent (mark_deleting env recording_id db).1
  unfolding mark_deleting
  mark_deleting-IsConsistent c = elim (Option-cases (env.fails find_hint)) [
    | inl ran ↦
        rw (ran, mark_deleting)
          (mark_with_hint-IsConsistent env recording_id (hint recording_id db) db (hint_right c) c)
    | inr (e, broken) ↦ rw (broken, mark_deleting) c
  ]
