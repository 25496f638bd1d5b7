-- ===== src/Service/Sound/Deletes.antt =====
-- A deletion, and the clean-up loop, remove only files that no visible recording refers to.
use recording.Query.{
  is_task_of, is_deleting, deleting_of, get_deleting, list_deleting, oldest_mark_before,
}
use recording.Database.Tx.{select_task, Env, is_some, find_hint, transact, select_recording}
use recording.Prelude.{
  ◌≡◌, ◌⊎◌, inl, inr, refl, sym, ap, subst, ◌∙◌, ℕ, suc, String, Bool, true, false, ◌&&◌, not, List,
  [], ◌∷◌, Option, some, none, All, find?, map, Result, ok, err, Bool-cases, Option-cases, same,
  arith,
}
use recording.Database.Table.{update}
use recording.Database.Table.Laws.{All-keep, All-order_by}
use recording.Database.Rows.{RecordingRow, Db}
use recording.Database.Tx.Steps.{transact-keeps}
use recording.Database.Log.Unique.{All-find?, find?-passes}
use recording.Ports.{TxError, DeletingCleanup}
use recording.FileStore.{Disk, StoreError, delete_file}
use recording.RecordingTx.{with_hash_lock}
use recording.RecordingTx.HashLock.{with_hash_lock-Locked, ensuring_hash_lock-keeps}
use recording.RecordingTx.MarkDeleting.{
  Hint, hint, mark_deleting, mark_body, mark_with_hint, marked_row,
}
use recording.RecordingTx.MarkDeleting.Laws.{Marked, mark_body-go, mark_deleting-IsConsistent}
use recording.RecordingTx.Purge.{purge_recording}
use recording.RecordingTx.Purge.Laws.{purge_recording_lem, purge_recording-IsConsistent}
use recording.Service.{World}
use recording.Service.Delete.{
  cancel, after_delete, finalize, after_query, after_mark, delete, finalize_all, after_scan,
  cleanup_pending,
}
use recording.Service.Delete.Laws.{cancel-db, log_deleted-db, after_purge-ok}
use recording.Service.Sound.{
  IsUnneeded, Freed, Apart-Freed, IsSound, IsSound-same, IsSound-delete, IsSound-marked,
  IsSound-delete_file, All-delete,
}

-- The mark: the recordings are as they were, or those with the id are marked.
module _ (env : Env) (id : String) (rs : List RecordingRow) where
  abbrev to_mark : RecordingRow → Bool
  to_mark r = same r.id id && not (is_some r.deleting_at)

  abbrev MayMark : Db → Type 0
  MayMark d = (d.recordings ≡ rs) ⊎ (d.recordings ≡ update to_mark (marked_row env) rs)

  Marked-MayMark :
      (h : Hint) (db : Db) (res : String × Bool) (d : Db)
      → db.recordings ≡ rs
      → Marked env id h db res d
      → MayMark d
  Marked-MayMark h db res d same_rs (Marked.alone r _ _ _ _ at) =
      inr (ap (λ (x : Db). x.recordings) at ∙ ap (λ l. update to_mark (marked_row env) l) same_rs)
  Marked-MayMark h db res d same_rs (Marked.with_task r t _ _ _ _ _ at _ _) =
      inr (at ∙ ap (λ l. update to_mark (marked_row env) l) same_rs)

  mark_with_hint-MayMark :
      (h : Hint) (db : Db) → db.recordings ≡ rs → MayMark (mark_with_hint env id h db).1
  unfolding mark_with_hint
  mark_with_hint-MayMark h db at = elim (Bool-cases (same h.content_hash "")) [
    | inl no_row ↦ rw no_row (inl at)
    | inr row ↦
        let d0 = with_hash_lock h.content_hash env.now db in
        let at0 : d0.recordings ≡ rs =
          (with_hash_lock-Locked h.content_hash env.now db).recordings ∙ at in
        rw row (
          ensuring_hash_lock-keeps MayMark env h.content_hash env.now
            (transact env (mark_body env id h)) db (inl at)
            (transact-keeps MayMark env (mark_body env id h) d0 (inl at0)
              (λ res d e. Marked-MayMark h d0 res d at0 (mark_body-go env id h d0 res d e))))
  ]

  mark_deleting-MayMark : (db : Db) → db.recordings ≡ rs → MayMark (mark_deleting env id db).1
  unfolding mark_deleting
  mark_deleting-MayMark db at = elim (Option-cases (env.fails find_hint)) [
    | inl ran ↦ rw (ran, mark_deleting) (mark_with_hint-MayMark (hint id db) db at)
    | inr (e, broken) ↦ rw (broken, mark_deleting) (inl at)
  ]

mark_deleting-IsSound :
    (env : Env) (id : String) (db : Db) (files : List String)
    → IsSound db files
    → IsSound (mark_deleting env id db).1 files
mark_deleting-IsSound env id db files s =
    let c = mark_deleting-IsConsistent env id db s.consistent in
    elim (mark_deleting-MayMark env id db.recordings db refl) [
      | inl at ↦ IsSound-same c s at
      | inr at ↦ IsSound-marked c s (to_mark env id db.recordings) env at
    ]

-- A purge keeps what holds of every recording.
purge-All :
    (Q : RecordingRow → Type 0) (env : Env) (id : String) (db : Db)
    → All Q db.recordings
    → All Q (purge_recording env id db).1.recordings
purge-All Q env id db h = elim (purge_recording_lem env id db) [
  | inl (same_db, _) ↦ subst (λ (d : Db). All Q d.recordings) (sym same_db) h
  | inr (_, w) ↦ subst (All Q) (sym w.recordings) (All-delete _ Q db.recordings h)
]

purge-IsSound :
    (env : Env) (id : String) (db : Db) (files : List String)
    → IsSound db files
    → IsSound (purge_recording env id db).1 files
purge-IsSound env id db files s =
    let c = purge_recording-IsConsistent env id db s.consistent in
    elim (purge_recording_lem env id db) [
      | inl (same_db, _) ↦ IsSound-same c s (ap (λ (x : Db). x.recordings) same_db)
      | inr (_, w) ↦ IsSound-delete c s _ w.recordings
    ]

-- What the finishing of a deletion keeps: soundness, and what holds of every recording.
abbrev Kept : (w : World) → World → Type 1
Kept w v =
    IsSound v.db v.files
    × ((Q : RecordingRow → Type 0) → All Q w.db.recordings → All Q v.db.recordings)

cancel-files : (row : DeletingCleanup) (w : World) → (cancel row w).files ≡ w.files
cancel-files row w = ground arith

finalize-Kept :
    (env : Env) (disk : Disk) (row : DeletingCleanup) (w : World)
    → IsUnneeded row.storage_path w.db.recordings
    → IsSound w.db w.files
    → Kept w (finalize env disk row w).1
unfolding finalize
finalize-Kept env disk row w u s = by_file (delete_file disk row.storage_path w1.files) (
    subst (λ d. IsSound d (delete_file disk row.storage_path w1.files).1) (sym at_db)
      (subst (λ l. IsSound w.db (delete_file disk row.storage_path l).1) (sym at_files)
        (IsSound-delete_file disk row.storage_path w.db w.files u s)))
  where
    w1 : World
    w1 = cancel row w

    at_db : w1.db ≡ w.db
    at_db = cancel-db row w

    at_files : w1.files ≡ w.files
    at_files = cancel-files row w

    by_file :
        (out : Result StoreError (Unit {0}) × List String)
        → IsSound w1.db out.1
        → Kept w (after_delete env row w1 out).1
    by_file (err e, files) s' = (s', λ Q h. subst (λ (d : Db). All Q d.recordings) (sym at_db) h)
    by_file (ok _, files) s' =
        let w2 : World = record w1 { files = files } in
        let out = purge_recording env row.recording_id w2.db in
        let to_db = log_deleted-db env row w2 out in
        let to_files = after_purge-ok env row w2 out in
        (
          rw (to_db, to_files) (purge-IsSound env row.recording_id w2.db files s'),
          λ Q h. rw to_db (
              purge-All Q env row.recording_id w2.db
                (subst (λ (d : Db). All Q d.recordings) (sym at_db) h)),
        )

deleting_of-path :
    (env : Env) (db : Db) (r : RecordingRow) → (deleting_of env db r).storage_path ≡ r.storage_path
unfolding deleting_of
deleting_of-path env db r = elim (Option-cases (env.fails select_task)) [
  | inr (e, broken) ↦ rw (broken, deleting_of) refl
  | inl ran ↦ elim (Option-cases (find? (is_task_of r) db.tasks)) [
    | inl missing ↦ rw (ran, missing, deleting_of) refl
    | inr (t, there) ↦ rw (ran, there, deleting_of) refl
  ]
]

-- The rows of the two queries name files that are unneeded.
abbrev Row : Db → DeletingCleanup → Type 0
Row db row = IsUnneeded row.storage_path db.recordings

deleting_of-Row :
    (env : Env) (db : Db) (r : RecordingRow)
    → IsUnneeded r.storage_path db.recordings
    → Row db (deleting_of env db r)
deleting_of-Row env db r u =
    subst (λ p. IsUnneeded p db.recordings) (sym (deleting_of-path env db r)) u

abbrev Found : Db → Result TxError (Option DeletingCleanup) → Type 0
Found db (err e) = Unit
Found db (ok none) = Unit
Found db (ok (some row)) = Row db row

get_deleting-Found :
    (env : Env) (id : String) (db : Db)
    → Freed db.recordings db.recordings
    → Found db (get_deleting env id db)
unfolding get_deleting
get_deleting-Found env id db f = elim (Option-cases (env.fails select_recording)) [
  | inr (e, broken) ↦ rw broken tt
  | inl ran ↦ elim (Option-cases (find? (is_deleting id) db.recordings)) [
    | inl absent ↦ rw (ran, absent) tt
    | inr (r, there) ↦
        let marked : is_some r.deleting_at ≡ true =
          let passed = find?-passes (is_deleting id) db.recordings r there in ground arith in
        let u = All-find? _ (is_deleting id) db.recordings r f there marked in
        rw (ran, there) (deleting_of-Row env db r u)
  ]
]

abbrev Listed : Db → Result TxError (List DeletingCleanup) → Type 0
Listed db (err e) = Unit
Listed db (ok rows) = All (Row db) rows

rows-Row :
    (env : Env) (db : Db) (rs : List RecordingRow)
    → All (λ (r : RecordingRow). IsUnneeded r.storage_path db.recordings) rs
    → All (Row db) (map (deleting_of env db) rs)
rows-Row env db [] h = tt
rows-Row env db (r ∷ rs) h = (deleting_of-Row env db r h.0, rows-Row env db rs h.1)

marked-Row :
    (rs ys : List RecordingRow)
    → All
        (λ (r : RecordingRow).
          (is_some r.deleting_at ≡ true → IsUnneeded r.storage_path rs)
          × (is_some r.deleting_at ≡ true))
        ys
    → All (λ (r : RecordingRow). IsUnneeded r.storage_path rs) ys
marked-Row rs [] h = tt
marked-Row rs (y ∷ ys) h = (h.0.0 h.0.1, marked-Row rs ys h.1)

list_deleting-Listed :
    (env : Env) (db : Db) → Freed db.recordings db.recordings → Listed db (list_deleting env db)
unfolding list_deleting
list_deleting-Listed env db f = elim (Option-cases (env.fails select_recording)) [
  | inr (e, broken) ↦ rw broken tt
  | inl ran ↦ rw ran (
      rows-Row env db _ (
        All-order_by _ (oldest_mark_before env) _ (
          marked-Row db.recordings _
            (All-keep _ (λ (r : RecordingRow). is_some r.deleting_at) db.recordings f))))
]

pub IsSound-delete_recording :
    (envs : ℕ → Env) (disk : Disk) (id : String) (w : World)
    → IsSound w.db w.files
    → IsSound (delete envs disk id w).1.db (delete envs disk id w).1.files
unfolding delete
IsSound-delete_recording envs disk id w s =
    by_mark (mark_deleting (envs 0) id w.db) (mark_deleting-IsSound (envs 0) id w.db w.files s)
  where
    by_query :
        (v : World) (row : Result TxError (Option DeletingCleanup))
        → Found v.db row
        → IsSound v.db v.files
        → IsSound (after_query (envs 2) disk v row).1.db (after_query (envs 2) disk v row).1.files
    by_query v (err e) f s' = s'
    by_query v (ok none) f s' = s'
    by_query v (ok (some row)) f s' = (finalize-Kept (envs 2) disk row v f s').0

    by_mark :
        (out : Result TxError (String × Bool) × Db)
        → IsSound out.1 w.files
        → IsSound (after_mark envs disk id w out).1.db (after_mark envs disk id w out).1.files
    by_mark (err e, db) s' = s'
    by_mark (ok (task_id, false), db) s' = s'
    by_mark (ok (task_id, true), db) s' =
        by_query (record w { db = db }) (get_deleting (envs 1) id db)
          (get_deleting-Found (envs 1) id db (Apart-Freed db.recordings s'.apart)) s'

rows-still :
    (w v : World) (rows : List DeletingCleanup)
    → ((Q : RecordingRow → Type 0) → All Q w.db.recordings → All Q v.db.recordings)
    → All (Row w.db) rows
    → All (Row v.db) rows
rows-still w v [] k h = tt
rows-still w v (row ∷ rows) k h = (k _ h.0, rows-still w v rows k h.1)

pub IsSound-cleanup_pending :
    (envs : ℕ → Env) (disks : ℕ → Disk) (w : World)
    → IsSound w.db w.files
    → IsSound (cleanup_pending envs disks w).db (cleanup_pending envs disks w).files
unfolding cleanup_pending finalize_all
IsSound-cleanup_pending envs disks w s =
    by_scan (list_deleting (envs 0) w.db)
      (list_deleting-Listed (envs 0) w.db (Apart-Freed w.db.recordings s.apart))
  where
    by_rows :
        (i : ℕ) (rows : List DeletingCleanup) (v : World)
        → All (Row v.db) rows
        → IsSound v.db v.files
        → IsSound (finalize_all envs disks i rows v).db (finalize_all envs disks i rows v).files
    by_rows i [] v h s' = s'
    by_rows i (row ∷ rows) v h s' =
        let next : World = (finalize (envs i) (disks i) row v).1 in
        let k = finalize-Kept (envs i) (disks i) row v h.0 s' in
        by_rows (suc i) rows next (rows-still v next rows k.1 h.1) k.0

    by_scan :
        (rows : Result TxError (List DeletingCleanup))
        → Listed w.db rows
        → IsSound (after_scan envs disks rows w).db (after_scan envs disks rows w).files
    by_scan (err e) h = s
    by_scan (ok rows) h = by_rows 1 rows w h s
