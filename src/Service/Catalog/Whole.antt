-- ===== src/Service/Catalog/Whole.antt =====
-- On a catalog that is in order nothing is reported as inconsistent.
use recording.Prelude.{
  some, Option, String, ◌≡◌, ◌≢◌, ◌⊎◌, inl, inr, refl, ℕ, zero, suc, Bool, true, false, List, [],
  ◌∷◌, any, All, none, keep, find?, length, take, drop, ok, err, arith, Bool-cases, Option-cases,
  ap, ◌∙◌,
}
use recording.Database.Table.Laws.{All-keep, All-order_by}
use recording.Database.Rows.{RecordingRow, TaskRow, Db}
use recording.Database.Tx.{
  Env, inspect_tasks, inspect_recordings, select_recording, select_task, count_recordings,
}
use recording.Ports.{
  DriverError, driver_failed, RecordingList, RecordingListItem, recording_not_found,
}
use recording.Query.Laws.{Shown, none_left, shown}
use recording.ProcessingTx.Integrity.{orphans, missing, inspect_integrity}
use recording.Domain.Status.{
  TaskStatus, pending, transcribing, summarizing, done, failed, is_status,
}
use recording.Domain.Summary.{Summary}
use recording.Domain.Summary.Parse.Laws.{parse_summary-marshal}
use recording.Database.Log.Unique.{All-find?}
use recording.Query.{
  is_visible, detail, detail_of, of_json, parsed, summary_from_po, get_recording, is_task_of, item,
  newest_before, listed, page_of, items_of, page_items, list_recordings,
}
use recording.Service.Catalog.{IsCatalog, Readable, owned}

keep-nothing {ℓ} :
    {A : Type ℓ} (p : A → Bool) (xs : List A) → All (λ x. p x ≡ false) xs → keep p xs ≡ []
keep-nothing p [] h = refl
keep-nothing p (x ∷ xs) h = rw h.0 (keep-nothing p xs h.1)

All-weaken {ℓ} :
    {A : Type ℓ} (P Q : A → Type 0) (xs : List A) → ((x : A) → P x → Q x) → All P xs → All Q xs
All-weaken P Q [] k h = tt
All-weaken P Q (x ∷ xs) k h = (k x h.0, All-weaken P Q xs k h.1)

All-take {ℓ} : {A : Type ℓ} (P : A → Type 0) (n : ℕ) (xs : List A) → All P xs → All P (take n xs)
All-take P zero xs h = tt
All-take P (suc n) [] h = tt
All-take P (suc n) (x ∷ xs) h = (h.0, All-take P n xs h.1)

All-drop {ℓ} : {A : Type ℓ} (P : A → Type 0) (n : ℕ) (xs : List A) → All P xs → All P (drop n xs)
All-drop P zero xs h = h
All-drop P (suc n) [] h = tt
All-drop P (suc n) (x ∷ xs) h = All-drop P n xs h.1

find?-any {ℓ} : {A : Type ℓ} (p : A → Bool) (xs : List A) → any p xs ≡ true → find? p xs ≢ none
find?-any p [] h e = cc
find?-any p (x ∷ xs) h e = elim (Bool-cases (p x)) [
  | inl hit ↦ cc (rw hit at e)
  | inr miss ↦ find?-any p xs (rw miss at h) (rw miss at e)
]

abbrev Paired : List TaskRow → RecordingRow → Type 0
Paired ts r = owned r.id ts ≡ true

-- With a task for every recording the loop over a page gets through.
items_of-Shown :
    (ts : List TaskRow) (rs : List RecordingRow)
    → All (Paired ts) rs
    → (items : List RecordingListItem) × (items_of ts rs ≡ ok items) × Shown ts rs items
unfolding items_of
items_of-Shown ts [] h = ([], refl, none_left)
items_of-Shown ts (r ∷ rs) h = elim (Option-cases (find? (is_task_of r) ts)) [
  | inl absent ↦ absurd (find?-any (is_task_of r) ts h.0 absent)
  | inr (t, there) ↦
      let (items, got, show) = items_of-Shown ts rs h.1 in
      (item r t ∷ items, rw (there, got) refl, shown t there show)
]

-- A list of the recordings: the page, in full, or an error of the server.
abbrev pub Paged : Env → ℕ → ℕ → Db → Type 0
Paged env page page_size db =
    ((e : DriverError) × (list_recordings env page page_size db ≡ err (driver_failed e)))
    ⊎ ((l : RecordingList) × (list_recordings env page page_size db ≡ ok l)
        × Shown db.tasks (page_of env db page page_size) l.items)

-- An inspection: nothing found, or an error of the server.
abbrev pub Inspected : Env → Db → Type 0
Inspected env db =
    (inspect_integrity env db ≡ ok tt)
    ⊎ ((e : DriverError) × (inspect_integrity env db ≡ err (driver_failed e)))

page_items-Shown :
    (env : Env) (ts : List TaskRow) (rs : List RecordingRow)
    → All (Paired ts) rs
    → ((e : DriverError) × (page_items env ts rs ≡ err (driver_failed e)))
      ⊎ ((items : List RecordingListItem) × (page_items env ts rs ≡ ok items) × Shown ts rs items)
page_items-Shown env ts [] h = inr ([], refl, none_left)
page_items-Shown env ts (r ∷ rs) h = elim (Option-cases (env.fails select_task)) [
  | inr (e, broken) ↦ inl (e, rw broken refl)
  | inl ran ↦ let (items, got, show) = items_of-Shown ts (r ∷ rs) h in inr (items, rw ran got, show)
]

pub list_recordings-Paged :
    (env : Env) (page page_size : ℕ) (db : Db)
    → IsCatalog db.recordings db.tasks
    → Paged env page page_size db
unfolding list_recordings
list_recordings-Paged env page page_size db c = elim (Option-cases (env.fails count_recordings)) [
  | inr (e, broken) ↦ inl (e, rw broken refl)
  | inl counted ↦ elim (Option-cases (env.fails select_recording)) [
    | inr (e, broken) ↦ inl (e, rw (counted, broken) refl)
    | inl ran ↦ elim (page_items-Shown env db.tasks (page_of env db page page_size) paired) [
      | inl (e, broken) ↦ inl (e, rw (counted, ran, broken) refl)
      | inr (items, got, show) ↦ inr (
        record { items = items; page = page; page_size = page_size; total = length (listed db) },
        rw (counted, ran, got) refl,
        show,
      )
    ]
  ]
]
  where
    shown_paired : All (Paired db.tasks) (listed db)
    shown_paired =
        All-weaken _ _ (listed db) (λ r h. h.0)
          (All-keep (Paired db.tasks) _ db.recordings c.paired)

    paired : All (Paired db.tasks) (page_of env db page page_size)
    paired =
        All-take _ page_size _
          (All-drop _ _ _ (All-order_by _ (newest_before env) (listed db) shown_paired))

pub inspect_integrity-Inspected :
    (env : Env) (db : Db) → IsCatalog db.recordings db.tasks → Inspected env db
unfolding inspect_integrity
inspect_integrity-Inspected env db c = elim (Option-cases (env.fails inspect_tasks)) [
  | inr (e, broken) ↦ inr (e, rw broken refl)
  | inl first ↦ elim (Option-cases (env.fails inspect_recordings)) [
    | inr (e, broken) ↦ inr (e, rw (first, broken) refl)
    | inl second ↦ inl (rw (first, second, no_orphans, no_missing) refl)
  ]
]
  where
    no_orphans : orphans db ≡ []
    no_orphans =
        keep-nothing _ db.tasks (All-weaken _ _ db.tasks (λ t h. ground (arith, h)) c.hosted)

    no_missing : missing db ≡ []
    no_missing =
        keep-nothing _ db.recordings
          (All-weaken _ _ db.recordings (λ r h. ground (arith, h)) c.paired)

-- A recording's page: an error of the server, nothing where no recording that is shown has the id, or
-- the recording with its task.
abbrev pub Viewed : Env → String → Db → Type 0
Viewed env id db =
    ((e : DriverError) × (get_recording env id db ≡ err (driver_failed e)))
    ⊎ (((find? (is_visible id) db.recordings ≡ none)
          × (get_recording env id db ≡ err recording_not_found))
        ⊎ ((r : RecordingRow) × (t : TaskRow) × (result : Option Summary) × (find? (is_visible id)
                db.recordings
              ≡ some r)
            × (find? (is_task_of r) db.tasks ≡ some t)
            × (get_recording env id db ≡ ok (detail r t result))))

summary_from_po-Readable :
    (t : TaskRow)
    → Readable t
    → t.status ≡ done
    → (result : Option Summary) × (summary_from_po t ≡ ok result)
unfolding summary_from_po
summary_from_po-Readable t h finished =
    let (s, stored, v) = h finished in
    (some s, ap of_json stored ∙ ap parsed (parse_summary-marshal s v))

is_done : (s : TaskStatus) → is_status s done ≡ true → s ≡ done
is_done pending h = cc
is_done transcribing h = cc
is_done summarizing h = cc
is_done done h = refl
is_done failed h = cc

with_result-Readable :
    (r : RecordingRow) (t : TaskRow)
    → Readable t
    → (result : Option Summary) × (detail_of r (some t) ≡ ok (detail r t result))
with_result-Readable r t h = elim (Bool-cases (is_status t.status done)) [
  | inr other ↦ (none, rw other refl)
  | inl finished ↦
      let (result, got) = summary_from_po-Readable t h (is_done t.status finished) in
      (result, rw (finished, got) refl)
]

pub get_recording-Viewed :
    (env : Env) (id : String) (db : Db) → IsCatalog db.recordings db.tasks → Viewed env id db
unfolding get_recording
get_recording-Viewed env id db c = elim (Option-cases (env.fails select_recording)) [
  | inr (e, broken) ↦ inl (e, rw broken refl)
  | inl first ↦ elim (Option-cases (find? (is_visible id) db.recordings)) [
    | inl absent ↦ inr (inl (absent, rw (first, absent) refl))
    | inr (r, there) ↦ elim (Option-cases (env.fails select_task)) [
      | inr (e, broken) ↦ inl (e, rw (first, there, broken) refl)
      | inl second ↦ elim (Option-cases (find? (is_task_of r) db.tasks)) [
        | inl missing_task ↦ absurd (
            find?-any (is_task_of r) db.tasks
              (All-find? (Paired db.tasks) (is_visible id) db.recordings r c.paired there)
              missing_task)
        | inr (t, joined) ↦
            let (result, got) =
              with_result-Readable r t
                (All-find? Readable (is_task_of r) db.tasks t c.readable joined) in
            inr (inr (r, t, result, there, joined, rw (first, there, second, joined) got))
      ]
    ]
  ]
]
