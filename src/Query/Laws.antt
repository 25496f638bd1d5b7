-- ===== src/Query/Laws.antt =====
-- What the queries of query.go show.
use recording.Ports.{
  driver_failed, DriverError, task_not_found, TaskError, TaskView, RecordingListItem,
  data_inconsistent,
}
use recording.Prelude.{
  ltb, Bool-cases, ◌<◌, ℕ, zero, suc, ◌+◌, ◌-◌, ◌*◌, ◌≤◌, ◌≡◌, ◌⊎◌, inl, inr, refl, sym, ap, subst,
  ◌∙◌, String, List, [], ◌∷◌, ◌++◌, none, some, find?, length, take, drop, length-take_le,
  take-append-drop, Option-cases, Result, ok, err, arith,
}
use recording.Domain.Summary.{Summary}
use recording.Database.Rows.{RecordingRow, TaskRow, Db}
use recording.Database.Table.{order_by}
use recording.Database.Tx.{Env, Stmt, has_recording_id, select_task, select_recording}
use recording.Database.Log.{find_task}
use recording.Query.{
  task_view, get_task, is_task_of, listed, newest_before, page_of, non_negative, item, items_of,
}

ok-injective : {E A : Type 0} (a b : A) → Path (Result E A) (ok a) (ok b) → a ≡ b
ok-injective a b h = cc

-- The view shows the columns of the row, and its error where the row has a code.
pub record Shows (v : TaskView) (t : TaskRow) : Type 0 where
  pub id : v.id ≡ t.id
  pub recording_id : v.recording_id ≡ t.recording_id
  pub status : v.status ≡ t.status
  pub attempt : v.attempt ≡ t.attempt
  pub created_at : v.created_at ≡ t.created_at
  pub started_at : v.started_at ≡ t.started_at
  pub finished_at : v.finished_at ≡ t.finished_at
  pub next_retry_at : v.next_retry_at ≡ t.next_retry_at
  pub error :
      ((t.error_code ≡ none) × (v.error ≡ none))
      ⊎ ((code : ℕ) × (x : TaskError) × (t.error_code ≡ some code)
          × (v.error ≡ some x)
          × (x.code ≡ code)
          × (x.message ≡ t.error_message))

-- The task is there, and its recording is there and not being deleted.
pub record Reads (task_id : String) (db : Db) (t : TaskRow) (r : RecordingRow) : Type 0 where
  pub task : find_task task_id db.tasks ≡ some t
  pub recording : find? (has_recording_id t.recording_id) db.recordings ≡ some r
  pub visible : r.deleting_at ≡ none

task_view-Shows : (t : TaskRow) → Shows (task_view t) t
unfolding task_view
task_view-Shows t = record {
  id = refl;
  recording_id = refl;
  status = refl;
  attempt = refl;
  created_at = refl;
  started_at = refl;
  finished_at = refl;
  next_retry_at = refl;
  error = elim (Option-cases t.error_code) [
    | inl clean ↦ inl (clean, rw clean refl)
    | inr (code, there) ↦
        inr (
          code,
          record { code = code; message = t.error_message },
          there,
          rw there refl,
          refl,
          refl,
        )
  ];
}

shown_or_not :
    (env : Env) (task_id : String) (db : Db)
    → env.fails select_task ≡ none
    → (t : TaskRow) → find_task task_id db.tasks ≡ some t
    → env.fails select_recording ≡ none
    → ((v : TaskView) × (u : TaskRow) × (r : RecordingRow) × (get_task env task_id db ≡ ok v)
        × Reads task_id db u r
        × Shows v u)
      ⊎ ((get_task env task_id db ≡ err task_not_found)
          × ((u : TaskRow) (r : RecordingRow) → Reads task_id db u r → ⊥))
      ⊎ ((q : Stmt) × (e : DriverError) × (env.fails q ≡ some e)
          × (get_task env task_id db ≡ err (driver_failed e)))
unfolding get_task
shown_or_not env task_id db ran t there ran_too =
    elim (Option-cases (find? (has_recording_id t.recording_id) db.recordings)) [
      | inl absent ↦ inr (
          inl (rw (ran, there, ran_too, absent) refl, λ u r x. ground (arith, x.task, x.recording)))
      | inr (r, stands) ↦ elim (Option-cases r.deleting_at) [
        | inl visible ↦ inl (
          task_view t,
          t,
          r,
          rw (ran, there, ran_too, stands, visible) refl,
          record { task = there; recording = stands; visible = visible },
          task_view-Shows t,
        )
        | inr (at, deleting) ↦ inr (
            inl (
              rw (ran, there, ran_too, stands, deleting) refl,
              λ u x_r x. ground (arith, x.task, x.recording, x.visible),
            ))
      ]
    ]

-- `GetTask` answers a view, and then the task is there, its recording is there and not being
-- deleted, and the view shows the row; or the task is not found, and then there is no such pair; or
-- one of its two queries has failed.
pub get_task_lem :
    (env : Env) (task_id : String) (db : Db)
    → ((v : TaskView) × (t : TaskRow) × (r : RecordingRow) × (get_task env task_id db ≡ ok v)
        × Reads task_id db t r
        × Shows v t)
      ⊎ ((get_task env task_id db ≡ err task_not_found)
          × ((t : TaskRow) (r : RecordingRow) → Reads task_id db t r → ⊥))
      ⊎ ((q : Stmt) × (e : DriverError) × (env.fails q ≡ some e)
          × (get_task env task_id db ≡ err (driver_failed e)))
unfolding get_task
get_task_lem env task_id db = elim (Option-cases (env.fails select_task)) [
  | inr (e, broken) ↦ inr (inr (select_task, e, broken, rw broken refl))
  | inl ran ↦ elim (Option-cases (find_task task_id db.tasks)) [
    | inl absent ↦ inr (inl (rw (ran, absent) refl, λ t r x. cc (absent, x.task)))
    | inr (t, there) ↦ elim (Option-cases (env.fails select_recording)) [
      | inr (e, broken) ↦ inr (inr (select_recording, e, broken, rw (ran, there, broken) refl))
      | inl ran_too ↦ shown_or_not env task_id db ran t there ran_too
    ]
  ]
]

drop_nil : {A : Type 0} (n : ℕ) → drop {A = A} n [] ≡ []
drop_nil zero = refl
drop_nil (suc n) = refl

drop-drop : {A : Type 0} (m n : ℕ) (xs : List A) → drop m (drop n xs) ≡ drop (n + m) xs
drop-drop m zero xs = ap (λ k. drop k xs) (omega arith)
drop-drop m (suc n) [] = drop_nil m ∙ sym (drop_nil (suc n + m))
drop-drop m (suc n) (x ∷ xs) = drop-drop m n xs ∙ ap (λ k. drop k (x ∷ xs)) (shift n m)
  where
    shift : (n m : ℕ) → suc (n + m) ≡ suc n + m
    shift n m = omega arith

-- The visible recordings from page `p + 1` on.
abbrev pub rest_from : Env → Db → ℕ → ℕ → List RecordingRow
rest_from env db page_size p = drop (p * page_size) (order_by (newest_before env) (listed db))

abbrev Tiles : Env → Db → ℕ → ℕ → Type 0
Tiles env db page_size p =
    rest_from env db page_size p
    ≡ page_of env db (p + 1) page_size ++ rest_from env db page_size (p + 1)

page_of-Tiles :
    (env : Env) (db : Db) (p page_size : ℕ)
    → non_negative ((p + 1 - 1) * page_size) ≡ p * page_size
    → Tiles env db page_size p
page_of-Tiles env db p page_size here =
    let next : p * page_size + page_size ≡ (p + 1) * page_size = grind arith in
    let all = order_by (newest_before env) (listed db) in
    subst
      (λ k.
        drop (p * page_size) all ≡ take page_size (drop k all) ++ drop ((p + 1) * page_size) all)
      (sym here)
      (subst (λ k. drop (p * page_size) all ≡ take page_size (drop (p * page_size) all) ++ k)
        (drop-drop page_size (p * page_size) all ∙ ap (λ k. drop k all) next)
        (sym (take-append-drop page_size (drop (p * page_size) all))))

non_negative-small : (n : ℕ) → n < 9223372036854775808 → non_negative n ≡ n
non_negative-small n h = ground arith

non_negative-wrapped :
    (n : ℕ) → 9223372036854775808 ≤ n → n < 18446744073709551616 → non_negative n ≡ 0
non_negative-wrapped n l h = ground arith

-- A page has at most `page_size` recordings. While the offset is below 2^63, the pages tile the
-- ordered list of visible recordings: what is left before page `p + 1` is that page and what is left
-- after it. From there up to 2^64, page `p + 1` is the first page again.
pub page_of_lem :
    (env : Env) (db : Db) (p page_size : ℕ)
    → p * page_size < 18446744073709551616
    → (length (page_of env db (p + 1) page_size) ≤ page_size)
      × ((p * page_size < 9223372036854775808) × Tiles env db page_size p
          ⊎ (9223372036854775808 ≤ p * page_size)
            × (page_of env db (p + 1) page_size ≡ page_of env db 1 page_size))
page_of_lem env db p page_size h =
    let first : non_negative (0 * page_size) ≡ 0 =
      non_negative-small (0 * page_size) (omega arith) ∙ omega arith in
    let same_offset : (p + 1 - 1) * page_size ≡ p * page_size =
      ap (λ k. k * page_size) (omega arith) in
    (
      length-take_le page_size _,
      elim (Bool-cases (ltb (p * page_size) 9223372036854775808)) [
        | inl small ↦
            let below : p * page_size < 9223372036854775808 = ground arith in
            inl (
              below,
              page_of-Tiles env db p page_size
                  (ap non_negative same_offset ∙ non_negative-small (p * page_size) below),
            )
        | inr big ↦
            let above : 9223372036854775808 ≤ p * page_size = ground arith in
            inr (
              above,
              ap (λ k. take page_size (drop k (order_by (newest_before env) (listed db))))
                  (ap non_negative same_offset
                    ∙ non_negative-wrapped (p * page_size) above h
                    ∙ sym first),
            )
      ],
    )

-- The items show the recordings in their order, each with its task.
pub data Shown (ts : List TaskRow) : List RecordingRow → List RecordingListItem → Type 0 where
  none_left : Shown ts [] []
  shown :
      {r : RecordingRow} {rs : List RecordingRow} {items : List RecordingListItem} (tk : TaskRow)
      → find? (is_task_of r) ts ≡ some tk
      → Shown ts rs items
      → Shown ts (r ∷ rs) (item r tk ∷ items)

-- A page is shown in full, with every recording's task, or the query fails: no recording is left
-- out because its task is missing.
pub items_of_lem :
    (ts : List TaskRow) (rs : List RecordingRow)
    → ((items : List RecordingListItem) × (items_of ts rs ≡ ok items) × Shown ts rs items)
      ⊎ (items_of ts rs ≡ err data_inconsistent)
unfolding items_of
items_of_lem ts [] = inl ([], refl, none_left)
items_of_lem ts (r ∷ rs) = elim (Option-cases (find? (is_task_of r) ts)) [
  | inl missing ↦ inr (rw missing refl)
  | inr (tk, there) ↦ elim (items_of_lem ts rs) [
    | inl (items, got, show) ↦ inl (item r tk ∷ items, rw (there, got) refl, shown tk there show)
    | inr broken ↦ inr (rw (there, broken) refl)
  ]
]
