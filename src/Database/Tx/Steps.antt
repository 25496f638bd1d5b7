-- ===== src/Database/Tx/Steps.antt =====
-- What a transaction leaves behind.
use recording.Prelude.{
  ◌≡◌, refl, ap, ◌∙◌, ◌⊎◌, ◌≢◌, ◌∷◌, arith, Option-cases, inl, inr, Result, ok, err,
}
use recording.Domain.Event.{TaskEvent}
use recording.Database.Rows.{Db, to_task_event_po}
use recording.Database.Tx.{
  Env, CommitReply, acknowledged, lost_kept, lost_dropped, Progress, stop, go, Tx, ◌>>=◌,
  insert_event_row, transact, begin_tx, finish,
}
use recording.Ports.{TxError, commit_unknown}

-- A sequence goes on where both of its parts do.
bound-go :
    {R A B : Type 0} (f : A → Tx R B) (first : Progress R A) (b : B) (d : Db)
    → elim first as (λ _. Progress R B) [ stop r ↦ stop r | go a db' ↦ f a db' ] ≡ go b d
    → (a : A) × (d0 : Db) × (first ≡ go a d0) × (f a d0 ≡ go b d)
bound-go f (stop r) b d h = cc
bound-go f (go a d0) b d h = (a, d0, refl, h)

pub bind-go :
    {R A B : Type 0} (m : Tx R A) (f : A → Tx R B) (db : Db) (b : B) (d : Db)
    → (m >>= f) db ≡ go b d
    → (a : A) × (d0 : Db) × (m db ≡ go a d0) × (f a d0 ≡ go b d)
bind-go m f db b d h = bound-go f (m db) b d h

bound-stop :
    {R A B : Type 0} (f : A → Tx R B) (first : Progress R A) (r : Result TxError R)
    → elim first as (λ _. Progress R B) [ stop q ↦ stop q | go a db' ↦ f a db' ] ≡ stop r
    → (first ≡ stop r) ⊎ ((a : A) × (d0 : Db) × (first ≡ go a d0) × (f a d0 ≡ stop r))
bound-stop f (stop q) r h = inl (cc h)
bound-stop f (go a d0) r h = inr (a, d0, refl, h)

-- A sequence stops where one of its parts does.
pub bind-stop :
    {R A B : Type 0} (m : Tx R A) (f : A → Tx R B) (db : Db) (r : Result TxError R)
    → (m >>= f) db ≡ stop r
    → (m db ≡ stop r) ⊎ ((a : A) × (d0 : Db) × (m db ≡ go a d0) × (f a d0 ≡ stop r))
bind-stop m f db r h = bound-stop f (m db) r h

pub insert_event_row-not_ok :
    {R : Type 0} (env : Env) (e : TaskEvent) (db : Db) (a : R)
    → insert_event_row {R = R} env e db ≢ stop (ok a)
insert_event_row-not_ok env e db a h = ground arith

pub insert_event_row-go :
    {R : Type 0} (env : Env) (e : TaskEvent) (db d : Db)
    → insert_event_row {R = R} env e db ≡ go tt d
    → d ≡ record db { events = to_task_event_po e ∷ db.events }
insert_event_row-go env e db d h = ground arith

-- The end of a body decides: a stop leaves the database, a commit leaves it or what was written.
pub finish-keeps {κ} :
    {R : Type 0} (P : Db → Type κ) (c : CommitReply) (db : Db) (end : Progress R R)
    → P db
    → ((a : R) (d : Db) → end ≡ go a d → P d)
    → P (finish c db end).1
finish-keeps P c db (stop r) start keep = start
finish-keeps P acknowledged db (go a d) start keep = keep a d refl
finish-keeps P lost_kept db (go a d) start keep = keep a d refl
finish-keeps P lost_dropped db (go a d) start keep = start

-- A property of the database that every commit of the body has, the transaction keeps.
pub transact-keeps {κ} :
    {R : Type 0} (P : Db → Type κ) (env : Env) (body : Tx R R) (db : Db)
    → P db
    → ((a : R) (d : Db) → body db ≡ go a d → P d)
    → P (transact env body db).1
unfolding transact
transact-keeps P env body db start keep = elim (Option-cases (env.fails begin_tx)) [
  | inl begun ↦ rw (begun, transact) (finish-keeps P env.commit_reply db (body db) start keep)
  | inr (e, refused) ↦ rw (refused, transact) start
]

-- What a transaction can have done: nothing, and then a success was returned by the body itself
-- behind a rollback, or all that the body wrote up to its commit.
pub data Outcome {R : Type 0} (env : Env) (body : Tx R R) (db : Db) (out : Result TxError R × Db)
    : Type 0 where
  undone : out.1 ≡ db → ((a : R) → out.0 ≡ ok a → body db ≡ stop (ok a)) → Outcome env body db out
  done :
      (a : R) (d : Db)
      → body db ≡ go a d
      → out.1 ≡ d
      → (out.0 ≡ ok a) ⊎ (out.0 ≡ err commit_unknown)
      → Outcome env body db out

finish-Outcome :
    {R : Type 0} (env : Env) (body : Tx R R) (db : Db) (c : CommitReply) (end : Progress R R)
    → body db ≡ end
    → Outcome env body db (finish c db end)
finish-Outcome env body db c (stop r) e = Outcome.undone refl (λ a h. e ∙ ap stop h)
finish-Outcome env body db acknowledged (go a d) e = Outcome.done a d e refl (inl refl)
finish-Outcome env body db lost_kept (go a d) e = Outcome.done a d e refl (inr refl)
finish-Outcome env body db lost_dropped (go a d) e = Outcome.undone refl (λ a' h. cc)

pub transact-Outcome :
    {R : Type 0} (env : Env) (body : Tx R R) (db : Db) → Outcome env body db (transact env body db)
unfolding transact
transact-Outcome env body db = elim (Option-cases (env.fails begin_tx)) [
  | inl begun ↦ rw (begun, transact) (finish-Outcome env body db env.commit_reply (body db) refl)
  | inr (e, refused) ↦ rw (refused, transact) (Outcome.undone refl (λ a h. cc))
]
