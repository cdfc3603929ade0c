-- ===== src/Queue/Integrity/Kept.antt =====
-- A property of the tables that a transaction keeps, and the two ways the queue updates a delivery.
use rustymail.Base.{
  ◌≡◌, refl, sym, subst, ◌∙◌, Bool, true, false, Option, none, some, arith, if◌then◌else◌, All,
}
use rustymail.Bytes.{Bytes, equal_iff}
use rustymail.Queue.Rows.{
  Delivery, Db, Store, Result, ok, err, ok_or, ◌>>=◌, StoreError, Commit, done, refused,
  unacknowledged,
}
use rustymail.Queue.Table.{update, has_id, set_delivery, delete_lease, transact}
use rustymail.Queue.Integrity.{Joins, joins, joins_of, mismatch, unleased, IsSound, IsSoundRow}
use rustymail.Queue.Integrity.Select.{
  All-update, update-Keyed, find-select-other, find-select-same, All-both,
}

-- The tables of a result have the property.
abbrev pub Kept {ℓ} : {A : Type ℓ} → (Db → Type 0) → Result (Db × A) → Type 0
Kept P (err e) = Unit
Kept P (ok (db, a)) = P db

pub Kept-bind {ℓ κ} :
    {A : Type ℓ} {B : Type κ} (P : Db → Type 0) (r : Result A) (f : A → Result (Db × B))
    → ((a : A) → r ≡ ok a → Kept P (f a))
    → Kept P (r >>= f)
Kept-bind P (err e) f k = tt
Kept-bind P (ok a) f k = k a refl

pub Kept-guard {ℓ} :
    {A : Type ℓ} (P : Db → Type 0) (b : Bool) (e : StoreError) (r : Result (Db × A))
    → (b ≡ false → Kept P r)
    → Kept P (if b then err e else r)
Kept-guard P true e r k = tt
Kept-guard P false e r k = k refl

pub Kept-transact {ℓ} :
    {A : Type ℓ} (P : Db → Type 0) (s : Store) (c : Commit) (r : Result (Db × A))
    → P s.db
    → Kept P r
    → P (transact s c r).0.db
unfolding transact
Kept-transact P s c (err e) p k = p
Kept-transact P s done (ok (db, a)) p k = k
Kept-transact P s refused (ok (db, a)) p k = p
Kept-transact P s unacknowledged (ok (db, a)) p k = k

pub ok_or-eq {ℓ} :
    {A : Type ℓ} (o : Option A) (e : StoreError) (a : A) → ok_or o e ≡ ok a → o ≡ some a
ok_or-eq none e a h = ground arith
ok_or-eq (some b) e a h = ground arith

-- The update leaves what other tables name a delivery by.
abbrev pub SameKeys : (Delivery → Delivery) → Delivery → Type 0
SameKeys f d = ((f d).id ≡ d.id) × ((f d).message_id ≡ d.message_id)

pub joins-keys :
    (db : Db) (f : Delivery → Delivery) (d : Delivery) → SameKeys f d → joins db (f d) ≡ joins db d
joins-keys db f d (same_id, same_message) = λ i. joins_of db (same_id i) (same_message i)

-- An UPDATE of the deliveries whose rows stay free of mismatches.
pub update-IsSound :
    (C : Delivery → Type 0) (p : Delivery → Bool) (f : Delivery → Delivery) (db : Db)
    → ((d : Delivery) → SameKeys f d)
    → ((d : Delivery) (b : Joins)
        → p d ≡ true
        → C d
        → mismatch b d ≡ false
        → mismatch b (f d) ≡ false)
    → All C db.deliveries
    → IsSound db
    → IsSound (record db { deliveries = update p f db.deliveries })
unfolding IsSound
update-IsSound C p f db keep step c s = (
  update-Keyed p f db.deliveries (λ d. (keep d).0) s.0,
  All-update (λ d. C d × IsSoundRow db d) (IsSoundRow db) p f db.deliveries (λ d _ h. h.1)
      (λ d e h.
        subst (λ (j : Joins). mismatch j (f d) ≡ false) (sym (joins-keys db f d (keep d)))
          (step d (joins db d) e h.0 h.1))
      (All-both C (IsSoundRow db) db.deliveries c s.1),
)

kept_row :
    (id : Bytes) (db : Db) (d : Delivery)
    → has_id id d ≡ false
    → IsSoundRow db d
    → IsSoundRow (delete_lease id db) d
kept_row id db d ne h = rw (find-select-other d.id id db.leases ne) h

released_row :
    (id : Bytes) (db : Db) (f : Delivery → Delivery) (d : Delivery)
    → SameKeys f d
    → has_id id d ≡ true
    → mismatch (unleased (joins db d)) (f d) ≡ false
    → IsSoundRow (delete_lease id db) (f d)
released_row id db f d keep e h =
    let same : d.id ≡ id = (equal_iff d.id id).0 e in
    let gone : joins (delete_lease id db) d ≡ unleased (joins db d) =
      simp (same, find-select-same id db.leases) refl in
    subst (λ (j : Joins). mismatch j (f d) ≡ false)
      (sym (joins-keys (delete_lease id db) f d keep ∙ gone)) h

-- An UPDATE of one delivery that gives up its lease.
pub release-IsSound :
    (C : Delivery → Type 0) (id : Bytes) (f : Delivery → Delivery) (db : Db)
    → ((d : Delivery) → SameKeys f d)
    → ((d : Delivery) (j : Joins)
        → C d
        → mismatch j d ≡ false
        → mismatch (unleased j) (f d) ≡ false)
    → All (λ d. has_id id d ≡ true → C d) db.deliveries
    → IsSound db
    → IsSound (delete_lease id (set_delivery id f db))
unfolding IsSound
release-IsSound C id f db keep step c s = (
  update-Keyed (has_id id) f db.deliveries (λ d. (keep d).0) s.0,
  All-update (λ d. (has_id id d ≡ true → C d) × IsSoundRow db d) (IsSoundRow (delete_lease id db))
      (has_id id) f db.deliveries (λ d ne h. kept_row id db d ne h.1)
      (λ d e h. released_row id db f d (keep d) e (step d (joins db d) (h.0 e) h.1))
      (All-both (λ d. has_id id d ≡ true → C d) (IsSoundRow db) db.deliveries c s.1),
)
