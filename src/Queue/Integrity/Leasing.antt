-- ===== src/Queue/Integrity/Leasing.antt =====
-- The UPDATE of a claim, with the row of a lease that it inserts, keeps the tables free of mismatches.
use rustymail.Base.{
  ℕ, ◌≡◌, refl, sym, subst, ◌∙◌, inl, inr, true, false, ◌&&◌, List, [], ◌∷◌, arith, is_some, All,
  Bool-cases, length, any,
}
use rustymail.Bytes.{Bytes, equal, equal_iff}
use rustymail.Queue.Rows.{Delivery, LeaseRow, ready, Db, ok}
use rustymail.Queue.Table.{
  find, update, has_id, is_relay, is_waiting, find_lease, lease_of, set_delivery,
}
use rustymail.Queue.Claim.{insert_lease, lease_row, exhaust_row}
use rustymail.Queue.Integrity.{Joins, joins, mismatch, IsSound, IsSoundRow, Keyed}
use rustymail.Queue.Integrity.Select.{All-both, All-update, update-Keyed}
use rustymail.Queue.Integrity.Kept.{SameKeys, joins-keys}
use rustymail.Queue.Integrity.Batch.{Covers}

-- the rows that a claim may take
abbrev pub IsWaiting : Delivery → Type 0
IsWaiting d = (is_relay d.route && is_waiting d.state) ≡ true

-- with a row of its lease
abbrev pub leased_too : Joins → Joins
leased_too j = record j { has_lease = true }

pub lease_row_sound :
    (token : Bytes) (t : ℕ) (b : Joins) (d : Delivery)
    → length token ≡ 32
    → IsWaiting d
    → mismatch b d ≡ false
    → mismatch (leased_too b) (lease_row token t d) ≡ false
unfolding mismatch lease_row
lease_row_sound token t b d l w h = ground arith

pub exhaust_row_sound :
    (b : Joins) (d : Delivery)
    → IsWaiting d
    → mismatch b d ≡ false
    → mismatch b (exhaust_row d) ≡ false
unfolding mismatch exhaust_row
exhaust_row_sound b d w h = ground arith

-- The rows of other ids stay what they are.
Covers-other :
    (C : Delivery → Type 0) (id i : Bytes) (f : Delivery → Delivery) (xs : List Delivery)
    → ((d : Delivery) → (f d).id ≡ d.id)
    → equal i id ≡ false
    → Covers C xs i
    → Covers C (update (has_id id) f xs) i
Covers-other C id i f xs keep ne c =
    All-update (λ d. has_id i d ≡ true → C d) (λ d. has_id i d ≡ true → C d) (has_id id) f xs
      (λ d _ k. k)
      (λ d e _ e'.
        let there : has_id i d ≡ true = rw (keep d) at e' in
        absurd (ground (arith, equal_iff d.id id, equal_iff d.id i, equal_iff i id)))
      c

-- the rows of the candidates that are left
abbrev pub Left : Db → List Delivery → Type 0
Left db ds = All (λ (d : Delivery). Covers IsWaiting db.deliveries d.id) ds

pub Left-other :
    (id : Bytes) (f : Delivery → Delivery) (db db' : Db) (ds : List Delivery)
    → ((d : Delivery) → (f d).id ≡ d.id)
    → db'.deliveries ≡ update (has_id id) f db.deliveries
    → any (has_id id) ds ≡ false
    → Left db ds
    → Left db' ds
Left-other id f db db' [] keep e h c = tt
Left-other id f db db' (d ∷ ds) keep e h c = (
  subst (λ (xs : List Delivery). Covers IsWaiting xs d.id) (sym e)
      (Covers-other IsWaiting id d.id f db.deliveries keep (ground arith) c.0),
  Left-other id f db db' ds keep e (ground arith) c.1,
)

leased_row :
    (id : Bytes) (ls : List LeaseRow) (r : LeaseRow) (d : Delivery)
    → has_id id d ≡ true
    → r.delivery_id ≡ id
    → is_some (find (lease_of d.id) (r ∷ ls)) ≡ true
unfolding find
leased_row id ls r d e k = ground (arith, equal_iff d.id id, equal_iff r.delivery_id d.id)

other_row :
    (id : Bytes) (ls : List LeaseRow) (r : LeaseRow) (d : Delivery)
    → has_id id d ≡ false
    → r.delivery_id ≡ id
    → find (lease_of d.id) (r ∷ ls) ≡ find (lease_of d.id) ls
unfolding find
other_row id ls r d e k = ground (arith, equal_iff d.id id, equal_iff r.delivery_id d.id)

leased_mismatch :
    (id : Bytes) (db : Db) (r : LeaseRow) (f : Delivery → Delivery) (d : Delivery)
    → SameKeys f d
    → has_id id d ≡ true
    → r.delivery_id ≡ id
    → mismatch (leased_too (joins db d)) (f d) ≡ false
    → IsSoundRow (record db { leases = r ∷ db.leases }) (f d)
leased_mismatch id db r f d keep e k h =
    let after : Db = record db { leases = r ∷ db.leases } in
    let there : joins after d ≡ leased_too (joins db d) =
      simp (leased_row id db.leases r d e k) refl in
    subst (λ (j : Joins). mismatch j (f d) ≡ false) (sym (joins-keys after f d keep ∙ there)) h

-- An UPDATE that leases a delivery, with the row of its lease.
pub insert_lease-IsSound :
    (id : Bytes) (f : Delivery → Delivery) (db db' : Db)
    → ((d : Delivery) → SameKeys f d)
    → ((d : Delivery) (b : Joins)
        → IsWaiting d
        → mismatch b d ≡ false
        → mismatch (leased_too b) (f d) ≡ false)
    → Covers IsWaiting db.deliveries id
    → IsSound db
    → insert_lease id (set_delivery id f db) ≡ ok db'
    → IsSound db' × (db'.deliveries ≡ update (has_id id) f db.deliveries)
unfolding insert_lease IsSound
insert_lease-IsSound id f db db' keep step c s h =
    elim (Bool-cases (is_some (find_lease id db.leases))) [
      | inl e ↦ absurd (ground arith)
      | inr e ↦
          let row : LeaseRow = record { delivery_id = id; phase = ready } in
          let ds = update (has_id id) f db.deliveries in
          let same : record db { deliveries = ds; leases = row ∷ db.leases } ≡ db' = ground arith in
          subst
            (λ (x : Db).
              (Keyed x.deliveries × All (IsSoundRow x) x.deliveries) × (x.deliveries ≡ ds))
            same
            (
              (
                update-Keyed (has_id id) f db.deliveries (λ d. (keep d).0) s.0,
                All-update (λ d. (has_id id d ≡ true → IsWaiting d) × IsSoundRow db d)
                    (IsSoundRow (record db { leases = row ∷ db.leases })) (has_id id) f
                    db.deliveries (λ d ne k. rw (other_row id db.leases row d ne refl) k.1)
                    (λ d e' k.
                      leased_mismatch id db row f d (keep d) e' refl
                        (step d (joins db d) (k.0 e') k.1))
                    (All-both (λ d. has_id id d ≡ true → IsWaiting d) (IsSoundRow db) db.deliveries
                      c s.1),
              ),
              refl,
            )
    ]
