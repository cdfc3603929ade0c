-- ===== src/Queue/Table.antt =====
-- The SQL of crates/store/src/queue.rs as functions on lists of rows: a row is found or changed by
-- its primary key, ORDER BY sorts by insertion, LIMIT takes a first part.
use rustymail.Base.{
  ℕ, zero, suc, ◌+◌, Bool, true, false, not, ◌&&◌, ◌||◌, List, [], ◌∷◌, Option, none, some, ltb,
  leb, ◌==◌, if◌then◌else◌,
}
use rustymail.Bytes.{Bytes, equal, is_digit}
use rustymail.Base.{within, length, all}
use rustymail.Queue.Rows.{
  Delivery, LeaseRow, Db, Store, Result, ok, err, Commit, done, refused, unacknowledged, State,
  queue_outcome_unknown, pending, leased, deferred, Route, relay, i64_max, invalid_input,
}

-- `blob::valid_id`
unfoldable pub valid_id : Bytes → Bool
valid_id id = length id == 32 && all (λ b. is_digit b || within b'a' b'f' b) id

-- the order of TEXT columns: byte by byte
unfoldable pub less : Bytes → Bytes → Bool
less [] [] = false
less [] (y ∷ ys) = true
less (x ∷ xs) [] = false
less (x ∷ xs) (y ∷ ys) = ltb x y || (x == y && less xs ys)

-- (t, id) < (t', id')
abbrev pub earlier : ℕ × Bytes → ℕ × Bytes → Bool
earlier (t, id) (t', id') = ltb t t' || (t == t' && less id id')

module _ {ℓ} {A : Type ℓ} where
  -- WHERE
  unfoldable pub select : (A → Bool) → List A → List A
  select p [] = []
  select p (x ∷ xs) = let rest = select p xs in if p x then x ∷ rest else rest

  -- one row, `optional()`
  unfoldable pub find : (A → Bool) → List A → Option A
  find p [] = none
  find p (x ∷ xs) = if p x then some x else find p xs

  unfoldable pub insert : (A → A → Bool) → A → List A → List A
  insert before x [] = x ∷ []
  insert before x (y ∷ ys) = if before y x then y ∷ insert before x ys else x ∷ y ∷ ys

  -- ORDER BY
  unfoldable pub order_by : (A → A → Bool) → List A → List A
  unfolding insert
  order_by before [] = []
  order_by before (x ∷ xs) = insert before x (order_by before xs)

  -- LIMIT
  unfoldable pub limit : ℕ → List A → List A
  limit zero xs = []
  limit (suc n) [] = []
  limit (suc n) (x ∷ xs) = x ∷ limit n xs

  -- UPDATE .. WHERE
  unfoldable pub update : (A → Bool) → (A → A) → List A → List A
  update p f [] = []
  update p f (x ∷ xs) = (if p x then f x else x) ∷ update p f xs

-- WHERE id=?1
abbrev pub has_id : Bytes → Delivery → Bool
has_id id d = equal d.id id

abbrev pub is_relay : Route → Bool
is_relay relay = true
is_relay _ = false

abbrev pub is_leased : State → Bool
is_leased leased = true
is_leased _ = false

-- state IN ('pending','deferred')
abbrev pub is_waiting : State → Bool
is_waiting pending = true
is_waiting deferred = true
is_waiting _ = false

abbrev pub lease_of : Bytes → LeaseRow → Bool
lease_of id l = equal l.delivery_id id

-- the row of a delivery in queue_lease
abbrev pub find_lease : Bytes → List LeaseRow → Option LeaseRow
find_lease id = find (lease_of id)

abbrev pub set_delivery : Bytes → (Delivery → Delivery) → Db → Db
set_delivery id f db = record db { deliveries = update (has_id id) f db.deliveries }

-- DELETE FROM queue_lease WHERE delivery_id=?1
abbrev pub delete_lease : Bytes → Db → Db
delete_lease id db = record db { leases = select (λ l. not (lease_of id l)) db.leases }

-- The end of an operation that has run its statements in a transaction: an error rolls back, and
-- `commit` reports a COMMIT that fails as an unknown outcome.
unfoldable pub transact {ℓ} : {A : Type ℓ} → Store → Commit → Result (Db × A) → Store × Result A
transact s c (err e) = (s, err e)
transact s done (ok (db, a)) = (record s { db = db }, ok a)
transact s refused (ok (db, a)) = (s, err queue_outcome_unknown)
transact s unacknowledged (ok (db, a)) = (record s { db = db }, err queue_outcome_unknown)

-- `later`: checked addition on i64
unfoldable pub later : ℕ → ℕ → Result ℕ
later now milliseconds =
    if leb (now + milliseconds) i64_max then ok (now + milliseconds) else err invalid_input

-- `saturating_add` on i64
unfoldable pub saturating_add : ℕ → ℕ → ℕ
saturating_add now milliseconds =
    if leb (now + milliseconds) i64_max then now + milliseconds else i64_max
