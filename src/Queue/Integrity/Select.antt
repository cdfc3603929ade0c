-- ===== src/Queue/Integrity/Select.antt =====
-- What the SQL of the queue's tables keeps: of a property of all rows, of the primary key, of the
-- join with the leases.
use rustymail.Base.{
  ℕ, zero, suc, ◌≡◌, refl, inl, inr, Bool, true, false, not, List, [], ◌∷◌, none, some, arith, map,
  any, All, is_some, Bool-cases,
}
use rustymail.Bytes.{Bytes, equal, equal_iff}
use rustymail.Queue.Rows.{Delivery, LeaseRow}
use rustymail.Queue.Table.{select, find, insert, order_by, limit, update, has_id, lease_of}
use rustymail.Queue.Integrity.{Keyed}

module _ {ℓ κ} {A : Type ℓ} (P : A → Type κ) where
  All-select : (p : A → Bool) (xs : List A) → All P xs → All P (select p xs)
  unfolding select
  All-select p [] h = tt
  All-select p (x ∷ xs) h = elim (Bool-cases (p x)) [
    | inl e ↦ rw e (h.0, All-select p xs h.1)
    | inr e ↦ rw e (All-select p xs h.1)
  ]

  All-insert : (b : A → A → Bool) (x : A) (xs : List A) → P x → All P xs → All P (insert b x xs)
  unfolding insert
  All-insert b x [] px h = (px, tt)
  All-insert b x (y ∷ ys) px h = elim (Bool-cases (b y x)) [
    | inl e ↦ rw e (h.0, All-insert b x ys px h.1)
    | inr e ↦ rw e (px, h)
  ]

  All-order_by : (b : A → A → Bool) (xs : List A) → All P xs → All P (order_by b xs)
  unfolding order_by
  All-order_by b [] h = tt
  All-order_by b (x ∷ xs) h = All-insert b x (order_by b xs) h.0 (All-order_by b xs h.1)

  All-limit : (n : ℕ) (xs : List A) → All P xs → All P (limit n xs)
  unfolding limit
  All-limit zero xs h = tt
  All-limit (suc n) [] h = tt
  All-limit (suc n) (x ∷ xs) h = (h.0, All-limit n xs h.1)

  -- the rows of a query
  pub All-query :
      (n : ℕ) (b : A → A → Bool) (p : A → Bool) (xs : List A)
      → All P xs
      → All P (limit n (order_by b (select p xs)))
  All-query n b p xs h =
      All-limit n (order_by b (select p xs)) (All-order_by b (select p xs) (All-select p xs h))

module _ {ℓ} {A : Type ℓ} where
  All-select-true : (p : A → Bool) (xs : List A) → All (λ x. p x ≡ true) (select p xs)
  unfolding select
  All-select-true p [] = tt
  All-select-true p (x ∷ xs) = elim (Bool-cases (p x)) [
    | inl e ↦ rw e (e, All-select-true p xs)
    | inr e ↦ rw e (All-select-true p xs)
  ]

  pub All-query-true :
      (n : ℕ) (b : A → A → Bool) (p : A → Bool) (xs : List A)
      → All (λ x. p x ≡ true) (limit n (order_by b (select p xs)))
  All-query-true n b p xs =
      let holds : A → Type 0 = λ x. p x ≡ true in
      All-limit holds n (order_by b (select p xs))
        (All-order_by holds b (select p xs) (All-select-true p xs))

  pub find-true : (p : A → Bool) (xs : List A) (a : A) → find p xs ≡ some a → p a ≡ true
  unfolding find
  find-true p [] a h = ground arith
  find-true p (x ∷ xs) a h = ground (arith, find-true p xs a)

  find-any :
      (p q : A → Bool) (xs : List A) (a : A)
      → ((x : A) → p x ≡ true → q x ≡ true)
      → find p xs ≡ some a
      → any q xs ≡ true
  unfolding find
  find-any p q [] a imp h = ground arith
  find-any p q (x ∷ xs) a imp h = ground (arith, imp x, find-any p q xs a imp)

module _ {ℓ κ μ} {A : Type ℓ} (P : A → Type κ) (Q : A → Type μ) where
  pub All-mono : (xs : List A) → ((x : A) → P x → Q x) → All P xs → All Q xs
  All-mono [] f h = tt
  All-mono (x ∷ xs) f h = (f x h.0, All-mono xs f h.1)

  pub All-both : (xs : List A) → All P xs → All Q xs → All (λ x. P x × Q x) xs
  All-both [] h k = tt
  All-both (x ∷ xs) h k = ((h.0, k.0), All-both xs h.1 k.1)

  -- An UPDATE whose rows keep, or gain, a property.
  pub All-update :
      (p : A → Bool) (f : A → A) (xs : List A)
      → ((x : A) → p x ≡ false → P x → Q x)
      → ((x : A) → p x ≡ true → P x → Q (f x))
      → All P xs
      → All Q (update p f xs)
  unfolding update
  All-update p f [] other same h = tt
  All-update p f (x ∷ xs) other same h = elim (Bool-cases (p x)) [
    | inl e ↦ rw e (same x e h.0, All-update p f xs other same h.1)
    | inr e ↦ rw e (other x e h.0, All-update p f xs other same h.1)
  ]

module _ {ℓ κ μ} {A : Type ℓ} {B : Type κ} (P : B → Type μ) where
  pub All-map : (f : A → B) (xs : List A) → All (λ x. P (f x)) xs → All P (map f xs)
  All-map f [] h = tt
  All-map f (x ∷ xs) h = (h.0, All-map f xs h.1)

any-update :
    (id : Bytes) (p : Delivery → Bool) (f : Delivery → Delivery) (xs : List Delivery)
    → ((d : Delivery) → (f d).id ≡ d.id)
    → any (has_id id) (update p f xs) ≡ any (has_id id) xs
unfolding update
any-update id p f [] keep = refl
any-update id p f (x ∷ xs) keep = elim (Bool-cases (p x)) [
  | inl e ↦ rw (e, keep x, any-update id p f xs keep) refl
  | inr e ↦ rw (e, any-update id p f xs keep) refl
]

pub update-Keyed :
    (p : Delivery → Bool) (f : Delivery → Delivery) (xs : List Delivery)
    → ((d : Delivery) → (f d).id ≡ d.id)
    → Keyed xs
    → Keyed (update p f xs)
unfolding update
update-Keyed p f [] keep k = tt
update-Keyed p f (x ∷ xs) keep k = elim (Bool-cases (p x)) [
  | inl e ↦ rw e (rw (keep x, any-update x.id p f xs keep) k.0, update-Keyed p f xs keep k.1)
  | inr e ↦ rw e (rw (any-update x.id p f xs keep) k.0, update-Keyed p f xs keep k.1)
]

absent :
    (id : Bytes) (xs : List Delivery)
    → any (has_id id) xs ≡ false
    → All (λ x. has_id id x ≡ false) xs
absent id [] h = tt
absent id (x ∷ xs) h = (ground arith, absent id xs (ground arith))

-- No other row has the id.
abbrev pub Only : Delivery → List Delivery → Type 0
Only d xs = All (λ (x : Delivery). has_id d.id x ≡ true → x ≡ d) xs

-- The row that is found is the only one with its id.
pub find-only :
    (id : Bytes) (p : Delivery → Bool) (xs : List Delivery) (d : Delivery)
    → ((x : Delivery) → p x ≡ true → has_id id x ≡ true)
    → Keyed xs
    → find p xs ≡ some d
    → All (λ x. has_id id x ≡ true → x ≡ d) xs
unfolding find
find-only id p [] d imp k h = tt
find-only id p (x ∷ xs) d imp k h = elim (Bool-cases (p x)) [
  | inl e ↦
      let same : x.id ≡ id = (equal_iff x.id id).0 (imp x e) in
      (
        λ _. ground arith,
        All-mono (λ y. has_id id y ≡ false) (λ y. has_id id y ≡ true → y ≡ d) xs
            (λ y ne has. ground arith) (absent id xs (rw same at k.0)),
      )
  | inr e ↦
      let found : find p xs ≡ some d = ground arith in
      let present = find-any p (has_id id) xs d imp found in
      (
        λ has.
            let same : x.id ≡ id = (equal_iff x.id id).0 has in
            let gone : any (has_id id) xs ≡ false = rw same at k.0 in ground arith,
        find-only id p xs d imp k.1 found,
      )
]

-- Every row is the only one with its id.
pub Keyed-Only : (xs : List Delivery) → Keyed xs → All (λ (d : Delivery). Only d xs) xs
Keyed-Only [] k = tt
Keyed-Only (y ∷ ys) k = (
  (
    λ _. refl,
    All-mono (λ x. has_id y.id x ≡ false) (λ x. has_id y.id x ≡ true → x ≡ y) ys
        (λ x ne has. ground arith) (absent y.id ys k.0),
  ),
  All-mono (λ (d : Delivery). (has_id y.id d ≡ false) × Only d ys)
      (λ (d : Delivery). Only d (y ∷ ys)) ys
      (λ d h. (λ has. ground (arith, equal_iff y.id d.id, equal_iff d.id y.id), h.1))
      (All-both (λ d. has_id y.id d ≡ false) (λ d. Only d ys) ys (absent y.id ys k.0)
        (Keyed-Only ys k.1)),
)

-- DELETE on the leases, and the join of the deliveries
pub find-select-other :
    (a b : Bytes) (ls : List LeaseRow)
    → equal a b ≡ false
    → find (lease_of a) (select (λ l. not (lease_of b l)) ls) ≡ find (lease_of a) ls
unfolding find select
find-select-other a b [] ne = refl
find-select-other a b (l ∷ ls) ne = ground (
  arith,
  find-select-other a b ls ne,
  equal_iff l.delivery_id a,
  equal_iff l.delivery_id b,
  equal_iff a b,
)

pub find-select-same :
    (b : Bytes) (ls : List LeaseRow)
    → find (lease_of b) (select (λ l. not (lease_of b l)) ls) ≡ none
unfolding find select
find-select-same b [] = refl
find-select-same b (l ∷ ls) = ground (arith, find-select-same b ls)

-- an UPDATE of the leases that keeps their ids
pub find-update :
    (a : Bytes) (p : LeaseRow → Bool) (f : LeaseRow → LeaseRow) (ls : List LeaseRow)
    → ((l : LeaseRow) → (f l).delivery_id ≡ l.delivery_id)
    → is_some (find (lease_of a) (update p f ls)) ≡ is_some (find (lease_of a) ls)
unfolding find update
find-update a p f [] keep = refl
find-update a p f (l ∷ ls) keep = ground (arith, find-update a p f ls keep, keep l)
