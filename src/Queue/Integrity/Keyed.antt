-- ===== src/Queue/Integrity/Keyed.antt =====
-- The rows of a query have ids of their own when the rows of the table do.
use rustymail.Base.{
  ℕ, zero, suc, ◌≡◌, refl, inl, inr, Bool, false, List, [], ◌∷◌, arith, any, Bool-cases,
}
use rustymail.Bytes.{Bytes, equal_iff}
use rustymail.Queue.Rows.{Delivery}
use rustymail.Queue.Table.{select, insert, order_by, limit, has_id}
use rustymail.Queue.Integrity.{Keyed}

any-select :
    (id : Bytes) (p : Delivery → Bool) (xs : List Delivery)
    → any (has_id id) xs ≡ false
    → any (has_id id) (select p xs) ≡ false
unfolding select
any-select id p [] h = refl
any-select id p (x ∷ xs) h = ground (arith, any-select id p xs)

any-insert :
    (id : Bytes) (b : Delivery → Delivery → Bool) (x : Delivery) (xs : List Delivery)
    → has_id id x ≡ false
    → any (has_id id) xs ≡ false
    → any (has_id id) (insert b x xs) ≡ false
unfolding insert
any-insert id b x [] e h = ground arith
any-insert id b x (y ∷ ys) e h = ground (arith, any-insert id b x ys e)

any-order_by :
    (id : Bytes) (b : Delivery → Delivery → Bool) (xs : List Delivery)
    → any (has_id id) xs ≡ false
    → any (has_id id) (order_by b xs) ≡ false
unfolding order_by
any-order_by id b [] h = refl
any-order_by id b (x ∷ xs) h =
    any-insert id b x (order_by b xs) (ground arith) (any-order_by id b xs (ground arith))

any-limit :
    (id : Bytes) (n : ℕ) (xs : List Delivery)
    → any (has_id id) xs ≡ false
    → any (has_id id) (limit n xs) ≡ false
unfolding limit
any-limit id zero xs h = refl
any-limit id (suc n) [] h = refl
any-limit id (suc n) (x ∷ xs) h = ground (arith, any-limit id n xs)

select-Keyed : (p : Delivery → Bool) (xs : List Delivery) → Keyed xs → Keyed (select p xs)
unfolding select
select-Keyed p [] k = tt
select-Keyed p (x ∷ xs) k = elim (Bool-cases (p x)) [
  | inl e ↦ rw e (any-select x.id p xs k.0, select-Keyed p xs k.1)
  | inr e ↦ rw e (select-Keyed p xs k.1)
]

has_id-sym : (x y : Delivery) → has_id x.id y ≡ false → has_id y.id x ≡ false
has_id-sym x y h = ground (arith, equal_iff x.id y.id, equal_iff y.id x.id)

insert-Keyed :
    (b : Delivery → Delivery → Bool) (x : Delivery) (xs : List Delivery)
    → any (has_id x.id) xs ≡ false
    → Keyed xs
    → Keyed (insert b x xs)
unfolding insert
insert-Keyed b x [] h k = (refl, tt)
insert-Keyed b x (y ∷ ys) h k = elim (Bool-cases (b y x)) [
  | inl e ↦ rw e (
    any-insert y.id b x ys (has_id-sym x y (ground arith)) k.0,
    insert-Keyed b x ys (ground arith) k.1,
  )
  | inr e ↦ rw e (h, k)
]

order_by-Keyed :
    (b : Delivery → Delivery → Bool) (xs : List Delivery) → Keyed xs → Keyed (order_by b xs)
unfolding order_by
order_by-Keyed b [] k = tt
order_by-Keyed b (x ∷ xs) k =
    insert-Keyed b x (order_by b xs) (any-order_by x.id b xs k.0) (order_by-Keyed b xs k.1)

limit-Keyed : (n : ℕ) (xs : List Delivery) → Keyed xs → Keyed (limit n xs)
unfolding limit
limit-Keyed zero xs k = tt
limit-Keyed (suc n) [] k = tt
limit-Keyed (suc n) (x ∷ xs) k = (any-limit x.id n xs k.0, limit-Keyed n xs k.1)

pub query-Keyed :
    (n : ℕ) (b : Delivery → Delivery → Bool) (p : Delivery → Bool) (xs : List Delivery)
    → Keyed xs
    → Keyed (limit n (order_by b (select p xs)))
query-Keyed n b p xs k =
    limit-Keyed n (order_by b (select p xs)) (order_by-Keyed b (select p xs) (select-Keyed p xs k))
