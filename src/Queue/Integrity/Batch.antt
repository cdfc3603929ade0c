-- ===== src/Queue/Integrity/Batch.antt =====
-- Expiry and recovery keep the tables free of mismatches.
use rustymail.Base.{
  ℕ, ◌≡◌, refl, sym, subst, inl, inr, Bool, true, false, List, [], ◌∷◌, arith, All, Bool-cases,
  length, within,
}
use rustymail.Bytes.{Bytes, is_empty}
use rustymail.Queue.Rows.{Delivery, Db, Store, Env, Commit, ok}
use rustymail.Queue.Table.{
  select, limit, order_by, update, has_id, is_leased, earlier, set_delivery,
}
use rustymail.Queue.Policy.{batch}
use rustymail.Queue.Sweep.{expire_row, is_expired, expired_ids, expire_all, expire_at, queue_expire}
use rustymail.Queue.Integrity.{IsSound, IsSoundRow}
use rustymail.Queue.Integrity.Select.{
  All-query, All-query-true, All-mono, All-both, All-map, All-update, Keyed-Only, Only,
}
use rustymail.Queue.Integrity.Row.{expire_row_sound}
use rustymail.Queue.Integrity.Kept.{Kept-transact, update-IsSound}
use rustymail.Queue.Integrity.Owner.{with_now-IsSound}

-- Every row with the id is of the kind.
abbrev pub Covers : (Delivery → Type 0) → List Delivery → Bytes → Type 0
Covers C xs id = All (λ d. has_id id d ≡ true → C d) xs

pub Covers-update :
    (C : Delivery → Type 0) (p : Delivery → Bool) (f : Delivery → Delivery) (xs : List Delivery)
    → ((d : Delivery) → (f d).id ≡ d.id)
    → ((d : Delivery) → C d → C (f d))
    → (ids : List Bytes) → All (Covers C xs) ids
    → All (Covers C (update p f xs)) ids
Covers-update C p f xs keep step ids h =
    All-mono (Covers C xs) (Covers C (update p f xs)) ids
      (λ id c.
        All-update (λ d. has_id id d ≡ true → C d) (λ d. has_id id d ≡ true → C d) p f xs
          (λ d _ k. k) (λ d _ k e. step d (k (rw (keep d) at e))) c)
      h

-- The rows of a query cover their ids, when its test implies the kind.
pub query-Covers :
    (C : Delivery → Type 0) (n : ℕ) (b : Delivery → Delivery → Bool) (p : Delivery → Bool) (db : Db)
    → IsSound db
    → ((d : Delivery) → p d ≡ true → IsSoundRow db d → C d)
    → All
        (λ (d : Delivery). Covers C db.deliveries d.id)
        (limit n (order_by b (select p db.deliveries)))
unfolding IsSound
query-Covers C n b p db s imp =
    let xs = db.deliveries in
    let rows = limit n (order_by b (select p xs)) in
    All-mono (λ d. (p d ≡ true) × (IsSoundRow db d × Only d xs)) (λ d. Covers C xs d.id) rows
      (λ d h.
        All-mono (λ x. has_id d.id x ≡ true → x ≡ d) (λ x. has_id d.id x ≡ true → C x) xs
          (λ x same e. subst C (sym (same e)) (imp d h.0 h.1.0)) h.1.1)
      (All-both (λ d. p d ≡ true) (λ d. IsSoundRow db d × Only d xs) rows (All-query-true n b p xs)
        (All-both (IsSoundRow db) (λ d. Only d xs) rows (All-query (IsSoundRow db) n b p xs s.1)
          (All-query (λ d. Only d xs) n b p xs (Keyed-Only xs s.0))))

abbrev NotLeased : Delivery → Type 0
NotLeased d = is_leased d.state ≡ false

expire_row-NotLeased : (t : ℕ) (d : Delivery) → NotLeased d → NotLeased (expire_row t d)
unfolding expire_row
expire_row-NotLeased t d h = ground arith

expire_all-IsSound :
    (t : ℕ) (ids : List Bytes) (db : Db)
    → IsSound db
    → All (Covers NotLeased db.deliveries) ids
    → IsSound (expire_all t ids db)
unfolding expire_all
expire_all-IsSound t [] db h c = h
expire_all-IsSound t (id ∷ ids) db h c =
    expire_all-IsSound t ids (set_delivery id (expire_row t) db)
      (update-IsSound (λ d. has_id id d ≡ true → NotLeased d) (has_id id) (expire_row t) db
        (λ d. (refl, refl)) (λ d b e n m. expire_row_sound b t d (n e) m) c.0 h)
      (Covers-update NotLeased (has_id id) (expire_row t) db.deliveries (λ d. refl)
        (expire_row-NotLeased t) ids c.1)

expired_ids-Covers :
    (t n : ℕ) (db : Db) → IsSound db → All (Covers NotLeased db.deliveries) (expired_ids t n db)
expired_ids-Covers t n db h =
    All-map (Covers NotLeased db.deliveries) (λ (d : Delivery). d.id)
      (limit n (
        order_by (λ (a b : Delivery). earlier (a.expires_at_ms, a.id) (b.expires_at_ms, b.id))
          (select (is_expired t) db.deliveries)))
      (query-Covers NotLeased n _ (is_expired t) db h (λ d e _. ground arith))

expire_at-IsSound :
    (s : Store) (c : Commit) (n t : ℕ) → IsSound s.db → IsSound (expire_at s c n t).0.db
unfolding expire_at
expire_at-IsSound s c n t h = elim (Bool-cases (is_empty (expired_ids t n s.db))) [
  | inl e ↦ rw e h
  | inr e ↦ rw e (
      Kept-transact IsSound s c
        (ok (expire_all t (expired_ids t n s.db) s.db, length (expired_ids t n s.db))) h
        (expire_all-IsSound t (expired_ids t n s.db) s.db h (expired_ids-Covers t n s.db h)))
]

pub queue_expire-IsSound :
    (s : Store) (env : Env) (n : ℕ) → IsSound s.db → IsSound (queue_expire s env n).0.db
unfolding queue_expire
queue_expire-IsSound s env n h = elim (Bool-cases (within 1 batch n)) [
  | inl e ↦ rw e (
      with_now-IsSound s env (λ s' t. expire_at s' env.commit n t) h
        (λ s' t h'. expire_at-IsSound s' env.commit n t h'))
  | inr e ↦ rw e h
]
