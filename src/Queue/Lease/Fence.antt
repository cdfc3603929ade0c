-- ===== src/Queue/Lease/Fence.antt =====
-- What the owner of a lease that is no longer held may still do: crates/store/src/queue.rs,
-- `check_lease` and its callers.
use rustymail.Base.{
  ℕ, ◌≡◌, ◌≢◌, refl, ap, inl, inr, true, List, [], ◌∷◌, Option, none, some, arith, ◌==◌, ==_iff,
  within, Bool-cases, All,
}
use rustymail.Bytes.{Bytes, equal_iff}
use rustymail.Queue.Rows.{
  Delivery, Route, relay, State, leased, Db, Store, Env, QueueLease, QueueResult, Result,
  StoreError, ok, err, stale_lease, Commit,
}
use rustymail.Queue.Table.{find, transact, is_relay, is_leased}
use rustymail.Queue.Clock.{now, now_ms}
use rustymail.Queue.Lease.{
  held_by, has_token, check_held, check_lease, renew_body, at_time, with_now, queue_renew,
  mark_body_body, queue_mark_body, finish_body, finish_at, finish_with, report_time, queue_finish,
}

-- The operation has failed and changed no table.
abbrev pub IsRefused {ℓ} : {A : Type ℓ} → Db → Store × Result A → Type ℓ
IsRefused {A} db r = (r.0.db ≡ db) × ((a : A) → r.1 ≢ ok a)

pub err_refused {ℓ} : {A : Type ℓ} (e : StoreError) (a : A) → err e ≢ ok a
err_refused e a h = ground arith

-- The delivery is a leased relay delivery with the id, the token and the generation of the lease.
abbrev pub IsHolder : QueueLease → Delivery → Type 0
IsHolder l d =
    (d.id ≡ l.id)
    × (d.route ≡ relay)
    × (d.state ≡ leased)
    × (d.lease_token ≡ some l.token)
    × (d.generation ≡ l.generation)

-- No delivery holds the lease.
abbrev pub IsStale : QueueLease → Db → Type 0
IsStale l db = All (λ d. IsHolder l d → ⊥) db.deliveries

token_iff : (t : Bytes) (o : Option Bytes) → has_token t o ≡ true → o ≡ some t
token_iff t none h = ground arith
token_iff t (some u) h = ap some ((equal_iff u t).0 h)

relay_is : (r : Route) → is_relay r ≡ true → r ≡ relay
relay_is r h = ground arith

leased_is : (st : State) → is_leased st ≡ true → st ≡ leased
leased_is st h = ground arith

held_by-IsHolder : (l : QueueLease) (d : Delivery) → held_by l d ≡ true → IsHolder l d
held_by-IsHolder l d h = (
  (equal_iff d.id l.id).0 (ground arith),
  relay_is d.route (ground arith),
  leased_is d.state (ground arith),
  token_iff l.token d.lease_token (ground arith),
  (==_iff d.generation l.generation).0 (ground arith),
)

stale-not_found :
    (l : QueueLease) (ds : List Delivery)
    → All (λ d. IsHolder l d → ⊥) ds
    → find (held_by l) ds ≡ none
unfolding find
stale-not_found l [] h = refl
stale-not_found l (d ∷ ds) h = elim (Bool-cases (held_by l d)) [
  | inl e ↦ absurd (h.0 (held_by-IsHolder l d e))
  | inr e ↦ rw e (stale-not_found l ds h.1)
]

check_lease-stale :
    (db : Db) (l : QueueLease) (lock : ℕ) → IsStale l db → check_lease db l lock ≡ err stale_lease
unfolding check_lease check_held
check_lease-stale db l lock h = elim (Bool-cases (lock == l.lock)) [
  | inl e ↦ rw (e, stale-not_found l db.deliveries h) refl
  | inr e ↦ rw e refl
]

pub with_now-IsRefused {ℓ} :
    {A : Type ℓ} (s : Store) (env : Env) (run : Store → ℕ → Store × Result A)
    → ((s' : Store) (t : ℕ) → s'.db ≡ s.db → IsRefused s.db (run s' t))
    → IsRefused s.db (with_now s env run)
unfolding with_now
with_now-IsRefused s env run k =
    let (q, time) = now s.queue env.wall env.monotonic in go (record s { queue = q }) time refl
  where
    go : (s' : Store) (r : Result ℕ) → s'.db ≡ s.db → IsRefused s.db (at_time s' r run)
    go s' (err e) h = (h, err_refused e)
    go s' (ok t) h = k s' t h

renew_at-IsRefused :
    (s' : Store) (env : Env) (l : QueueLease) (seconds t : ℕ) (db : Db)
    → IsStale l db
    → s'.db ≡ db
    → IsRefused db (transact s' env.commit (renew_body s' l seconds t))
unfolding renew_body transact
renew_at-IsRefused s' env l seconds t db h e =
    let stale : check_lease s'.db l s'.lock ≡ err stale_lease =
      check_lease-stale s'.db l s'.lock (simp e h) in
    rw stale (e, err_refused stale_lease)

renew-IsRefused :
    (s : Store) (env : Env) (l : QueueLease) (seconds : ℕ)
    → IsStale l s.db
    → IsRefused s.db (queue_renew s env l seconds)
unfolding queue_renew
renew-IsRefused s env l seconds h = elim (Bool-cases (within 1 3600 seconds)) [
  | inl e ↦ rw e (
      with_now-IsRefused s env (λ s' t. transact s' env.commit (renew_body s' l seconds t))
        (λ s' t k. renew_at-IsRefused s' env l seconds t s.db h k))
  | inr e ↦ rw e (refl, err_refused _)
]

mark_body-IsRefused :
    (s : Store) (env : Env) (l : QueueLease)
    → IsStale l s.db
    → IsRefused s.db (queue_mark_body s env l)
unfolding queue_mark_body mark_body_body transact
mark_body-IsRefused s env l h =
    rw (check_lease-stale s.db l s.lock h) (refl, err_refused stale_lease)

finish_at-IsRefused :
    (s' : Store) (c : Commit) (l : QueueLease) (o : QueueResult) (t : ℕ) (due : Result ℕ) (db : Db)
    → IsStale l db
    → s'.db ≡ db
    → IsRefused db (finish_at s' c l o t due)
unfolding finish_at finish_body transact
finish_at-IsRefused s' c l o t (err x) db h e = (e, err_refused x)
finish_at-IsRefused s' c l o t (ok due) db h e =
    let stale : check_lease s'.db l s'.lock ≡ err stale_lease =
      check_lease-stale s'.db l s'.lock (simp e h) in
    rw stale (e, err_refused stale_lease)

finish_with-IsRefused :
    (s : Store) (env : Env) (l : QueueLease) (o : QueueResult) (time : Result ℕ)
    → IsStale l s.db
    → IsRefused s.db (finish_with s env l o time)
unfolding finish_with
finish_with-IsRefused s env l o (err e) h = (refl, err_refused e)
finish_with-IsRefused s env l o (ok t) h =
    let (q, guarded) = now s.queue env.wall_again env.monotonic in
    let s' = record s { queue = q } in
    finish_at-IsRefused s' env.commit l o t (report_time s' t guarded) s.db h refl

finish-IsRefused :
    (s : Store) (env : Env) (l : QueueLease) (o : QueueResult)
    → IsStale l s.db
    → IsRefused s.db (queue_finish s env l o)
unfolding queue_finish
finish-IsRefused s env l o h = finish_with-IsRefused s env l o (now_ms env.wall) h

-- Where no leased relay delivery has the id, the token and the generation of a lease, its owner can
-- neither renew it, nor mark the body, nor record a result: each call fails and changes no table.
pub stale-IsRefused :
    (s : Store) (env : Env) (l : QueueLease) (seconds : ℕ) (o : QueueResult)
    → IsStale l s.db
    → IsRefused s.db (queue_renew s env l seconds)
      × (IsRefused s.db (queue_mark_body s env l) × IsRefused s.db (queue_finish s env l o))
stale-IsRefused s env l seconds o h = (
  renew-IsRefused s env l seconds h,
  (mark_body-IsRefused s env l h, finish-IsRefused s env l o h),
)
