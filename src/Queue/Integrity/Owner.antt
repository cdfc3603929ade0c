-- ===== src/Queue/Integrity/Owner.antt =====
-- The owner of a lease keeps the tables free of mismatches.
use rustymail.Base.{
  ℕ, ◌*◌, ◌≡◌, refl, inl, inr, true, false, List, Option, none, some, arith, is_some, All, [], ◌∷◌,
  within, ◌==◌, Bool-cases,
}
use rustymail.Queue.Rows.{
  Delivery, Phase, body, Db, Store, Env, QueueLease, QueueResult, Result, ok, err, ok_or, database,
  Commit,
}
use rustymail.Queue.Table.{
  find, update, has_id, is_leased, lease_of, later, transact, saturating_add,
}
use rustymail.Queue.Clock.{now, now_ms}
use rustymail.Queue.Lease.{
  held_by, check_held, check_lease, extend, renew_body, with_now, queue_renew, mark_body_body,
  queue_mark_body, classify, settle_unknown, finish_row, reason_of, finish_body, finish_at,
  finish_with, at_time, report_time, queue_finish,
}
use rustymail.Queue.Integrity.{joins, IsSound, IsSoundRow}
use rustymail.Queue.Integrity.Select.{find-true, find-only, find-update, All-mono, All-both}
use rustymail.Queue.Integrity.Row.{leased-not_closed, finish_row_sound, renew_row_sound}
use rustymail.Queue.Integrity.Kept.{Kept, Kept-bind, Kept-transact, update-IsSound, release-IsSound}

check_held-found :
    (db : Db) (l : QueueLease) (o : Option Delivery) (phase : Phase)
    → check_held db l o ≡ ok phase
    → (d : Delivery) × (o ≡ some d)
unfolding check_held
check_held-found db l none phase h = ground arith
check_held-found db l (some d) phase h = (d, refl)

-- A lease that passes the check is held by a delivery.
pub check_lease-found :
    (db : Db) (l : QueueLease) (lock : ℕ) (phase : Phase)
    → check_lease db l lock ≡ ok phase
    → (d : Delivery) × (find (held_by l) db.deliveries ≡ some d)
unfolding check_lease
check_lease-found db l lock phase h = elim (Bool-cases (lock == l.lock)) [
  | inl e ↦ check_held-found db l (find (held_by l) db.deliveries) phase (rw e at h)
  | inr e ↦ ground arith
]

held_by-id : (l : QueueLease) (d : Delivery) → held_by l d ≡ true → has_id l.id d ≡ true
held_by-id l d h = ground arith

held_by-leased : (l : QueueLease) (d : Delivery) → held_by l d ≡ true → is_leased d.state ≡ true
held_by-leased l d h = ground arith

-- The rows of a lease that passes the check are not closed.
held-open :
    (db : Db) (l : QueueLease) (phase : Phase) (lock : ℕ)
    → IsSound db
    → check_lease db l lock ≡ ok phase
    → All (λ d. has_id l.id d ≡ true → is_some d.closed_at_ms ≡ false) db.deliveries
unfolding IsSound
held-open db l phase lock s h =
    let (d, found) = check_lease-found db l lock phase h in
    let leased = held_by-leased l d (find-true (held_by l) db.deliveries d found) in
    All-mono (λ x. (has_id l.id x ≡ true → x ≡ d) × IsSoundRow db x)
      (λ x. has_id l.id x ≡ true → is_some x.closed_at_ms ≡ false) db.deliveries
      (λ x k e. leased-not_closed (joins db x) x k.1 (simp (k.0 e) leased))
      (All-both (λ x. has_id l.id x ≡ true → x ≡ d) (IsSoundRow db) db.deliveries
        (find-only l.id (held_by l) db.deliveries d (held_by-id l) s.0 found) s.1)

finish_body-IsSound :
    (s : Store) (l : QueueLease) (o : QueueResult) (time due : ℕ)
    → IsSound s.db
    → Kept IsSound (finish_body s l o time due)
unfolding finish_body
finish_body-IsSound s l o time due h = Kept-bind IsSound (check_lease s.db l s.lock) _ (λ phase c.
    Kept-bind IsSound (ok_or (find (has_id l.id) s.db.deliveries) database) _ (λ d k.
      Kept-bind IsSound (classify o phase) _ (λ v e.
        release-IsSound (λ x. is_some x.closed_at_ms ≡ false) l.id
          (finish_row (settle_unknown d.possibly_delivered v) (reason_of o)
            (saturating_add time l.retry_ms) due)
          s.db (λ x. (refl, refl))
          (λ x j c m.
            finish_row_sound j o phase v d.possibly_delivered (reason_of o)
              (saturating_add time l.retry_ms) due x e c m)
          (held-open s.db l phase s.lock h c) h)))

finish_at-IsSound :
    (s : Store) (c : Commit) (l : QueueLease) (o : QueueResult) (time : ℕ) (due : Result ℕ)
    → IsSound s.db
    → IsSound (finish_at s c l o time due).0.db
unfolding finish_at
finish_at-IsSound s c l o time (err e) h = h
finish_at-IsSound s c l o time (ok due) h =
    Kept-transact IsSound s c (finish_body s l o time due) h (finish_body-IsSound s l o time due h)

finish_with-IsSound :
    (s : Store) (env : Env) (l : QueueLease) (o : QueueResult) (time : Result ℕ)
    → IsSound s.db
    → IsSound (finish_with s env l o time).0.db
unfolding finish_with
finish_with-IsSound s env l o (err e) h = h
finish_with-IsSound s env l o (ok time) h =
    let (q, guarded) = now s.queue env.wall_again env.monotonic in
    let s' = record s { queue = q } in
    finish_at-IsSound s' env.commit l o time (report_time s' time guarded) h

pub queue_finish-IsSound :
    (s : Store) (env : Env) (l : QueueLease) (o : QueueResult)
    → IsSound s.db
    → IsSound (queue_finish s env l o).0.db
unfolding queue_finish
queue_finish-IsSound s env l o h = finish_with-IsSound s env l o (now_ms env.wall) h

at_time-IsSound {ℓ} :
    {A : Type ℓ} (s : Store) (time : Result ℕ) (run : Store → ℕ → Store × Result A)
    → IsSound s.db
    → ((t : ℕ) → IsSound (run s t).0.db)
    → IsSound (at_time s time run).0.db
unfolding at_time
at_time-IsSound s (err e) run h k = h
at_time-IsSound s (ok t) run h k = k t

-- An operation behind the guarded clock, which changes no table.
pub with_now-IsSound {ℓ} :
    {A : Type ℓ} (s : Store) (env : Env) (run : Store → ℕ → Store × Result A)
    → IsSound s.db
    → ((s' : Store) (t : ℕ) → IsSound s'.db → IsSound (run s' t).0.db)
    → IsSound (with_now s env run).0.db
unfolding with_now
with_now-IsSound s env run h k =
    let s' = record s { queue = (now s.queue env.wall env.monotonic).0 } in
    at_time-IsSound s' (now s.queue env.wall env.monotonic).1 run h (λ t. k s' t h)

pub All-const : (xs : List Delivery) → All (λ x. Unit {0}) xs
All-const [] = tt
All-const (x ∷ xs) = (tt, All-const xs)

renew_body-IsSound :
    (s : Store) (l : QueueLease) (seconds time : ℕ)
    → IsSound s.db
    → Kept IsSound (renew_body s l seconds time)
unfolding renew_body
renew_body-IsSound s l seconds time h = Kept-bind IsSound (check_lease s.db l s.lock) _ (λ phase _.
    Kept-bind IsSound (later time (seconds * 1000)) _ (λ until _.
      update-IsSound (λ x. Unit {0}) (has_id l.id)
        (λ d. record d { lease_until_ms = extend d.lease_until_ms until }) s.db (λ x. (refl, refl))
        (λ x b _ _ e. renew_row_sound b (extend x.lease_until_ms until) x e)
        (All-const s.db.deliveries) h))

pub queue_renew-IsSound :
    (s : Store) (env : Env) (l : QueueLease) (seconds : ℕ)
    → IsSound s.db
    → IsSound (queue_renew s env l seconds).0.db
unfolding queue_renew
queue_renew-IsSound s env l seconds h = elim (Bool-cases (within 1 3600 seconds)) [
  | inl e ↦ rw e (
      with_now-IsSound s env (λ s' t. transact s' env.commit (renew_body s' l seconds t)) h
        (λ s' t h'.
          Kept-transact IsSound s' env.commit (renew_body s' l seconds t) h'
            (renew_body-IsSound s' l seconds t h')))
  | inr e ↦ rw e h
]

mark_body_body-IsSound :
    (s : Store) (l : QueueLease) → IsSound s.db → Kept IsSound (mark_body_body s l)
unfolding mark_body_body IsSound
mark_body_body-IsSound s l h = Kept-bind IsSound (check_lease s.db l s.lock) _ (λ phase _.
    let marked : Db = record s.db {
      leases = update (lease_of l.id) (λ x. record x { phase = body }) s.db.leases;
    } in
    (
      h.0,
      All-mono (IsSoundRow s.db) (IsSoundRow marked) s.db.deliveries
          (λ d e.
            simp
              (find-update d.id (lease_of l.id) (λ x. record x { phase = body }) s.db.leases
                (λ x. refl))
              e)
          h.1,
    ))

pub queue_mark_body-IsSound :
    (s : Store) (env : Env) (l : QueueLease) → IsSound s.db → IsSound (queue_mark_body s env l).0.db
unfolding queue_mark_body
queue_mark_body-IsSound s env l h =
    Kept-transact IsSound s env.commit (mark_body_body s l) h (mark_body_body-IsSound s l h)
