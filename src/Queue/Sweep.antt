-- ===== src/Queue/Sweep.antt =====
-- crates/store/src/queue.rs: the bounded batches over waiting and leased rows: expiry and recovery.
use rustymail.Base.{
  ℕ, ◌+◌, Bool, true, false, not, ◌&&◌, ◌||◌, List, [], ◌∷◌, Option, none, some, ltb, leb, within,
  is_some, ◌==◌, if◌then◌else◌, length, map, any,
}
use rustymail.Bytes.{Bytes, equal, is_empty}
use rustymail.Queue.Rows.{
  Delivery, LeaseRow, ready, body, Db, Store, Active, Env, Commit, uncertain, failed, deferred,
  expired, Result, ok, err, ◌>>=◌, invalid_input,
}
use rustymail.Queue.Table.{
  less, earlier, select, find, find_lease, order_by, limit, is_relay, is_leased, is_waiting,
  set_delivery, delete_lease, transact, later,
}
use rustymail.Queue.Clock.{now_ms}
use rustymail.Queue.Policy.{batch}
use rustymail.Queue.Lease.{with_now}

-- the CASEs of the UPDATE of `queue_expire`
unfoldable pub expire_row : ℕ → Delivery → Delivery
expire_row time d = record d {
  state = if d.possibly_delivered then uncertain else failed;
  lifecycle_reason = some expired;
  diagnostic = some (
      if d.possibly_delivered
      then "expired retry; earlier outcome remains unknown"
      else "delivery lifetime exceeded");
  notification_due_ms = time;
}

-- WHERE of the rows that have expired
abbrev pub is_expired : ℕ → Delivery → Bool
is_expired time d = is_relay d.route && is_waiting d.state && leb d.expires_at_ms time

abbrev pub expired_ids : ℕ → ℕ → Db → List Bytes
expired_ids time n db =
    map (λ (d : Delivery). d.id)
      (limit n (
        order_by (λ (a b : Delivery). earlier (a.expires_at_ms, a.id) (b.expires_at_ms, b.id))
          (select (is_expired time) db.deliveries)))

unfoldable pub expire_all : ℕ → List Bytes → Db → Db
unfolding expire_row
expire_all time [] db = db
expire_all time (id ∷ ids) db = expire_all time ids (set_delivery id (expire_row time) db)

-- With nothing to expire the transaction is dropped.
unfoldable pub expire_at : Store → Commit → ℕ → ℕ → Store × Result ℕ
unfolding expire_all transact select order_by limit
expire_at s c n time =
    let ids = expired_ids time n s.db in
    if is_empty ids then (s, ok 0) else transact s c (ok (expire_all time ids s.db, length ids))

unfoldable pub queue_expire : Store → Env → ℕ → Store × Result ℕ
unfolding expire_at with_now
queue_expire s env n =
    if not (within 1 batch n)
    then (s, err invalid_input)
    else with_now s env (λ s' time. expire_at s' env.commit n time)

-- a row of the scan: the id, and whether the attempt may have delivered
abbrev pub is_body : Option LeaseRow → Bool
is_body none = false
is_body (some l) = elim l.phase [ ready ↦ false | body ↦ true ]

abbrev pub is_recoverable : Bytes → Db → Delivery → Bool
is_recoverable cursor db d =
    is_relay d.route && is_leased d.state && is_some (find_lease d.id db.leases) && less cursor d.id

abbrev pub unknown_outcome : Db → Delivery → Bool
unknown_outcome db d = is_body (find_lease d.id db.leases) || d.possibly_delivered

abbrev pub recovery_rows : Bytes → ℕ → Db → List (Bytes × Bool)
recovery_rows cursor n db =
    map (λ (d : Delivery). (d.id, unknown_outcome db d))
      (limit n (
        order_by (λ (a b : Delivery). less a.id b.id)
          (select (is_recoverable cursor db) db.deliveries)))

-- `active.contains_key(id)`
abbrev pub is_active : Bytes → List Active → Bool
is_active id active = any (λ (a : Active). equal a.key id) active

-- the UPDATE of `queue_recover`
unfoldable pub recover_row : Bool → ℕ → Delivery → Delivery
recover_row unknown next_attempt d = record d {
  state = if unknown then uncertain else deferred;
  lease_token = none;
  lease_until_ms = none;
  next_attempt_at_ms = next_attempt;
  last_smtp_code = none;
  diagnostic = some "attempt owner disappeared";
  possibly_delivered = unknown;
}

-- one pass over the rows, with the count of the recovered ones
unfoldable pub recover_all : List Active → ℕ → List (Bytes × Bool) → ℕ → Db → Result (Db × ℕ)
unfolding recover_row later
recover_all active time [] n db = ok (db, n)
recover_all active time ((id, unknown) ∷ rows) n db =
    let skipped = recover_all active time rows n db in
    let taken = later time 1800000 >>= λ next.
    recover_all active time rows (n + 1)
      (delete_lease id (set_delivery id (recover_row unknown next) db)) in
    if is_active id active then skipped else taken

abbrev pub last_id : List (Bytes × Bool) → Bytes
last_id [] = []
last_id ((id, _) ∷ []) = id
last_id (_ ∷ r ∷ rs) = last_id (r ∷ rs)

-- `active.retain(|_, weak| weak.strong_count() > 0)`
abbrev pub retain_owned : Store → Store
retain_owned s = record s {
  queue = record s.queue { active = select (λ (a : Active). ltb 0 a.strong_count) s.queue.active };
}

-- the cursor moves on only when the operation has not returned with an error
abbrev pub move_cursor : List (Bytes × Bool) → ℕ → Store × Result ℕ → Store × Result ℕ
move_cursor rows n (s, err e) = (s, err e)
move_cursor rows n (s, ok count) = (
  record s {
    queue = record s.queue { recovery_cursor = if length rows == n then last_id rows else [] };
  },
  ok count,
)

-- a scan that recovers nothing is rolled back
unfoldable pub finish_recovery : Store → Commit → Result (Db × ℕ) → Store × Result ℕ
unfolding transact
finish_recovery s c (err e) = (s, err e)
finish_recovery s c (ok (db, n)) = if n == 0 then (s, ok 0) else transact s c (ok (db, n))

unfoldable pub recover_at : Store → Commit → ℕ → ℕ → Store × Result ℕ
unfolding recover_all finish_recovery select find order_by limit less
recover_at s c n time =
    let rows = recovery_rows s.queue.recovery_cursor n s.db in
    move_cursor rows n (finish_recovery s c (recover_all s.queue.active time rows 0 s.db))

unfoldable pub recover_with : Store → Env → ℕ → Result ℕ → Store × Result ℕ
unfolding recover_at
recover_with s env n (err e) = (s, err e)
recover_with s env n (ok time) = recover_at s env.commit n time

-- `Vec::last().expect(..)` is reached with a full batch of at least one row.
unfoldable pub queue_recover : Store → Env → ℕ → Store × Result ℕ
unfolding recover_with select
queue_recover s env n =
    if not (within 1 batch n)
    then (s, err invalid_input)
    else recover_with (retain_owned s) env n (now_ms env.wall)
