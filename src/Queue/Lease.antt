-- ===== src/Queue/Lease.antt =====
-- crates/store/src/queue.rs: what the owner of a lease may do: renew it, mark the body boundary,
-- record the result of the attempt.
pub mod Fence
use Prim.Native.String.{String}
use rustymail.Base.{
  ℕ, ◌+◌, ◌-◌, ◌*◌, Bool, true, false, not, ◌&&◌, ◌||◌, List, [], ◌∷◌, Option, none, some, ltb, leb,
  within, ◌==◌, if◌then◌else◌,
}
use rustymail.Bytes.{Bytes, equal}
use rustymail.Queue.Rows.{
  Active, Delivery, LeaseRow, Phase, ready, body, Db, Store, QueueLease, Env, Commit, QueueResult,
  State, uncertain, failed, Reason, smtp_permanent, content, Result, ok, err, ok_or, ◌>>=◌,
  stale_lease, invalid_input, database, StoreError, clock_changed,
}
use rustymail.Queue.Rows
use rustymail.Queue.Table.{
  has_id, is_relay, is_leased, find, find_lease, lease_of, update, set_delivery, delete_lease,
  transact, later, saturating_add,
}
use rustymail.Queue.Clock.{now, now_ms}

-- lease_token=?2
abbrev pub has_token : Bytes → Option Bytes → Bool
has_token token none = false
has_token token (some t) = equal t token

-- the WHERE clause of `check_lease` on the delivery
abbrev pub held_by : QueueLease → Delivery → Bool
held_by lease d =
    has_id lease.id d
    && is_relay d.route
    && is_leased d.state
    && has_token lease.token d.lease_token
    && d.generation == lease.generation

-- `check_lease`: the phase of the row joined to the delivery
unfoldable pub check_held : Db → QueueLease → Option Delivery → Result Phase
check_held db lease none = err stale_lease
check_held db lease (some d) = ok_or (find_lease d.id db.leases) stale_lease >>= λ l. ok l.phase

unfoldable pub check_lease : Db → QueueLease → ℕ → Result Phase
unfolding check_held find
check_lease db lease lock =
    if not (lock == lease.lock)
    then err stale_lease
    else check_held db lease (find (held_by lease) db.deliveries)

-- `max(lease_until_ms, ?2)`; SQL's max of NULL is NULL
abbrev pub extend : Option ℕ → ℕ → Option ℕ
extend none until = none
extend (some old) until = some (if leb old until then until else old)

unfoldable pub renew_body : Store → QueueLease → ℕ → ℕ → Result (Db × Unit {0})
unfolding check_lease later update
renew_body s lease seconds time = do
  phase ← check_lease s.db lease s.lock
  until ← later time (seconds * 1000)
  ok (
    set_delivery lease.id (λ d. record d { lease_until_ms = extend d.lease_until_ms until }) s.db,
    tt,
  )

-- an operation that reads the queue's guarded clock first
unfoldable pub at_time {ℓ} :
    {A : Type ℓ} → Store → Result ℕ → (Store → ℕ → Store × Result A) → Store × Result A
at_time s (err e) run = (s, err e)
at_time s (ok time) run = run s time

unfoldable pub with_now {ℓ} :
    {A : Type ℓ} → Store → Env → (Store → ℕ → Store × Result A) → Store × Result A
unfolding now at_time
with_now s env run =
    let (q, time) = now s.queue env.wall env.monotonic in at_time (record s { queue = q }) time run

unfoldable pub queue_renew : Store → Env → QueueLease → ℕ → Store × Result (Unit {0})
unfolding renew_body transact with_now
queue_renew s env lease seconds =
    if not (within 1 3600 seconds)
    then (s, err invalid_input)
    else with_now s env (λ s' time. transact s' env.commit (renew_body s' lease seconds time))

unfoldable pub mark_body_body : Store → QueueLease → Result (Db × Unit {0})
unfolding check_lease update
mark_body_body s lease = do
  phase ← check_lease s.db lease s.lock
  ok (
    record s.db {
      leases = update (lease_of lease.id) (λ l. record l { phase = body }) s.db.leases;
    },
    tt,
  )

-- Persisted before any byte of the message body is written to the remote peer.
unfoldable pub queue_mark_body : Store → Env → QueueLease → Store × Result (Unit {0})
unfolding mark_body_body transact
queue_mark_body s env lease = transact s env.commit (mark_body_body s lease)

-- state, code and diagnostic of a finished attempt
pub record Verdict : Type 0 where
  pub state : State
  pub code : Option ℕ
  pub diagnostic : String

abbrev verdict : State → Option ℕ → String → Result Verdict
verdict state code diagnostic = ok (record { state = state; code = code; diagnostic = diagnostic })

-- `code` in `lo..lo + 100`
abbrev pub in_class : ℕ → ℕ → Bool
in_class lo code = leb lo code && ltb code (lo + 100)

-- the `match` on the outcome, by the phase of the lease
unfoldable pub classify : QueueResult → Phase → Result Verdict
classify (QueueResult.delivered code) body =
    if in_class 200 code
    then verdict State.delivered (some code) "remote accepted"
    else err invalid_input
classify (QueueResult.delivered code) ready = err invalid_input
classify (QueueResult.temporary code) phase =
    if in_class 400 code
    then verdict State.deferred (some code) "temporary SMTP rejection"
    else err invalid_input
classify (QueueResult.permanent code) phase =
    if in_class 500 code
    then verdict State.failed (some code) "permanent SMTP rejection"
    else err invalid_input
classify QueueResult.connection_lost body =
    verdict State.uncertain none "connection lost after body boundary"
classify QueueResult.connection_lost ready =
    verdict State.deferred none "connection lost before body boundary"
classify QueueResult.hold phase =
    verdict State.hold none "local outbound content or capability failure"
classify QueueResult.deferred ready =
    verdict State.deferred none "relay setup or authentication unavailable"
classify QueueResult.deferred body = err invalid_input

unfoldable pub reason_of : QueueResult → Option Reason
reason_of (QueueResult.permanent _) = some smtp_permanent
reason_of QueueResult.hold = some content
reason_of _ = none

abbrev pub is_delivered : State → Bool
is_delivered State.delivered = true
is_delivered _ = false

abbrev pub is_uncertain : State → Bool
is_uncertain State.uncertain = true
is_uncertain _ = false

-- an earlier unknown outcome is settled by a delivery alone
unfoldable pub settle_unknown : Bool → Verdict → Verdict
settle_unknown was_unknown v =
    if was_unknown && not (is_delivered v.state)
    then record v { state = uncertain; diagnostic = "retry ended; earlier outcome remains unknown" }
    else v

-- the UPDATE of `queue_finish`
unfoldable pub finish_row : Verdict → Option Reason → ℕ → ℕ → Delivery → Delivery
finish_row v reason next_attempt notification_due d = record d {
  state = v.state;
  lease_token = none;
  lease_until_ms = none;
  last_smtp_code = v.code;
  diagnostic = some v.diagnostic;
  next_attempt_at_ms = next_attempt;
  lifecycle_reason = reason;
  possibly_delivered = is_uncertain v.state;
  notification_due_ms = notification_due;
}

unfoldable pub finish_body : Store → QueueLease → QueueResult → ℕ → ℕ → Result (Db × Unit {0})
unfolding check_lease find classify settle_unknown finish_row reason_of saturating_add update
finish_body s lease outcome time notification_due = do
  phase ← check_lease s.db lease s.lock
  d ← ok_or (find (has_id lease.id) s.db.deliveries) database
  v ← classify outcome phase
  let row =
      finish_row (settle_unknown d.possibly_delivered v) (reason_of outcome)
        (saturating_add time lease.retry_ms) notification_due
  ok (delete_lease lease.id (set_delivery lease.id row s.db), tt)

-- the time for the report: the guarded clock, or the last good reading when that has stopped
abbrev pub report_time : Store → ℕ → Result ℕ → Result ℕ
report_time s time (ok t) = ok t
report_time s time (err clock_changed) = ok (elim s.queue.last_wall [ none ↦ time | some t ↦ t ])
report_time s time (err e) = err e

unfoldable pub finish_at :
    Store → Commit → QueueLease → QueueResult → ℕ → Result ℕ → Store × Result (Unit {0})
unfolding finish_body transact
finish_at s c lease outcome time (err e) = (s, err e)
finish_at s c lease outcome time (ok due) = transact s c (finish_body s lease outcome time due)

-- behind the first reading of the wall clock
unfoldable pub finish_with :
    Store → Env → QueueLease → QueueResult → Result ℕ → Store × Result (Unit {0})
unfolding finish_at now
finish_with s env lease outcome (err e) = (s, err e)
finish_with s env lease outcome (ok time) =
    let (q, guarded) = now s.queue env.wall_again env.monotonic in
    let s' = record s { queue = q } in
    finish_at s' env.commit lease outcome time (report_time s' time guarded)

-- the entry of `active` for the guard of a lease
abbrev pub is_guard : QueueLease → Active → Bool
is_guard lease a = equal a.key lease.id && equal a.token lease.token

-- an owner of the guard more, for the clone that a reader of the body takes
unfoldable pub clone_guard : QueueLease → Store → Store
unfolding update
clone_guard lease s = record s {
  queue = record s.queue {
    active =
        update (is_guard lease) (λ (a : Active). record a { strong_count = a.strong_count + 1 })
          s.queue.active;
  };
}

-- an owner of the guard less: a lease or a reader of the body is dropped
unfoldable pub drop_guard : QueueLease → Store → Store
unfolding update
drop_guard lease s = record s {
  queue = record s.queue {
    active =
        update (is_guard lease) (λ (a : Active). record a { strong_count = a.strong_count - 1 })
          s.queue.active;
  };
}

-- takes the lease by value, so that it is dropped in the end
unfoldable pub queue_finish : Store → Env → QueueLease → QueueResult → Store × Result (Unit {0})
unfolding finish_with drop_guard
queue_finish s env lease outcome =
    let (left, result) = finish_with s env lease outcome (now_ms env.wall) in
    (drop_guard lease left, result)
