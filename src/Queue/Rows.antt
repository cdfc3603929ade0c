-- ===== src/Queue/Rows.antt =====
-- The rows of crates/store/schema.sql that the queue works on, `StoreError` of
-- crates/store/src/lib.rs, and the types of crates/store/src/queue.rs. A time is a count of
-- milliseconds, which `StorageRuntime::now_ms` keeps from being negative; a text column that a CHECK
-- limits to an enumeration is that enumeration.
use Prim.Native.String.{String}
use rustymail.Base.{ℕ, ◌-◌, ◌^◌, Bool, List, Option}
use rustymail.Bytes.{Bytes}
use rustymail.Address.{Address}

abbrev pub i64_max : ℕ
i64_max = 2 ^ 63 - 1

pub data StoreError : Type 0 where
  permission_denied io database locked unsafe_path unsafe_permissions invalid_id : StoreError
  unsupported_schema initialization_outcome_unknown maintenance_busy already_exists : StoreError
  integrity size_limit disk_reserve poisoned_stage recipient_unavailable quota : StoreError
  uid_exhausted idempotency_conflict outcome_unknown not_found invalid_input : StoreError
  worker_unavailable stale_lease queue_outcome_unknown clock_changed : StoreError

pub data Result {ℓ} (A : Type ℓ) : Type ℓ where
  ok : A → Result A
  err : StoreError → Result A

-- `?`
module _ {ℓ κ} {T : Type ℓ} {U : Type κ} where
  infixl 5 ◌>>=◌
  abbrev pub ◌>>=◌ : Result T → (T → Result U) → Result U
  err e >>= next = err e
  ok t >>= next = next t

abbrev pub ok_or {ℓ} : {A : Type ℓ} → Option A → StoreError → Result A
ok_or Option.none e = err e
ok_or (Option.some a) e = ok a

pub data Route : Type 0 where
  local relay direct : Route

pub data State : Type 0 where
  pending leased deferred uncertain delivered failed hold : State

pub data Reason : Type 0 where
  smtp_permanent expired content counter manual : Reason

pub data NotificationState : Type 0 where
  notification_pending notification_created notification_suppressed : NotificationState

pub record Delivery : Type 0 where
  pub id : Bytes
  pub message_id : Bytes
  pub recipient : Bytes
  pub route : Route
  pub destination_domain : Bytes
  pub state : State
  pub attempts : ℕ
  pub next_attempt_at_ms : ℕ
  pub expires_at_ms : ℕ
  pub lease_token : Option Bytes
  pub lease_until_ms : Option ℕ
  pub generation : ℕ
  pub last_smtp_code : Option ℕ
  pub diagnostic : Option String
  pub lifecycle_reason : Option Reason
  pub possibly_delivered : Bool
  pub closed_at_ms : Option ℕ
  pub notification_state : NotificationState
  pub notification_error : Option String
  pub notification_due_ms : ℕ

-- the table queue_lease
pub data Phase : Type 0 where
  ready body : Phase

pub record LeaseRow : Type 0 where
  pub delivery_id : Bytes
  pub phase : Phase

pub data QueueBody : Type 0 where
  seven_bit eight_bit_mime : QueueBody

pub data Source : Type 0 where
  smtp submission append dsn import : Source

pub record Message : Type 0 where
  pub id : Bytes
  pub ingest_key : Bytes
  pub blob_id : Bytes
  pub source : Source
  pub reverse_path : Bytes
  pub authenticated_account_id : Option ℕ
  pub accepted_at_ms : ℕ

pub record Blob : Type 0 where
  pub id : Bytes
  pub size_bytes : ℕ
  pub sha256 : Bytes
  pub created_at_ms : ℕ

pub record QueueMessage : Type 0 where
  pub message_id : Bytes
  pub body_mode : QueueBody
  pub max_age_seconds : ℕ

-- the table notification, whose `kind` is always 'failure'
pub record NotificationRow : Type 0 where
  pub delivery_id : Bytes
  pub report_message_id : Bytes
  pub created_at_ms : ℕ

pub data AdminAction : Type 0 where
  hold_action retry_action close_unknown_action : AdminAction

pub record AdminEvent : Type 0 where
  pub delivery_id : Bytes
  pub action : AdminAction
  pub before_state : State
  pub after_state : State
  pub note : Bytes
  pub allow_duplicate : Bool
  pub extend_expired : Bool
  pub created_at_ms : ℕ

pub record Db : Type 0 where
  pub deliveries : List Delivery
  pub leases : List LeaseRow
  pub messages : List Message
  pub blobs : List Blob
  pub queue_messages : List QueueMessage
  pub notifications : List NotificationRow
  pub admin_events : List AdminEvent

-- An entry of `QueueRuntime::active`: a weak reference to a lease guard, with the count of its owners. The
-- guard is told from those of other leases by the token of its lease.
pub record Active : Type 0 where
  pub key : Bytes
  pub token : Bytes
  pub domain : Bytes
  pub strong_count : ℕ

pub record QueueRuntime : Type 0 where
  pub active : List Active
  pub ready_cursor : Option (ℕ × Bytes)
  pub recovery_cursor : Bytes
  pub clock : Option (ℕ × ℕ)
  pub last_wall : Option ℕ
  pub clock_changed : Bool

-- The store, by the lock of its instance.
pub record Store : Type 0 where
  pub lock : ℕ
  pub db : Db
  pub queue : QueueRuntime

pub record QueueLease : Type 0 where
  pub id : Bytes
  pub token : Bytes
  pub generation : ℕ
  pub lock : ℕ
  pub domain : Bytes
  pub retry_ms : ℕ
  pub message_id : Bytes
  pub recipient : Address
  pub sender : Option Address
  pub body : QueueBody
  pub blob_id : Bytes
  pub stored_size : ℕ
  pub submission : Bool

pub data QueueResult : Type 0 where
  delivered temporary permanent : ℕ → QueueResult
  connection_lost hold deferred : QueueResult

-- How a COMMIT ends: applied and reported, not applied, or applied with the report lost.
pub data Commit : Type 0 where
  done refused unacknowledged : Commit

-- What one operation meets outside the store: the two readings of the wall clock (`none` is the
-- clock's own error), the monotonic clock, and the end of its transaction.
pub record Env : Type 0 where
  pub wall : Option ℕ
  pub wall_again : Option ℕ
  pub monotonic : ℕ
  pub commit : Commit
