-- ===== src/Queue/Integrity.antt =====
-- The checks on rows in `queue_integrity_mismatches` of crates/store/src/queue.rs.
pub mod Select
pub mod Row
pub mod Kept
pub mod Owner
pub mod Batch
pub mod Recovery
pub mod Operator
pub mod Keyed
pub mod Leasing
pub mod Leased
pub mod History
use rustymail.Base.{
  ℕ, ◌≡◌, Bool, true, false, not, ◌&&◌, ◌||◌, List, [], ◌∷◌, Option, none, some, ◌==◌, is_some,
  length, any, All,
}
use rustymail.Bytes.{Bytes, equal}
use rustymail.Queue.Rows.{
  Delivery, Db, State, failed, NotificationState, notification_created, QueueMessage,
  NotificationRow,
}
use rustymail.Queue.Table.{has_id, is_relay, is_leased, find_lease}
use rustymail.Queue.Lease.{is_uncertain}

-- != on truth values
abbrev pub differ : Bool → Bool → Bool
differ true b = not b
differ false b = b

-- a lease token that is there has 32 characters
abbrev pub bad_token : Option Bytes → Bool
bad_token none = false
bad_token (some t) = not (length t == 32)

abbrev pub is_failed : State → Bool
is_failed failed = true
is_failed _ = false

abbrev pub is_created : NotificationState → Bool
is_created notification_created = true
is_created _ = false

-- What the tables joined to a delivery have for it: a row of queue_lease, of queue_message, of notification.
pub record Joins : Type 0 where
  pub has_lease : Bool
  pub has_message : Bool
  pub has_report : Bool

abbrev pub joins_of : Db → Bytes → Bytes → Joins
joins_of db id message_id = record {
  has_lease = is_some (find_lease id db.leases);
  has_message = any (λ (m : QueueMessage). equal m.message_id message_id) db.queue_messages;
  has_report = any (λ (n : NotificationRow). equal n.delivery_id id) db.notifications;
}

abbrev pub joins : Db → Delivery → Joins
joins db d = joins_of db d.id d.message_id

-- the WHERE clauses on one delivery
unfoldable pub mismatch : Joins → Delivery → Bool
mismatch j d =
    (is_relay d.route
      && (not j.has_message
          || differ (is_leased d.state) j.has_lease
          || differ (is_leased d.state) (is_some d.lease_token)
          || bad_token d.lease_token))
    || (not (is_relay d.route) && j.has_lease)
    || differ (is_created d.notification_state) j.has_report
    || (is_some d.closed_at_ms && (not (is_uncertain d.state) || not d.possibly_delivered))
    || (is_failed d.state && d.possibly_delivered)

-- The row has no mismatch.
abbrev pub IsSoundRow : Db → Delivery → Type 0
IsSoundRow db d = mismatch (joins db d) d ≡ false

-- the row of the lease gone
abbrev pub unleased : Joins → Joins
unleased j = record j { has_lease = false }

-- id is the primary key of delivery
abbrev pub Keyed : List Delivery → Type 0
Keyed [] = Unit
Keyed (d ∷ ds) = (any (has_id d.id) ds ≡ false) × Keyed ds

-- Every delivery has an id of its own and no mismatch.
unfoldable pub IsSound : Db → Type 0
unfolding mismatch
IsSound db = Keyed db.deliveries × All (IsSoundRow db) db.deliveries
