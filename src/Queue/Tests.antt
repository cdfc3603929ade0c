-- ===== src/Queue/Tests.antt =====
-- The theorems on the queue at a store with one leased delivery and one that waits.
use rustymail.Base.{
  true, length, ℕ, Option, arith, ◌≡◌, ◌≤◌, ◌*◌, refl, false, none, some, List, [], ◌∷◌,
}
use rustymail.Bytes.{Bytes, codes, equal, is_alphanumeric, to_lower}
use rustymail.Address.{parse, valid_domain}
use rustymail.Queue.Rows.{
  Delivery, Store, Env, QueueLease, ok, State, relay, import, notification_pending, ready,
  seven_bit, done, QueueResult,
}
use rustymail.Queue.Table.{find}
use rustymail.Queue.Clock.Steady.{times, IsSteady, times-opened}
use rustymail.Queue.Claim.{claim_at, queue_claim}
use rustymail.Queue.Claim.Yields.{Yields}
use rustymail.Queue.Claim.Bounds.{leases_in}
use rustymail.Queue.Claim.Capacity.{IsWithin, claim_at-IsWithin, queue_claim-within}
use rustymail.Queue.Policy.{default_policy, validate, delay_ms}
use rustymail.Queue.Policy.Delay.{delay_ms_bounds}
use rustymail.Queue.Lease.{queue_renew, queue_mark_body, queue_finish}
use rustymail.Queue.Lease.Fence.{IsHolder, IsStale, IsRefused, stale-IsRefused}
use rustymail.Queue.Integrity.{IsSound}
use rustymail.Queue.Integrity.History.{Call, execute_all, execute_all-IsSound}

abbrev first_id : Bytes
first_id = codes "00000000000000000000000000000001"

abbrev second_id : Bytes
second_id = codes "00000000000000000000000000000002"

abbrev token : Bytes
token = codes "0123456789abcdef0123456789abcdef"

abbrev waiting : Delivery
waiting = record {
  id = second_id;
  message_id = codes "m";
  recipient = codes "a@example.com";
  route = relay;
  destination_domain = codes "example.com";
  state = State.pending;
  attempts = 0;
  next_attempt_at_ms = 1000;
  expires_at_ms = 5000;
  lease_token = none;
  lease_until_ms = none;
  generation = 0;
  last_smtp_code = none;
  diagnostic = none;
  lifecycle_reason = none;
  possibly_delivered = false;
  closed_at_ms = none;
  notification_state = notification_pending;
  notification_error = none;
  notification_due_ms = 0;
}

abbrev in_flight : Delivery
in_flight = record waiting {
  id = first_id;
  state = State.leased;
  attempts = 1;
  generation = 1;
  lease_token = some token;
  lease_until_ms = some 300000;
}

abbrev lease : QueueLease
lease = record {
  id = first_id;
  token = token;
  generation = 1;
  lock = 7;
  domain = codes "example.com";
  retry_ms = 1800000;
  message_id = codes "m";
  recipient = record { text = codes "a@example.com" };
  sender = none;
  body = seven_bit;
  blob_id = codes "b";
  stored_size = 10;
  submission = false;
}

abbrev store : Store
store = record {
  lock = 7;
  db = record {
    deliveries = in_flight ∷ waiting ∷ [];
    leases = record { delivery_id = first_id; phase = ready } ∷ [];
    messages = [];
    blobs = [];
    queue_messages =
        record { message_id = codes "m"; body_mode = seven_bit; max_age_seconds = 60 } ∷ [];
    notifications = [];
    admin_events = [];
  };
  queue = record {
    active = [];
    ready_cursor = none;
    recovery_cursor = [];
    clock = none;
    last_wall = none;
    clock_changed = false;
  };
}

abbrev env : Env
env = record { wall = some 9000; wall_again = some 9000; monotonic = 0; commit = done }

abbrev hash : Bytes → ℕ → ℕ
hash id attempts = 12345

abbrev tokens : ℕ → ℕ → Bytes
tokens k i = token

-- The waiting delivery is claimed by a store that still owns the other one, the peer is lost behind
-- the body boundary, and the operator closes the unknown outcome.
abbrev second_lease : QueueLease
second_lease = record lease { id = second_id }

abbrev owner : Store
owner = record store {
  db = record store.db {
    messages =
        record {
          id = codes "m";
          ingest_key = [];
          blob_id = codes "b";
          source = import;
          reverse_path = [];
          authenticated_account_id = none;
          accepted_at_ms = 0;
        }
        ∷ [];
    blobs = record { id = codes "b"; size_bytes = 10; sha256 = []; created_at_ms = 0 } ∷ [];
    queue_messages =
        record { message_id = codes "m"; body_mode = seven_bit; max_age_seconds = 60 } ∷ [];
  };
  queue = record store.queue {
    active =
        record { key = first_id; token = token; domain = codes "example.com"; strong_count = 1 }
        ∷ [];
  };
}

abbrev early : Env
early = record { wall = some 2000; wall_again = some 2000; monotonic = 0; commit = done }

abbrev later_on : Env
later_on = record { wall = some 3000; wall_again = some 3000; monotonic = 1000; commit = done }

abbrev lost : List (Env × Call)
lost =
    (early, Call.claim 0 early early default_policy 5)
    ∷ (early, Call.mark_body second_lease)
    ∷ (early, Call.finish second_lease QueueResult.connection_lost)
    ∷ (early, Call.close_unknown second_id (codes "checked"))
    ∷ (early, Call.expire 10)
    ∷ []

owner-IsSound : IsSound owner.db
unfolding IsSound equal find
owner-IsSound = ((refl, (refl, tt)), (refl, (refl, tt)))

states : Store → List State
states s = go s.db.deliveries
  where
    go : List Delivery → List State
    go [] = []
    go (d ∷ ds) = d.state ∷ go ds

lost-states : states (execute_all hash tokens owner lost) ≡ State.leased ∷ State.uncertain ∷ []
unfolding states execute_all equal parse is_alphanumeric valid_domain to_lower
lost-states = refl

-- a delivery that was put off is claimed again, since the guard of its first lease is gone
abbrev put_off : List (Env × Call)
put_off =
    (early, Call.claim 0 early early default_policy 5)
    ∷ (early, Call.finish (record second_lease { retry_ms = 100 }) (QueueResult.temporary 450))
    ∷ (later_on, Call.claim 1 later_on later_on default_policy 5)
    ∷ []

put_off-states : states (execute_all hash tokens owner put_off) ≡ State.leased ∷ State.leased ∷ []
unfolding states execute_all equal parse is_alphanumeric valid_domain to_lower
put_off-states = refl

execute_all-IsSound_example : IsSound (execute_all hash tokens owner lost).db
execute_all-IsSound_example = execute_all-IsSound hash tokens (λ k i. refl) owner lost owner-IsSound

abbrev old_lease : QueueLease
old_lease = record lease { generation = 0 }

old_lease-IsStale : IsStale old_lease store.db
old_lease-IsStale = (not_old, (not_leased, tt))
  where
    not_old : IsHolder old_lease in_flight → ⊥
    not_old (a, b, c, d, e) = omega (arith, e)

    not_leased : IsHolder old_lease waiting → ⊥
    not_leased (a, b, c, d, e) = ground (arith, c)

stale-IsRefused_example :
    IsRefused store.db (queue_renew store env old_lease 60)
    × (IsRefused store.db (queue_mark_body store env old_lease)
        × IsRefused store.db (queue_finish store env old_lease (QueueResult.delivered 250)))
stale-IsRefused_example =
    stale-IsRefused store env old_lease 60 (QueueResult.delivered 250) old_lease-IsStale

default_policy-valid : validate default_policy ≡ ok tt
unfolding validate
default_policy-valid = refl

delay_ms_bounds_example :
    (3600000 ≤ delay_ms (λ id n. 12345) default_policy first_id 2)
    × (2 * delay_ms (λ id n. 12345) default_policy first_id 2 ≤ 10800000)
    × (1000 ≤ delay_ms (λ id n. 12345) default_policy first_id 2)
    × (delay_ms (λ id n. 12345) default_policy first_id 2 ≤ 129600000)
delay_ms_bounds_example =
    delay_ms_bounds (λ id n. 12345) default_policy first_id 2 default_policy-valid

queue_claim-within_example :
    Yields
      (λ ls. (length ls ≤ 5) × (length ls ≤ 16) × (leases_in (codes "example.com") ls ≤ 2))
      (queue_claim hash (tokens 0) owner early early early default_policy 5).1
queue_claim-within_example =
    queue_claim-within hash (tokens 0) owner early early early default_policy 5
      (codes "example.com")

claim_at-IsWithin_example :
    Yields
      (IsWithin owner default_policy 5 (codes "example.com"))
      (claim_at hash (tokens 0) owner early default_policy 5 2000).1
claim_at-IsWithin_example =
    claim_at-IsWithin hash (tokens 0) owner early default_policy 5 2000 (codes "example.com")

-- a step back of the wall clock stops the queue
abbrev readings : List (Option ℕ × ℕ)
readings = (some 2500, 500) ∷ (none, 600) ∷ (some 2400, 700) ∷ (some 3000, 1000) ∷ []

times-readings : times store.queue ((some 2000, 0) ∷ readings) ≡ (2000, 0) ∷ (2500, 500) ∷ []
unfolding times
times-readings = refl

times-opened_example :
    (rest : List (ℕ × ℕ)) × (times store.queue ((some 2000, 0) ∷ readings) ≡ (2000, 0) ∷ rest)
    × IsSteady (2000, 0) 2000 rest
times-opened_example = times-opened store.queue 2000 0 readings (refl, refl, refl)

abbrev unknown : Delivery
unknown = record waiting { state = State.uncertain; possibly_delivered = true }

abbrev unsettled : Store
unsettled = record owner { db = record owner.db { deliveries = unknown ∷ [] } }
