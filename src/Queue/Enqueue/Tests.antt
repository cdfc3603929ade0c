-- ===== src/Queue/Enqueue/Tests.antt =====
-- An operation that is enqueued twice.
use rustymail.Base.{ℕ, ◌==◌, if◌then◌else◌, ◌≡◌, refl, true, false, none, some, [], ◌∷◌}
use rustymail.Bytes.{Bytes, codes, equal}
use rustymail.Queue.Rows.{Store, Env, seven_bit, done, ok, err, idempotency_conflict}
use rustymail.Queue.Claim.Yields.{Yields}
use rustymail.Queue.Enqueue.{QueuePlan, PreparedMessage, AcceptedMessage, enqueue}
use rustymail.Queue.Enqueue.Once.{IsReplay, enqueue-once}

abbrev empty : Store
empty = record {
  lock = 1;
  db = record {
    deliveries = [];
    leases = [];
    messages = [];
    blobs = [];
    queue_messages = [];
    notifications = [];
    admin_events = [];
  };
  queue = record {
    active = [];
    ready_cursor = none;
    recovery_cursor = [];
    clock = none;
    last_wall = none;
    clock_changed = false;
  };
}

abbrev env : Env
env = record { wall = some 1000; wall_again = some 1000; monotonic = 0; commit = done }

abbrev prepared : PreparedMessage
prepared = record { root = codes "/d"; id = codes "b1"; size = 3; hash = codes "h" }

abbrev plan : QueuePlan
plan = record {
  operation_id = codes "000000000000000000000000000000aa";
  sender = none;
  recipients =
      record { text = codes "b@example.com" } ∷ record { text = codes "a@example.com" } ∷ [];
  body = seven_bit;
  max_age_seconds = 60;
}

abbrev ids : ℕ → Bytes
ids i =
    if i == 0
    then codes "000000000000000000000000000000d1"
    else codes "000000000000000000000000000000d2"

abbrev accepted : AcceptedMessage
accepted = record { message_id = codes "m1"; already_committed = false }

abbrev first : Store
first = (enqueue ids (codes "m1") (codes "/d") empty env prepared plan).0

enqueue-accepted : (enqueue ids (codes "m1") (codes "/d") empty env prepared plan).1 ≡ ok accepted
unfolding enqueue equal
enqueue-accepted = refl

-- the same message again, and another one
enqueue-again :
    ((enqueue ids (codes "m2") (codes "/d") first env prepared plan).1
      ≡ ok (record { message_id = codes "m1"; already_committed = true }))
    × ((enqueue ids (codes "m2") (codes "/d") first env (record prepared { size = 4 }) plan).1
        ≡ err idempotency_conflict)
unfolding enqueue equal
enqueue-again = (refl, refl)

enqueue-once_example :
    Yields
      (λ a.
        IsReplay first a.message_id
          (enqueue ids (codes "m2") (codes "/d") first env (record prepared { size = 4 }) plan))
      (enqueue ids (codes "m1") (codes "/d") empty env prepared plan).1
enqueue-once_example =
    enqueue-once ids ids (codes "m1") (codes "m2") (codes "/d") empty env env prepared
      (record prepared { size = 4 }) plan plan refl
