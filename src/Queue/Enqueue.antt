-- ===== src/Queue/Enqueue.antt =====
-- crates/store/src/queue.rs: `enqueue` and `insert_relay`. A `BTreeSet` of recipients is the sorted list
-- of its elements. The root directory of the prepared message stands for its store.
pub mod Once
mod Tests
use rustymail.Base.{
  ℕ, ◌+◌, ◌*◌, Bool, true, false, not, ◌&&◌, ◌||◌, List, [], ◌∷◌, ◌++◌, Option, none, some, ltb,
  leb, within, ◌==◌, if◌then◌else◌, length, map, any,
}
use rustymail.Bytes.{Bytes, equal, is_empty, rsplit_once}
use rustymail.Address.{Address}
use rustymail.Queue.Rows.{
  Delivery, Db, Store, Message, Blob, QueueMessage, QueueBody, seven_bit, eight_bit_mime, Source,
  import, Env, Commit, done, refused, unacknowledged, State, pending, relay, notification_pending,
  Result, ok, err, ok_or, ◌>>=◌, StoreError, database, invalid_input, idempotency_conflict,
  outcome_unknown,
}
use rustymail.Queue.Table.{valid_id, less, select, find, has_id, is_relay, later}
use rustymail.Queue.Clock.{now_ms}

pub record QueuePlan : Type 0 where
  pub operation_id : Bytes
  pub sender : Option Address
  pub recipients : List Address
  pub body : QueueBody
  pub max_age_seconds : ℕ

pub record PreparedMessage : Type 0 where
  pub root : Bytes
  pub id : Bytes
  pub size : ℕ
  pub hash : Bytes

pub record AcceptedMessage : Type 0 where
  pub message_id : Bytes
  pub already_committed : Bool

-- insertion into a `BTreeSet`
insert_text : Bytes → List Bytes → List Bytes
unfolding less
insert_text x [] = x ∷ []
insert_text x (y ∷ ys) =
    let rest = insert_text x ys in
    if equal x y then y ∷ ys else if less x y then x ∷ y ∷ ys else y ∷ rest

unfoldable pub to_set : List Bytes → List Bytes
unfolding insert_text
to_set [] = []
to_set (x ∷ xs) = insert_text x (to_set xs)

unfoldable pub same_set : List Bytes → List Bytes → Bool
same_set [] [] = true
same_set (x ∷ xs) (y ∷ ys) = equal x y && same_set xs ys
same_set _ _ = false

abbrev pub texts : List Address → List Bytes
texts as_given = map (λ (a : Address). a.text) as_given

abbrev pub sender_text : Option Address → Bytes
sender_text none = []
sender_text (some a) = a.text

abbrev pub same_body : QueueBody → QueueBody → Bool
same_body seven_bit seven_bit = true
same_body eight_bit_mime eight_bit_mime = true
same_body _ _ = false

abbrev pub is_import : Source → Bool
is_import import = true
is_import _ = false

-- the columns of the LEFT JOIN with queue_message
abbrev pub same_queued : QueuePlan → Option QueueMessage → Bool
same_queued plan none = false
same_queued plan (some q) =
    same_body q.body_mode plan.body && q.max_age_seconds == plan.max_age_seconds

-- the recipients of a message that is queued
abbrev pub relayed_to : Bytes → Db → List Bytes
relayed_to id db = to_set (
    map (λ (d : Delivery). d.recipient)
      (select (λ (d : Delivery). equal d.message_id id && is_relay d.route) db.deliveries))

-- the test of an operation that has been accepted before
unfoldable pub same_operation :
    PreparedMessage → QueuePlan → Message → Blob → Option QueueMessage → Db → Bool
unfolding to_set same_set select
same_operation prepared plan m b q db =
    is_import m.source
    && equal m.reverse_path (sender_text plan.sender)
    && equal b.sha256 prepared.hash
    && b.size_bytes == prepared.size
    && same_set (relayed_to m.id db) (to_set (texts plan.recipients))
    && same_queued plan q

abbrev new_delivery : Bytes → Bytes → Bytes → Bytes → ℕ → ℕ → Delivery
new_delivery id message_id recipient domain time expires = record {
  id = id;
  message_id = message_id;
  recipient = recipient;
  route = relay;
  destination_domain = domain;
  state = pending;
  attempts = 0;
  next_attempt_at_ms = time;
  expires_at_ms = expires;
  lease_token = none;
  lease_until_ms = none;
  generation = 0;
  last_smtp_code = none;
  diagnostic = none;
  lifecycle_reason = none;
  possibly_delivered = false;
  closed_at_ms = none;
  notification_state = notification_pending;
  notification_error = none;
  notification_due_ms = 0;
}

-- the loop over the recipients; `fresh` makes the ids
-- UNIQUE (message_id, recipient)
abbrev pub is_same_pair : Delivery → Delivery → Bool
is_same_pair d x = equal x.message_id d.message_id && equal x.recipient d.recipient

-- INSERT INTO delivery, with the constraints of the table that a new row can break
unfoldable pub insert_delivery : Delivery → List Delivery → Result (List Delivery)
insert_delivery d ds =
    if not (length d.id == 32) || any (has_id d.id) ds || any (is_same_pair d) ds
    then err database
    else ok (d ∷ ds)

unfoldable pub insert_deliveries :
    (ℕ → Bytes) → ℕ → Bytes → List Bytes → ℕ → ℕ → List Delivery → Result (List Delivery)
unfolding rsplit_once insert_delivery
insert_deliveries fresh i id [] time expires ds = ok ds
insert_deliveries fresh i id (r ∷ rs) time expires ds = do
  parts ← ok_or (rsplit_once b'@' r) invalid_input
  inserted ← insert_delivery (new_delivery (fresh i) id r parts.1 time expires) ds
  insert_deliveries fresh (i + 1) id rs time expires inserted

unfoldable pub insert_relay : (ℕ → Bytes) → Bytes → List Bytes → QueueBody → ℕ → ℕ → Db → Result Db
unfolding insert_deliveries later
insert_relay fresh id recipients body age time db = do
  expires ← later time (age * 1000)
  ds ← insert_deliveries fresh 0 id recipients time expires db.deliveries
  ok (record db {
    deliveries = ds;
    queue_messages =
        record { message_id = id; body_mode = body; max_age_seconds = age } ∷ db.queue_messages;
  })

abbrev pub new_blob : PreparedMessage → ℕ → Blob
new_blob prepared time = record {
  id = prepared.id;
  size_bytes = prepared.size;
  sha256 = prepared.hash;
  created_at_ms = time;
}

abbrev pub new_message : Bytes → PreparedMessage → QueuePlan → ℕ → Message
new_message message_id prepared plan time = record {
  id = message_id;
  ingest_key = plan.operation_id;
  blob_id = prepared.id;
  source = import;
  reverse_path = sender_text plan.sender;
  authenticated_account_id = none;
  accepted_at_ms = time;
}

abbrev pub with_message : Bytes → PreparedMessage → QueuePlan → ℕ → Db → Db
with_message message_id prepared plan time db = record db {
  blobs = new_blob prepared time ∷ db.blobs;
  messages = new_message message_id prepared plan time ∷ db.messages;
}

-- the branch for an operation that is new; `message_id` is made for it
unfoldable pub accept_new :
    (ℕ → Bytes) → Bytes → PreparedMessage → QueuePlan → ℕ → Db → Result (Db × AcceptedMessage)
unfolding insert_relay to_set
accept_new fresh message_id prepared plan time db = do
  queued ←
      insert_relay fresh message_id (to_set (texts plan.recipients)) plan.body plan.max_age_seconds
        time (with_message message_id prepared plan time db)
  ok (queued, record { message_id = message_id; already_committed = false })

-- the end of the transaction: here a failed COMMIT is `OutcomeUnknown`
abbrev pub finish_enqueue :
    Store → Commit → Result (Db × AcceptedMessage) → Store × Result AcceptedMessage
finish_enqueue s c (err e) = (s, err e)
finish_enqueue s done (ok (db, a)) = (record s { db = db }, ok a)
finish_enqueue s refused (ok (db, a)) = (s, err outcome_unknown)
finish_enqueue s unacknowledged (ok (db, a)) = (record s { db = db }, err outcome_unknown)

-- behind the search for the operation
unfoldable pub enqueue_found :
    (ℕ → Bytes)
    → Bytes
    → Store
    → Env
    → PreparedMessage
    → QueuePlan
    → ℕ
    → Option (Message × Blob)
    → Store × Result AcceptedMessage
unfolding accept_new same_operation find
enqueue_found fresh message_id s env prepared plan time none =
    finish_enqueue s env.commit (accept_new fresh message_id prepared plan time s.db)
enqueue_found fresh message_id s env prepared plan time (some (m, b)) =
    let q = find (λ (q : QueueMessage). equal q.message_id m.id) s.db.queue_messages in
    if same_operation prepared plan m b q s.db
    then (s, ok (record { message_id = m.id; already_committed = true }))
    else (s, err idempotency_conflict)

-- the join of message and blob by the operation's key
abbrev pub pair_up : Message → Option Blob → Option (Message × Blob)
pair_up m none = none
pair_up m (some b) = some (m, b)

abbrev pub with_blob : Db → Option Message → Option (Message × Blob)
with_blob db none = none
with_blob db (some m) = pair_up m (find (λ (b : Blob). equal b.id m.blob_id) db.blobs)

abbrev pub previous : Bytes → Db → Option (Message × Blob)
previous key db = with_blob db (find (λ (m : Message). equal m.ingest_key key) db.messages)

unfoldable pub enqueue_at :
    (ℕ → Bytes)
    → Bytes
    → Store
    → Env
    → PreparedMessage
    → QueuePlan
    → Result ℕ
    → Store × Result AcceptedMessage
unfolding enqueue_found find
enqueue_at fresh message_id s env prepared plan (err e) = (s, err e)
enqueue_at fresh message_id s env prepared plan (ok time) =
    enqueue_found fresh message_id s env prepared plan time (previous plan.operation_id s.db)

unfoldable pub enqueue :
    (ℕ → Bytes)
    → Bytes
    → Bytes
    → Store
    → Env
    → PreparedMessage
    → QueuePlan
    → Store × Result AcceptedMessage
unfolding enqueue_at valid_id
enqueue fresh message_id root s env prepared plan =
    if not (equal prepared.root root)
      || not (valid_id plan.operation_id)
      || is_empty plan.recipients
      || ltb 100 (length plan.recipients)
      || not (within 1 604800 plan.max_age_seconds)
    then (s, err invalid_input)
    else enqueue_at fresh message_id s env prepared plan (now_ms env.wall)
