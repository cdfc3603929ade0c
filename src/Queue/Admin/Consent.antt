-- ===== src/Queue/Admin/Consent.antt =====
-- What the administrator's retry of a delivery needs, and what it leaves.
use rustymail.Base.{ℕ, ◌<◌, ◌≡◌, ◌⊎◌, Bool, true, [], ◌∷◌, ◌++◌, none, some}
use rustymail.Bytes.{Bytes, codes}
use rustymail.Queue.Rows.{
  Delivery, Db, AdminEvent, retry_action, State, pending, deferred, uncertain, hold,
}
use rustymail.Queue.Table.{find, has_id}
use rustymail.Queue.Admin.{admin_event, set_where, relay_id, retry_row}

-- The consent that a state asks for: to a duplicate, where the peer may have accepted the message.
abbrev pub HasConsent : State → Bool → Type 0
HasConsent state allow_duplicate =
    (state ≡ deferred) ⊎ (((state ≡ uncertain) ⊎ (state ≡ hold)) × (allow_duplicate ≡ true))

-- What a retry at a time has found and left: the row before and behind it, and its entry in the history.
pub record Reopened (id : Bytes) (allow_duplicate extend_expired : Bool) (before after : Db)
    : Type 0 where
  pub old : Delivery
  pub row : Delivery
  pub entry : AdminEvent
  pub time : ℕ
  pub found : find (relay_id id) before.deliveries ≡ some old
  pub not_closed : old.closed_at_ms ≡ none
  pub consent : HasConsent old.state allow_duplicate
  pub in_time : (time < old.expires_at_ms) ⊎ (extend_expired ≡ true)
  pub left : find (relay_id id) after.deliveries ≡ some row
  pub again : (row.state ≡ pending) × (row.next_attempt_at_ms ≡ time)
  pub remembers : row.possibly_delivered ≡ old.possibly_delivered
  pub recorded : after.admin_events ≡ before.admin_events ++ (entry ∷ [])
  pub says : (entry.delivery_id ≡ id) × (entry.before_state ≡ old.state)
  pub says_consent : entry.allow_duplicate ≡ allow_duplicate

-- the tables behind a retry
abbrev reopened : Bytes → Bool → Bool → ℕ → ℕ → Delivery → Db → Db
reopened id x y time expires d db =
    admin_event id retry_action d.state pending (codes "operator requested retry") x y time
      (set_where (has_id id) (retry_row time expires) db)
