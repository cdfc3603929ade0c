-- ===== src/Relay/Tests.antt =====
-- The policies of the example configuration.
use rustymail.Base.{◌≡◌, ◌≤◌, ◌<◌, length}
use rustymail.Bytes.{to_lower, codes}
use rustymail.Queue.Rows.{ok, err, invalid_input}
use rustymail.Queue.Policy
use rustymail.Config.Tests.{example, example_valid}
use rustymail.Notification.{validate_policy}
use rustymail.Relay.{queue_policy, notification_policy}
use rustymail.Relay.Policies.{queue_policy-validate}

queue_policy-validate_example :
    (Policy.validate (queue_policy example) ≡ ok tt)
    × (length (codes "example.com") ≤ 243
        → validate_policy (notification_policy example)
          ≡ ok (record { text = codes "postmaster@example.com" }))
    × (243 < length (codes "example.com")
        → validate_policy (notification_policy example) ≡ err invalid_input)
unfolding to_lower
queue_policy-validate_example = queue_policy-validate example example_valid
