-- ===== src/Relay.antt =====
-- crates/server/src/relay.rs: the policies that the relay worker makes of a configuration.
pub mod Policies
mod Tests
use rustymail.Queue.Policy.{QueuePolicy}
use rustymail.Notification.{NotificationPolicy}
use rustymail.Config.{Config}

abbrev pub notification_policy : Config → NotificationPolicy
notification_policy config = record {
  hostname = config.hostname;
  local_domains = config.local_domains;
  max_age_seconds = config.delivery.max_age_seconds;
}

-- the policy of `run`
abbrev pub queue_policy : Config → QueuePolicy
queue_policy config = record {
  concurrency = config.delivery.concurrency;
  per_domain = config.delivery.per_domain_concurrency;
  lease_seconds = 300;
  retry_seconds = config.delivery.retry_seconds;
  jitter_percent = config.delivery.retry_jitter_percent;
}
