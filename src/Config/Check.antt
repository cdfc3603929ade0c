-- ===== src/Config/Check.antt =====
-- crates/core/src/config.rs: `Config::validate` and what the two laboratory roles require beyond it.
use Prim.Native.String.{String}
use rustymail.Base.{
  ℕ, ◌+◌, ◌*◌, Bool, true, false, not, ◌&&◌, ◌||◌, List, [], ◌∷◌, map, ltb, leb, ◌==◌, within,
  length, all, any, is_some, if◌then◌else◌,
}
use rustymail.Base.Try.{Try, good, bad, ◌>>◌}
use rustymail.Bytes.{Bytes, codes, equal, is_empty, lowercase}
use rustymail.Address.{valid_domain}
use rustymail.Queue.Rows.{i64_max}
use rustymail.Config.{
  Config, Tls, Limits, StoreLimits, Authentication, DeliverySettings, RelayHost, Mode, lab,
  production, DeliveryMode, disabled, relay_mode,
}
use rustymail.Config.Net.{SocketAddr, same_ip, is_unspecified, is_loopback}

pub data ConfigError : Type 0 where
  io : ConfigError
  parse : ℕ → ConfigError
  invalid : String → ConfigError

abbrev pub Checked : Type 0
Checked = Try ConfigError (Unit {0})

unfoldable pub require : Bool → String → Checked
require condition reason = if condition then good tt else bad (invalid reason)

abbrev pub local_delivery_overhead_bytes : ℕ
local_delivery_overhead_bytes = 2048

abbrev pub is_lab : Mode → Bool
is_lab lab = true
is_lab production = false

abbrev pub is_relay_mode : DeliveryMode → Bool
is_relay_mode disabled = false
is_relay_mode relay_mode = true

-- `HashSet` of the names: its members, each one once
unfoldable pub hash_set : List Bytes → List Bytes
hash_set [] = []
hash_set (name ∷ names) =
    let rest = hash_set names in if any (equal name) names then rest else name ∷ rest

unfoldable pub validate_names : Config → Checked
unfolding require hash_set
validate_names c = do
  require (valid_domain c.hostname) "hostname must be a DNS name"
  require (not (is_empty c.local_domains) && leb (length c.local_domains) 100)
      "local_domains must contain 1..100 domains"
  let domains = hash_set (map lowercase c.local_domains)
  require (length domains == length c.local_domains && all valid_domain domains)
      "local_domains contains duplicates or invalid names"

unfoldable pub validate_paths : List Bytes → Checked
unfolding require
validate_paths [] = good tt
validate_paths (path ∷ paths) = do
  require (not (is_empty path)) "configured paths must not be empty"
  validate_paths paths

unfoldable pub overlaps : SocketAddr → SocketAddr → Bool
overlaps address other =
    address.port == other.port
    && (same_ip address.ip other.ip || is_unspecified address.ip || is_unspecified other.ip)

unfoldable pub clear_of : SocketAddr → List SocketAddr → Checked
unfolding require overlaps
clear_of address [] = good tt
clear_of address (other ∷ others) = do
  require (not (overlaps address other)) "listener addresses overlap"
  clear_of address others

unfoldable pub validate_listeners : List SocketAddr → Checked
unfolding require clear_of
validate_listeners [] = good tt
validate_listeners (address ∷ others) = do
  require (not (address.port == 0)) "listener port must not be zero"
  clear_of address others
  validate_listeners others

abbrev pub listeners_of : Config → List SocketAddr
listeners_of c = c.listeners.smtp ∷ c.listeners.submissions ∷ c.listeners.submission ∷ []

abbrev pub paths_of : Config → List Bytes
paths_of c =
    c.data_dir ∷ c.admin_socket ∷ c.tls.certificate_file ∷ c.tls.private_key_file
    ∷ c.relay.password_file ∷ []

unfoldable pub validate_tls : Tls → Checked
unfolding require
validate_tls t =
    require (equal t.minimum_version (codes "1.2") || equal t.minimum_version (codes "1.3"))
      "tls.minimum_version must be 1.2 or 1.3"

unfoldable pub validate_limits : Limits → Checked
unfolding require
validate_limits l = do
  require (within 1 4096 l.connections) "limits.connections must be 1..4096"
  require
      (all (λ count. ltb 0 count && leb count l.connections)
        (l.connections_per_ip ∷ l.tls_handshakes ∷ l.ingest_concurrency ∷ []))
      "connection sub-limits must be positive and <= connections"
  require (within 1024 (25 * 1024 * 1024) l.message_bytes)
      "limits.message_bytes must be 1 KiB..25 MiB"
  require (leb 1024 l.header_bytes && leb l.header_bytes l.message_bytes)
      "limits.header_bytes must be 1 KiB..message_bytes"
  require (within 1 100 l.recipients_per_message) "limits.recipients_per_message must be 1..100"
  require (within 1024 (64 * 1024) l.stream_buffer_bytes)
      "limits.stream_buffer_bytes must be 1..64 KiB"
  require (ltb 0 l.disk_reserve_percent && ltb l.disk_reserve_percent 100)
      "disk_reserve_percent must be 1..99"
  require
      (ltb 0 l.disk_reserve_bytes
        && leb (l.message_bytes + local_delivery_overhead_bytes) l.temporary_reserved_bytes
        && leb l.temporary_reserved_bytes i64_max)
      "invalid disk reservation limits"

abbrev pub durations_of : Config → List ℕ
durations_of c =
    c.timeouts.smtp_command_seconds ∷ c.timeouts.data_idle_seconds ∷ c.timeouts.data_total_seconds
    ∷ c.timeouts.submission_unauthenticated_seconds ∷ c.timeouts.shutdown_grace_seconds
    ∷ c.tls.handshake_timeout_seconds ∷ c.authentication.queue_timeout_seconds
    ∷ c.delivery.connect_timeout_seconds ∷ c.delivery.banner_timeout_seconds
    ∷ c.delivery.command_timeout_seconds ∷ c.delivery.data_command_timeout_seconds
    ∷ c.delivery.data_write_timeout_seconds ∷ c.delivery.final_reply_timeout_seconds ∷ []

unfoldable pub validate_timeouts : Config → Checked
unfolding require
validate_timeouts c = do
  require (all (within 1 86400) (durations_of c)) "timeouts must be 1..86400 seconds"
  require (leb c.timeouts.data_idle_seconds c.timeouts.data_total_seconds)
      "total transfer deadline cannot be shorter than idle deadline"

unfoldable pub validate_store : StoreLimits → Checked
unfolding require
validate_store s = do
  require (within 1 1024 s.writer_queue) "invalid database queue budget"
  require (within 128 65536 s.writer_cache_kib) "database cache must be 128..65536 KiB"

unfoldable pub validate_authentication : Authentication → Checked
unfolding require
validate_authentication a = do
  require
      (within 65536 1048576 a.argon2_memory_kib
        && within 3 10 a.argon2_iterations
        && within 1 16 a.argon2_lanes)
      "invalid Argon2 memory/iteration/lane budget"
  require (within 1 2 a.concurrency && within 1 64 a.waiting_requests)
      "invalid authentication concurrency/queue budget"
  require (leb (a.argon2_memory_kib * a.concurrency) (256 * 1024))
      "combined Argon2 working memory must not exceed 256 MiB in this release"

-- `windows(2)`
abbrev pub nondecreasing_from : ℕ → List ℕ → Bool
nondecreasing_from a [] = true
nondecreasing_from a (b ∷ rest) = leb a b && nondecreasing_from b rest

abbrev pub nondecreasing : List ℕ → Bool
nondecreasing [] = true
nondecreasing (a ∷ rest) = nondecreasing_from a rest

unfoldable pub validate_delivery : DeliverySettings → Checked
unfolding require
validate_delivery d = do
  require
      (within 1 128 d.concurrency
        && ltb 0 d.per_domain_concurrency
        && leb d.per_domain_concurrency d.concurrency
        && within 1 128 d.batch_size)
      "invalid delivery concurrency/batch"
  require
      (not (is_empty d.retry_seconds)
        && leb (length d.retry_seconds) 32
        && all (within 1800 86400) d.retry_seconds
        && nondecreasing d.retry_seconds)
      "retry_seconds must be a nondecreasing schedule of 1800..86400 seconds"
  require (leb d.retry_jitter_percent 50 && within 432000 604800 d.max_age_seconds)
      "invalid delivery jitter/max_age"

unfoldable pub validate_relay : RelayHost → Checked
unfolding require
validate_relay r =
    require
      (valid_domain r.host
        && not (r.port == 0)
        && (equal r.tls (codes "implicit") || equal r.tls (codes "starttls")))
      "invalid relay host/port/TLS mode"

unfoldable pub validate : Config → Checked
unfolding require
validate c = do
  validate_names c
  validate_paths (paths_of c)
  validate_listeners (listeners_of c)
  validate_tls c.tls
  validate_limits c.limits
  validate_timeouts c
  validate_store c.store
  validate_authentication c.authentication
  validate_delivery c.delivery
  validate_relay c.relay
  require (is_lab c.mode) "production mode is not implemented"
  require (all (λ a. is_loopback a.ip) (listeners_of c)) "lab listeners must bind loopback"

unfoldable pub require_lab_receiver : Config → Checked
unfolding require
require_lab_receiver c = do
  validate c
  require (not (is_relay_mode c.delivery.mode))
      "use serve --mode lab-relay to enable fixed-upstream delivery"

unfoldable pub require_lab_relay : Config → Checked
unfolding require
require_lab_relay c = do
  validate c
  require (is_relay_mode c.delivery.mode && is_some c.relay.ca_file)
      "relay laboratory requires delivery.mode=relay and relay.ca_file"
