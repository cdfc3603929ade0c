-- ===== src/Config.antt =====
-- crates/core/src/config.rs: the configuration as `config_struct!` declares it. A path is its bytes.
pub mod Net
pub mod Check
pub mod Parse
pub mod Accepted
pub mod Tests
use rustymail.Base.{ℕ, List, Option}
use rustymail.Bytes.{Bytes}
use Net.{SocketAddr}

pub data Mode : Type 0 where
  lab production : Mode

pub data DeliveryMode : Type 0 where
  disabled relay_mode : DeliveryMode

pub record Listeners : Type 0 where
  pub smtp : SocketAddr
  pub submissions : SocketAddr
  pub submission : SocketAddr

pub record Tls : Type 0 where
  pub certificate_file : Bytes
  pub private_key_file : Bytes
  pub minimum_version : Bytes
  pub handshake_timeout_seconds : ℕ

pub record Limits : Type 0 where
  pub connections : ℕ
  pub connections_per_ip : ℕ
  pub tls_handshakes : ℕ
  pub message_bytes : ℕ
  pub header_bytes : ℕ
  pub recipients_per_message : ℕ
  pub ingest_concurrency : ℕ
  pub stream_buffer_bytes : ℕ
  pub disk_reserve_bytes : ℕ
  pub disk_reserve_percent : ℕ
  pub temporary_reserved_bytes : ℕ

pub record Timeouts : Type 0 where
  pub smtp_command_seconds : ℕ
  pub data_idle_seconds : ℕ
  pub data_total_seconds : ℕ
  pub submission_unauthenticated_seconds : ℕ
  pub shutdown_grace_seconds : ℕ

pub record StoreLimits : Type 0 where
  pub writer_queue : ℕ
  pub writer_cache_kib : ℕ

pub record Authentication : Type 0 where
  pub argon2_memory_kib : ℕ
  pub argon2_iterations : ℕ
  pub argon2_lanes : ℕ
  pub concurrency : ℕ
  pub waiting_requests : ℕ
  pub queue_timeout_seconds : ℕ

pub record DeliverySettings : Type 0 where
  pub mode : DeliveryMode
  pub concurrency : ℕ
  pub per_domain_concurrency : ℕ
  pub batch_size : ℕ
  pub retry_seconds : List ℕ
  pub retry_jitter_percent : ℕ
  pub max_age_seconds : ℕ
  pub connect_timeout_seconds : ℕ
  pub banner_timeout_seconds : ℕ
  pub command_timeout_seconds : ℕ
  pub data_command_timeout_seconds : ℕ
  pub data_write_timeout_seconds : ℕ
  pub final_reply_timeout_seconds : ℕ

pub record RelayHost : Type 0 where
  pub host : Bytes
  pub port : ℕ
  pub tls : Bytes
  pub username : Bytes
  pub password_file : Bytes
  pub ca_file : Option Bytes

pub record Config : Type 0 where
  pub mode : Mode
  pub hostname : Bytes
  pub local_domains : List Bytes
  pub data_dir : Bytes
  pub admin_socket : Bytes
  pub listeners : Listeners
  pub tls : Tls
  pub limits : Limits
  pub timeouts : Timeouts
  pub store : StoreLimits
  pub authentication : Authentication
  pub delivery : DeliverySettings
  pub relay : RelayHost
