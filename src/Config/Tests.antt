-- ===== src/Config/Tests.antt =====
-- The example of deploy/rustymail.example.toml passes the checks; tests of crates/core/src/config.rs.
use rustymail.Base.{ℕ, ◌≤◌, ◌<◌, ◌≡◌, refl, ◌↔◌, [], ◌∷◌, ◌++◌, arith, Option, none, some, length}
use rustymail.Base.Try.{Try, good, bad}
use rustymail.Bytes.{Bytes, codes, equal, to_lower, is_alphanumeric, split}
use rustymail.Address.{valid_domain}
use rustymail.Config.{Config, Limits, DeliverySettings, disabled, lab}
use rustymail.Config.Net.{v4, SocketAddr, is_loopback}
use rustymail.Config.Check.{
  validate_authentication, validate_delivery, validate_limits, validate_listeners, validate_names,
  validate_paths, validate_relay, validate_store, validate_timeouts, validate_tls, validate,
  invalid, parse, require_lab_receiver, ConfigError,
}
use rustymail.Config.Accepted.{Accepts, validate-Accepts}
use rustymail.Config.Parse.{parse_text, max_text}
use rustymail.Config.Parse.Result.{parse_text-outcome, line_of}

abbrev at_port : ℕ → SocketAddr
at_port port = record { ip = v4 127 0 0 1; port = port }

abbrev pub example_limits : Limits
example_limits = record {
  connections = 256;
  connections_per_ip = 8;
  tls_handshakes = 16;
  message_bytes = 26214400;
  header_bytes = 262144;
  recipients_per_message = 100;
  ingest_concurrency = 16;
  stream_buffer_bytes = 16384;
  disk_reserve_bytes = 2147483648;
  disk_reserve_percent = 10;
  temporary_reserved_bytes = 419430400;
}

abbrev example_delivery : DeliverySettings
example_delivery = record {
  mode = disabled;
  concurrency = 16;
  per_domain_concurrency = 2;
  batch_size = 128;
  retry_seconds = 1800 ∷ 3600 ∷ 7200 ∷ 14400 ∷ [];
  retry_jitter_percent = 20;
  max_age_seconds = 432000;
  connect_timeout_seconds = 30;
  banner_timeout_seconds = 300;
  command_timeout_seconds = 300;
  data_command_timeout_seconds = 120;
  data_write_timeout_seconds = 180;
  final_reply_timeout_seconds = 600;
}

abbrev pub example : Config
example = record {
  mode = lab;
  hostname = codes "mail.example.com";
  local_domains = codes "example.com" ∷ [];
  data_dir = codes "/var/lib/rustymail";
  admin_socket = codes "/run/rustymail/admin.sock";
  listeners = record { smtp = at_port 2525; submissions = at_port 2465; submission = at_port 2587 };
  tls = record {
    certificate_file = codes "/etc/rustymail/tls/fullchain.pem";
    private_key_file = codes "/etc/rustymail/tls/privkey.pem";
    minimum_version = codes "1.2";
    handshake_timeout_seconds = 15;
  };
  limits = example_limits;
  timeouts = record {
    smtp_command_seconds = 300;
    data_idle_seconds = 180;
    data_total_seconds = 1800;
    submission_unauthenticated_seconds = 60;
    shutdown_grace_seconds = 60;
  };
  store = record { writer_queue = 128; writer_cache_kib = 8192 };
  authentication = record {
    argon2_memory_kib = 65536;
    argon2_iterations = 3;
    argon2_lanes = 4;
    concurrency = 2;
    waiting_requests = 16;
    queue_timeout_seconds = 2;
  };
  delivery = example_delivery;
  relay = record {
    host = codes "smtp.relay.example";
    port = 465;
    tls = codes "implicit";
    username = codes "REPLACE_ME";
    password_file = codes "/etc/rustymail/secrets/relay-password";
    ca_file = none;
  };
}

pub example_valid : validate example ≡ good tt
unfolding validate validate_names valid_domain is_alphanumeric to_lower validate_paths
    validate_listeners validate_tls equal validate_limits validate_timeouts validate_store
    validate_authentication validate_delivery validate_relay is_loopback
example_valid = refl

narrow_reserve :
    validate
      (record example { limits = record example_limits { temporary_reserved_bytes = 26214400 } })
    ≡ bad (invalid "invalid disk reservation limits")
unfolding validate validate_names valid_domain is_alphanumeric to_lower validate_paths
    validate_listeners validate_tls equal validate_limits
narrow_reserve = refl

receiver_role : require_lab_receiver example ≡ good tt
unfolding require_lab_receiver validate validate_names valid_domain is_alphanumeric to_lower
    validate_paths validate_listeners validate_tls equal validate_limits validate_timeouts
    validate_store validate_authentication validate_delivery validate_relay is_loopback
receiver_role = refl

validate-Accepts_example : (validate example ≡ good tt) ↔ Accepts example
validate-Accepts_example = validate-Accepts example

-- a parser that fails behind the second line break
abbrev fails_late : Bytes → Try (Option ℕ) Config
fails_late text = bad (some 4)

abbrev three_lines : Bytes
three_lines = codes "a\nb\nc"

parse_text-outcome_example :
    ((c : Config)
      → (parse_text fails_late three_lines ≡ good c) ↔ (
          (fails_late three_lines ≡ good c)
          × (validate c ≡ good tt)
          × (length three_lines ≤ max_text)))
    × ((c : Config) (e : ConfigError)
        → length three_lines ≤ max_text
        → fails_late three_lines ≡ good c
        → validate c ≡ bad e
        → parse_text fails_late three_lines ≡ bad e)
    × ((before after : Bytes)
        → length three_lines ≤ max_text
        → three_lines ≡ before ++ after
        → fails_late three_lines ≡ bad (some (length before))
        → parse_text fails_late three_lines ≡ bad (parse (line_of before)))
    × ((start : ℕ)
        → length three_lines ≤ max_text
        → length three_lines ≤ start
        → fails_late three_lines ≡ bad (some start)
        → parse_text fails_late three_lines ≡ bad (parse (line_of three_lines)))
    × (length three_lines ≤ max_text
        → fails_late three_lines ≡ bad none
        → parse_text fails_late three_lines ≡ bad (parse 1))
    × (max_text < length three_lines
        → parse_text fails_late three_lines ≡ bad (invalid "configuration exceeds 1 MiB"))
parse_text-outcome_example = parse_text-outcome fails_late three_lines

third_line : parse_text fails_late three_lines ≡ bad (parse 3)
unfolding split
third_line =
    (parse_text-outcome fails_late three_lines).2 (codes "a\nb\n") (codes "c") (omega arith) refl
      refl
