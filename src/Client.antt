-- ===== src/Client.antt =====
-- crates/client/src/smtp.rs: the types of the transport. An `io::Error` is a `Failure.connection`, which
-- is all that `Failure::from` keeps of it, and so is a deadline that has passed.
pub mod Wire
pub mod Reply
pub mod Payload
pub mod Attempt
use rustymail.Base.{ℕ, Bool, false, Option, none, within, if◌then◌else◌}
use rustymail.Base.Try.{Try, good, bad}
use rustymail.Bytes.{Bytes}
use rustymail.Address.{Address}
use rustymail.Command.{Body}

pub data AttemptResult : Type 0 where
  delivered temporary permanent : ℕ → AttemptResult
  connection_lost hold deferred : AttemptResult

pub data Failure : Type 0 where
  connection setup content : Failure

pub record Message : Type 0 where
  pub sender : Option Address
  pub recipient : Address
  pub body : Body
  pub stored_size : ℕ
  pub omit_prefix : Bytes

pub record Capabilities : Type 0 where
  pub pipelining : Bool
  pub starttls : Bool
  pub eight_bit : Bool
  pub plain : Bool
  pub size : Option (Option ℕ)

-- `Capabilities::default()`
abbrev pub default_capabilities : Capabilities
default_capabilities = record {
  pipelining = false;
  starttls = false;
  eight_bit = false;
  plain = false;
  size = none;
}

pub record Response : Type 0 where
  pub code : ℕ
  pub capabilities : Capabilities

-- The client without its addresses and deadlines: `tls` whether it has a TLS configuration.
pub record SmtpClient : Type 0 where
  pub greeting : Bytes
  pub tls : Bool
  pub starttls : Bool
  pub authorization : Option Bytes

unfoldable pub rejected : ℕ → Try Failure AttemptResult
rejected code =
    if within 400 499 code
    then good (temporary code)
    else if within 500 599 code
    then good (permanent code)
    else bad connection
