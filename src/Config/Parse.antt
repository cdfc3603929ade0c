-- ===== src/Config/Parse.antt =====
-- crates/core/src/config.rs: `Config::load` and `Config::parse`. The text is its bytes; the TOML parser
-- is a parameter, whose error has the start of a span of the text or none, and so is the reading of a
-- file, up to a number of bytes and as text.
pub mod Result
use rustymail.Base.{
  ℕ, zero, suc, ◌+◌, ◌*◌, ◌==◌, List, [], ◌∷◌, Option, none, some, leb, length, if◌then◌else◌,
}
use rustymail.Base.Try.{Try, good, bad, ◌>>=◌, ◌>>◌}
use rustymail.Bytes.{Bytes}
use rustymail.Queue.Policy.{least}
use rustymail.Config.{Config}
use rustymail.Config.Check.{ConfigError, parse, io, Checked, require, validate}

abbrev pub max_text : ℕ
max_text = 1024 * 1024

-- the line breaks among the first bytes
unfoldable pub breaks : ℕ → Bytes → ℕ
breaks zero text = 0
breaks (suc n) [] = 0
breaks (suc n) (c ∷ text) = let rest = breaks n text in if c == b'\n' then suc rest else rest

abbrev pub start_of : Option ℕ → Bytes → ℕ
start_of none text = 0
start_of (some start) text = least start (length text)

abbrev pub parse_error {ℓ} : {T : Type ℓ} → Bytes → Try (Option ℕ) T → Try ConfigError T
parse_error text (good t) = good t
parse_error text (bad span) = bad (parse (breaks (start_of span text) text + 1))

unfoldable pub parse_text : (Bytes → Try (Option ℕ) Config) → Bytes → Try ConfigError Config
unfolding breaks
parse_text from_str text = do
  require (leb (length text) max_text) "configuration exceeds 1 MiB"
  config ← parse_error text (from_str text)
  validate config
  good config

abbrev pub io_error {ℓ} : {T : Type ℓ} → Try (Unit {0}) T → Try ConfigError T
io_error (good t) = good t
io_error (bad e) = bad io

unfoldable pub load :
    (ℕ → Try (Unit {0}) Bytes) → (Bytes → Try (Option ℕ) Config) → Try ConfigError Config
unfolding parse_text
load read from_str = do text ← io_error (read (max_text + 1)); parse_text from_str text
