-- ===== src/Queue/Policy.antt =====
-- crates/store/src/queue.rs: `QueuePolicy`, its check and the retry delay.
pub mod Delay
use rustymail.Base.{
  ℕ, zero, suc, ◌+◌, ◌-◌, ◌*◌, ◌/◌, ◌%◌, Bool, not, ◌&&◌, ◌||◌, List, [], ◌∷◌, ltb, leb, within,
  if◌then◌else◌, length, any,
}
use rustymail.Bytes.{Bytes, is_empty}
use rustymail.Queue.Rows.{Result, ok, err, invalid_input}

abbrev pub batch : ℕ
batch = 128

pub record QueuePolicy : Type 0 where
  pub concurrency : ℕ
  pub per_domain : ℕ
  pub lease_seconds : ℕ
  pub retry_seconds : List ℕ
  pub jitter_percent : ℕ

abbrev pub default_policy : QueuePolicy
default_policy = record {
  concurrency = 16;
  per_domain = 2;
  lease_seconds = 300;
  retry_seconds = 1800 ∷ 3600 ∷ 7200 ∷ 14400 ∷ [];
  jitter_percent = 20;
}

unfoldable pub validate : QueuePolicy → Result (Unit {0})
validate p =
    if not (within 1 batch p.concurrency)
      || not (within 1 p.concurrency p.per_domain)
      || not (within 1 3600 p.lease_seconds)
      || is_empty p.retry_seconds
      || ltb 32 (length p.retry_seconds)
      || any (λ n. not (within 1 86400 n)) p.retry_seconds
      || ltb 50 p.jitter_percent
    then err invalid_input
    else ok tt

-- an index that `validate` and the `min` below keep in range
abbrev pub get_or : List ℕ → ℕ → ℕ → ℕ
get_or [] i d = d
get_or (x ∷ xs) zero d = x
get_or (x ∷ xs) (suc i) d = get_or xs i d

-- `a.min(b)`
abbrev pub least : ℕ → ℕ → ℕ
least a b = if leb a b then a else b

-- `delay_ms`; `random` is the number made of the first eight bytes of the SHA-256 digest of the
-- delivery's id and the count of its attempts
unfoldable pub delay_ms : (Bytes → ℕ → ℕ) → QueuePolicy → Bytes → ℕ → ℕ
delay_ms random p id attempts =
    let index = least (attempts - 1) (length p.retry_seconds - 1) in
    let base = get_or p.retry_seconds index 0 * 1000 in
    let spread = base * p.jitter_percent / 100 in base + random id attempts % (spread + 1)
