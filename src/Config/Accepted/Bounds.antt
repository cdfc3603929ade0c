-- ===== src/Config/Accepted/Bounds.antt =====
-- The bounds of the limits, of the authentication and of the delivery in `Config::validate`.
use rustymail.Base.{
  ℕ, ◌+◌, ◌*◌, ◌≤◌, ◌<◌, ◌≡◌, refl, ◌↔◌, Bool, true, not, List, [], ◌∷◌, arith, length, All, within,
  all, &&-eq-true,
}
use rustymail.Base.Try.{good}
use rustymail.Bytes.{is_empty}
use rustymail.Queue.Rows.{i64_max}
use rustymail.Config.{Limits, Authentication, DeliverySettings}
use rustymail.Config.Check.{
  require, validate_limits, validate_authentication, validate_delivery, nondecreasing,
}

abbrev pub Within : ℕ → ℕ → ℕ → Type 0
Within lo hi n = (lo ≤ n) × (n ≤ hi)

pub record AcceptsLimits (l : Limits) : Type 0 where
  pub connections : Within 1 4096 l.connections
  pub per_ip : Within 1 l.connections l.connections_per_ip
  pub handshakes : Within 1 l.connections l.tls_handshakes
  pub ingest : Within 1 l.connections l.ingest_concurrency
  pub message : Within 1024 26214400 l.message_bytes
  pub header : Within 1024 l.message_bytes l.header_bytes
  pub recipients : Within 1 100 l.recipients_per_message
  pub buffer : Within 1024 65536 l.stream_buffer_bytes
  pub percent : Within 1 99 l.disk_reserve_percent
  pub reserve : 0 < l.disk_reserve_bytes
  pub temporary : Within (l.message_bytes + 2048) i64_max l.temporary_reserved_bytes

pub limits_iff : (l : Limits) → (validate_limits l ≡ good tt) ↔ AcceptsLimits l
unfolding validate_limits require
limits_iff l = ground arith

pub record AcceptsAuthentication (a : Authentication) : Type 0 where
  pub memory : Within 65536 1048576 a.argon2_memory_kib
  pub iterations : Within 3 10 a.argon2_iterations
  pub lanes : Within 1 16 a.argon2_lanes
  pub concurrency : Within 1 2 a.concurrency
  pub waiting : Within 1 64 a.waiting_requests
  pub working_memory : a.argon2_memory_kib * a.concurrency ≤ 262144

pub authentication_iff :
    (a : Authentication) → (validate_authentication a ≡ good tt) ↔ AcceptsAuthentication a
unfolding validate_authentication require
authentication_iff a = ground arith

pub all_iff {ℓ κ} :
    {A : Type ℓ} (p : A → Bool) (P : A → Type κ) (xs : List A)
    → ((x : A) → (p x ≡ true) ↔ P x)
    → (all p xs ≡ true) ↔ All P xs
all_iff p P [] f = (λ _. tt, λ _. refl)
all_iff p P (x ∷ xs) f =
    let rest = all_iff p P xs f in
    (
      λ h. let (a, b) = &&-eq-true (p x) (all p xs) h in ((f x).0 a, rest.0 b),
      λ (a, b). rw ((f x).1 a, rest.1 b) refl,
    )

abbrev pub Nondecreasing : List ℕ → Type 0
Nondecreasing [] = Unit
Nondecreasing (a ∷ []) = Unit
Nondecreasing (a ∷ b ∷ rest) = (a ≤ b) × Nondecreasing (b ∷ rest)

nondecreasing_iff : (xs : List ℕ) → (nondecreasing xs ≡ true) ↔ Nondecreasing xs
nondecreasing_iff [] = (λ _. tt, λ _. refl)
nondecreasing_iff (a ∷ []) = (λ _. tt, λ _. refl)
nondecreasing_iff (a ∷ b ∷ rest) = ground (arith, nondecreasing_iff (b ∷ rest))

pub within_iff : (lo hi n : ℕ) → (within lo hi n ≡ true) ↔ Within lo hi n
within_iff lo hi n = ground arith

pub record AcceptsDelivery (d : DeliverySettings) : Type 0 where
  pub concurrency : Within 1 128 d.concurrency
  pub per_domain : Within 1 d.concurrency d.per_domain_concurrency
  pub batch : Within 1 128 d.batch_size
  pub entries : Within 1 32 (length d.retry_seconds)
  pub schedule : All (Within 1800 86400) d.retry_seconds
  pub slower : Nondecreasing d.retry_seconds
  pub jitter : d.retry_jitter_percent ≤ 50
  pub age : Within 432000 604800 d.max_age_seconds

pub not-is_empty {ℓ} : {A : Type ℓ} (xs : List A) → (not (is_empty xs) ≡ true) ↔ (1 ≤ length xs)
not-is_empty [] = ground arith
not-is_empty (x ∷ xs) = ground arith

pub delivery_iff : (d : DeliverySettings) → (validate_delivery d ≡ good tt) ↔ AcceptsDelivery d
unfolding validate_delivery require
delivery_iff d =
    let scheduled =
      all_iff (within 1800 86400) (Within 1800 86400) d.retry_seconds (within_iff 1800 86400) in
    let sorted = nondecreasing_iff d.retry_seconds in
    let occupied = not-is_empty d.retry_seconds in ground arith
