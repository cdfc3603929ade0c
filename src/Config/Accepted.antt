-- ===== src/Config/Accepted.antt =====
-- What an accepted configuration is, apart from the order and the wording of the checks.
pub mod Bounds
mod Names
mod Addresses
use Prim.Native.String.{String}
use rustymail.Base.{
  ℕ, ◌+◌, ◌*◌, ◌≤◌, ◌<◌, ◌≡◌, refl, ◌↔◌, ◌⊎◌, Bool, true, not, List, [], ◌∷◌, map, arith, length,
  All, within, all, &&-eq-true, length-map,
}
use rustymail.Base.Try.{good, ◌>>◌, then-eq-good}
use rustymail.Bytes.{Bytes, codes, is_empty, equal_iff, lowercase}
use rustymail.Address.{valid_domain}
use rustymail.Queue.Rows.{i64_max}
use rustymail.Config.{
  Config, Tls, Limits, StoreLimits, Authentication, DeliverySettings, RelayHost, Mode, lab,
  production,
}
use rustymail.Config.Net.{SocketAddr, is_loopback}
use rustymail.Config.Check.{
  require, validate, validate_names, validate_paths, validate_listeners, validate_tls,
  validate_limits, validate_timeouts, validate_store, validate_authentication, validate_delivery,
  validate_relay, nondecreasing, durations_of, paths_of, listeners_of, is_lab,
}
use Bounds.{
  Within, AcceptsLimits, AcceptsAuthentication, AcceptsDelivery, limits_iff, authentication_iff,
  delivery_iff, all_iff, within_iff, not-is_empty,
}
use Names.{AllDistinct, hash_set_lem, hash_set-AllDistinct}
use Addresses.{Apart, paths_iff, listeners_iff}

pub record Accepts (c : Config) : Type 0 where
  pub hostname : valid_domain c.hostname ≡ true
  pub domains : Within 1 100 (length c.local_domains)
  pub different : AllDistinct (map lowercase c.local_domains)
  pub valid_domains : all valid_domain (map lowercase c.local_domains) ≡ true
  pub paths : All (λ path. 1 ≤ length path) (paths_of c)
  pub apart : Apart (listeners_of c)
  pub version : (c.tls.minimum_version ≡ codes "1.2") ⊎ (c.tls.minimum_version ≡ codes "1.3")
  pub limits : AcceptsLimits c.limits
  pub durations : All (Within 1 86400) (durations_of c)
  pub idle : c.timeouts.data_idle_seconds ≤ c.timeouts.data_total_seconds
  pub writer : Within 1 1024 c.store.writer_queue
  pub cache : Within 128 65536 c.store.writer_cache_kib
  pub authentication : AcceptsAuthentication c.authentication
  pub delivery : AcceptsDelivery c.delivery
  pub relay_host : valid_domain c.relay.host ≡ true
  pub relay_port : 1 ≤ c.relay.port
  pub relay_tls : (c.relay.tls ≡ codes "implicit") ⊎ (c.relay.tls ≡ codes "starttls")
  pub mode : c.mode ≡ lab
  pub loopback : all (λ (a : SocketAddr). is_loopback a.ip) (listeners_of c) ≡ true

names_iff :
    (c : Config)
    → (validate_names c ≡ good tt) ↔ (
        (valid_domain c.hostname ≡ true)
        × Within 1 100 (length c.local_domains)
        × AllDistinct (map lowercase c.local_domains)
        × (all valid_domain (map lowercase c.local_domains) ≡ true))
unfolding validate_names require
names_iff c =
    let names = map lowercase c.local_domains in
    let occupied = not-is_empty c.local_domains in
    let same_length = length-map lowercase c.local_domains in
    let once = hash_set-AllDistinct names in
    let whole = hash_set_lem names in (ground arith, ground arith)

tls_iff :
    (t : Tls)
    → (validate_tls t ≡ good tt)
      ↔ ((t.minimum_version ≡ codes "1.2") ⊎ (t.minimum_version ≡ codes "1.3"))
unfolding validate_tls require
tls_iff t =
    ground
      (arith, equal_iff t.minimum_version (codes "1.2"), equal_iff t.minimum_version (codes "1.3"))

require-holds : (b : Bool) (reason : String) → require b reason ≡ good tt → b ≡ true
unfolding require
require-holds b reason h = ground arith

timeouts_iff :
    (c : Config)
    → (validate_timeouts c ≡ good tt) ↔ (
        All (Within 1 86400) (durations_of c)
        × (c.timeouts.data_idle_seconds ≤ c.timeouts.data_total_seconds))
unfolding validate_timeouts require
timeouts_iff c =
    let bounded = all_iff (within 1 86400) (Within 1 86400) (durations_of c) (within_iff 1 86400) in
    (
      λ h.
          let (first, second) = then-eq-good _ _ h in
          (bounded.0 (require-holds (all (within 1 86400) (durations_of c)) _ first), ground arith),
      λ (b, i). simp (bounded.1 b) (ground arith),
    )

store_iff :
    (s : StoreLimits)
    → (validate_store s ≡ good tt)
      ↔ (Within 1 1024 s.writer_queue × Within 128 65536 s.writer_cache_kib)
unfolding validate_store require
store_iff s = ground arith

relay_iff :
    (r : RelayHost)
    → (validate_relay r ≡ good tt) ↔ (
        (valid_domain r.host ≡ true)
        × (1 ≤ r.port)
        × ((r.tls ≡ codes "implicit") ⊎ (r.tls ≡ codes "starttls")))
unfolding validate_relay require
relay_iff r = ground (arith, equal_iff r.tls (codes "implicit"), equal_iff r.tls (codes "starttls"))

is_lab_iff : (m : Mode) → (is_lab m ≡ true) ↔ (m ≡ lab)
is_lab_iff lab = (λ _. refl, λ _. refl)
is_lab_iff production = ground arith

sections :
    (c : Config)
    → validate c ≡ good tt
    → (validate_names c ≡ good tt)
      × (validate_paths (paths_of c) ≡ good tt)
      × (validate_listeners (listeners_of c) ≡ good tt)
      × (validate_tls c.tls ≡ good tt)
      × (validate_limits c.limits ≡ good tt)
      × (validate_timeouts c ≡ good tt)
      × (validate_store c.store ≡ good tt)
      × (validate_authentication c.authentication ≡ good tt)
      × (validate_delivery c.delivery ≡ good tt)
      × (validate_relay c.relay ≡ good tt)
      × (is_lab c.mode ≡ true)
      × (all (λ (a : SocketAddr). is_loopback a.ip) (listeners_of c) ≡ true)
unfolding validate
sections c h =
    let (names, h1) = then-eq-good _ _ h in
    let (paths, h2) = then-eq-good _ _ h1 in
    let (listeners, h3) = then-eq-good _ _ h2 in
    let (tls, h4) = then-eq-good _ _ h3 in
    let (limits, h5) = then-eq-good _ _ h4 in
    let (timeouts, h6) = then-eq-good _ _ h5 in
    let (store, h7) = then-eq-good _ _ h6 in
    let (authentication, h8) = then-eq-good _ _ h7 in
    let (delivery, h9) = then-eq-good _ _ h8 in
    let (relay, h10) = then-eq-good _ _ h9 in
    let (mode, loopback) = then-eq-good _ _ h10 in
    (
      names,
      paths,
      listeners,
      tls,
      limits,
      timeouts,
      store,
      authentication,
      delivery,
      relay,
      require-holds (is_lab c.mode) _ mode,
      require-holds _ _ loopback,
    )

-- A configuration passes `validate` exactly when each of its values is in the range that the messages
-- name: the domains are valid names and none is given twice in any case, no two listeners overlap and
-- all bind a loopback address, the limits, the deadlines and the retry schedule are bounded, and the
-- mode is the laboratory.
pub validate-Accepts : (c : Config) → (validate c ≡ good tt) ↔ Accepts c
unfolding validate require
validate-Accepts c = (
  λ h.
      let (
        names, paths, listeners, tls, limits, timeouts, store, authentication, delivery, relay,
        mode, loopback,
      ) =
        sections c h in
      let (hostname, domains, different, valid_domains) = (names_iff c).0 names in
      let (durations, idle) = (timeouts_iff c).0 timeouts in
      let (writer, cache) = (store_iff c.store).0 store in
      let (relay_host, relay_port, relay_tls) = (relay_iff c.relay).0 relay in
      record {
        hostname = hostname;
        domains = domains;
        different = different;
        valid_domains = valid_domains;
        paths = (paths_iff (paths_of c)).0 paths;
        apart = (listeners_iff (listeners_of c)).0 listeners;
        version = (tls_iff c.tls).0 tls;
        limits = (limits_iff c.limits).0 limits;
        durations = durations;
        idle = idle;
        writer = writer;
        cache = cache;
        authentication = (authentication_iff c.authentication).0 authentication;
        delivery = (delivery_iff c.delivery).0 delivery;
        relay_host = relay_host;
        relay_port = relay_port;
        relay_tls = relay_tls;
        mode = (is_lab_iff c.mode).0 mode;
        loopback = loopback;
      },
  λ a.
      rw
        (
          (names_iff c).1 (a.hostname, a.domains, a.different, a.valid_domains),
          (paths_iff (paths_of c)).1 a.paths,
          (listeners_iff (listeners_of c)).1 a.apart,
          (tls_iff c.tls).1 a.version,
          (limits_iff c.limits).1 a.limits,
          (timeouts_iff c).1 (a.durations, a.idle),
          (store_iff c.store).1 (a.writer, a.cache),
          (authentication_iff c.authentication).1 a.authentication,
          (delivery_iff c.delivery).1 a.delivery,
          (relay_iff c.relay).1 (a.relay_host, a.relay_port, a.relay_tls),
          (is_lab_iff c.mode).1 a.mode,
          a.loopback,
        )
        refl,
)
