-- ===== src/Gateway/FederationUrl/Safe.antt =====
-- Which URLs a federation may use, written without the order of the guard's tests.
use fullstack_starter.Prelude.{
  ℕ, ◌<◌, String, ◌≡◌, ◌≢◌, refl, ◌↔◌, ◌⊎◌, inl, inr, Bool, true, false, ◌&&◌, ◌||◌, Bool-cases,
  Option, none, some, arith, leb, eqb, ◌==◌, eq_iff,
}
use fullstack_starter.Async.{ok}
use fullstack_starter.Gateway.FederationUrl.{
  Url, parse_ipv4, bare_host, is_always_blocked_ip, is_always_blocked_host, is_private_ip,
  is_private_host, check_url, assert_parsed, assert_safe_federation_url,
}

-- Neither in 0.0.0.0/8 nor in the link-local range 169.254.0.0/16.
abbrev pub OutsideBlocked : Option (ℕ × ℕ) → Type 0
OutsideBlocked none = Unit
OutsideBlocked (some (a, b)) = (a ≢ 0) × ((a ≢ 169) ⊎ (b ≢ 254))

-- Outside 127.0.0.0/8, 10.0.0.0/8, 192.168.0.0/16 and 172.16.0.0/12.
abbrev pub OutsidePrivate : Option (ℕ × ℕ) → Type 0
OutsidePrivate none = Unit
OutsidePrivate (some (a, b)) =
    (a ≢ 127) × (a ≢ 10) × ((a ≢ 192) ⊎ (b ≢ 168)) × ((a ≢ 172) ⊎ ((b < 16) ⊎ (31 < b)))

abbrev pub NeverBlocked : String → Type 0
NeverBlocked h = (h ≢ "0.0.0.0") × OutsideBlocked (parse_ipv4 h)

abbrev pub IsPublicHost : String → Type 0
IsPublicHost h = (h ≢ "localhost") × (h ≢ "::1") × OutsidePrivate (parse_ipv4 h)

-- With the escape hatch also http and private hosts, without it https to a public host only.
abbrev pub Allowed : Bool → Url → Type 0
Allowed true url = (url.protocol ≡ "https:") ⊎ (url.protocol ≡ "http:")
Allowed false url = (url.protocol ≡ "https:") × IsPublicHost (bare_host url.hostname)

abbrev pub IsSafe : Bool → Option Url → Type 0
IsSafe allow_insecure none = ⊥
IsSafe allow_insecure (some url) =
    NeverBlocked (bare_host url.hostname) × Allowed allow_insecure url

not_both : (a b x y : ℕ) → (eqb a x && eqb b y) ≡ false → (a ≢ x) ⊎ (b ≢ y)
not_both a b x y h = elim (Bool-cases (eqb a x)) [
  | inl same ↦ inr (λ e. ground arith)
  | inr apart ↦ inl (λ e. ground arith)
]

not_between :
    (a b : ℕ) → (eqb a 172 && leb 16 b && leb b 31) ≡ false → (a ≢ 172) ⊎ ((b < 16) ⊎ (31 < b))
not_between a b h = elim (Bool-cases (eqb a 172)) [
  | inl same ↦ elim (Bool-cases (leb 16 b)) [
    | inl above ↦ inr (inr (ground arith))
    | inr below ↦ inr (inl (ground arith))
  ]
  | inr apart ↦ inl (λ e. ground arith)
]

blocked_ip_iff : (ip : Option (ℕ × ℕ)) → (is_always_blocked_ip ip ≡ false) ↔ OutsideBlocked ip
blocked_ip_iff none = (λ h. tt, λ h. refl)
blocked_ip_iff (some (a, b)) = (
  λ h. (λ e. ground arith, not_both a b 169 254 (ground arith)),
  λ (zero_free, link_local). ground (arith, zero_free, link_local),
)

private_ip_iff : (ip : Option (ℕ × ℕ)) → (is_private_ip ip ≡ false) ↔ OutsidePrivate ip
private_ip_iff none = (λ h. tt, λ h. refl)
private_ip_iff (some (a, b)) = (
  λ h. (
    λ e. ground arith,
    λ e. ground arith,
    not_both a b 192 168 (ground arith),
    not_between a b (ground arith),
  ),
  λ (loopback, ten, home, middle). ground (arith, loopback, ten, home, middle),
)

neq_iff : (s t : String) → ((s == t) ≡ false) ↔ (s ≢ t)
neq_iff s t = (
  λ h e. cc (h, (eq_iff s t).1 e),
  λ h. elim (Bool-cases (s == t)) [
    | inl same ↦ absurd (h ((eq_iff s t).0 same))
    | inr apart ↦ apart
  ],
)

or_iff : (a b : Bool) → ((a || b) ≡ false) ↔ ((a ≡ false) × (b ≡ false))
or_iff true b = (λ h. cc, λ h. h.0)
or_iff false b = (λ h. (refl, h), λ h. h.1)

blocked_host_iff :
    (host : String) → (is_always_blocked_host host ≡ false) ↔ NeverBlocked (bare_host host)
unfolding is_always_blocked_host
blocked_host_iff host =
    let ip = parse_ipv4 (bare_host host) in
    (
      λ h.
          let (name, number) = (or_iff _ _).0 h in
          ((neq_iff _ _).0 name, (blocked_ip_iff ip).0 number),
      λ (name, number). (or_iff _ _).1 ((neq_iff _ _).1 name, (blocked_ip_iff ip).1 number),
    )

private_host_iff : (host : String) → (is_private_host host ≡ false) ↔ IsPublicHost (bare_host host)
unfolding is_private_host
private_host_iff host =
    let ip = parse_ipv4 (bare_host host) in
    (
      λ h.
          let (names, number) = (or_iff _ _).0 h in
          let (name, loopback) = (or_iff _ _).0 names in
          ((neq_iff _ _).0 name, (neq_iff _ _).0 loopback, (private_ip_iff ip).0 number),
      λ (name, loopback, number). (or_iff _ _).1 (
        (or_iff _ _).1 ((neq_iff _ _).1 name, (neq_iff _ _).1 loopback),
        (private_ip_iff ip).1 number,
      ),
    )

tier_iff :
    (provider_id label : String) (url : Url) (allow_insecure : Bool)
    → is_always_blocked_host url.hostname ≡ false
    → (check_url provider_id url allow_insecure label ≡ ok (record {})) ↔ Allowed allow_insecure url
unfolding check_url
tier_iff provider_id label url true spared =
    rw spared (elim (Bool-cases (url.protocol == "https:")) [
      | inl https ↦ rw https (λ h. inl ((eq_iff _ _).0 https), λ h. refl)
      | inr other ↦ rw other (elim (Bool-cases (url.protocol == "http:")) [
        | inl http ↦ rw http (λ h. inr ((eq_iff _ _).0 http), λ h. refl)
        | inr neither ↦ rw neither (
          λ h. cc,
          λ h. elim h [
            | inl https ↦ absurd ((neq_iff _ _).0 other https)
            | inr http ↦ absurd ((neq_iff _ _).0 neither http)
          ],
        )
      ])
    ])
tier_iff provider_id label url false spared =
    rw spared (elim (Bool-cases (url.protocol == "https:")) [
      | inl https ↦ rw https (elim (Bool-cases (is_private_host url.hostname)) [
        | inl private ↦
            rw private
              (λ h. cc, λ (secure, public). cc (private, (private_host_iff url.hostname).1 public))
        | inr public ↦
            rw public
              (λ h. ((eq_iff _ _).0 https, (private_host_iff url.hostname).0 public), λ h. refl)
      ])
      | inr other ↦ rw other (λ h. cc, λ (secure, public). absurd ((neq_iff _ _).0 other secure))
    ])

check_url_iff :
    (provider_id label : String) (url : Url) (allow_insecure : Bool)
    → (check_url provider_id url allow_insecure label ≡ ok (record {}))
      ↔ IsSafe allow_insecure (some url)
unfolding check_url
check_url_iff provider_id label url allow_insecure =
    elim (Bool-cases (is_always_blocked_host url.hostname)) [
      | inl blocked ↦
          rw blocked
            (λ h. cc, λ (never, allowed). cc (blocked, (blocked_host_iff url.hostname).1 never))
      | inr spared ↦
          let (there, back) = tier_iff provider_id label url allow_insecure spared in
          (
            λ h. ((blocked_host_iff url.hostname).0 spared, there h),
            λ (never, allowed). back allowed,
          )
    ]

assert_parsed_iff :
    (provider_id label : String) (parsed : Option Url) (allow_insecure : Bool)
    → (assert_parsed provider_id parsed allow_insecure label ≡ ok (record {}))
      ↔ IsSafe allow_insecure parsed
unfolding assert_parsed
assert_parsed_iff provider_id label none allow_insecure = (λ h. cc, λ h. absurd h)
assert_parsed_iff provider_id label (some url) allow_insecure =
    check_url_iff provider_id label url allow_insecure

-- The guard accepts exactly the safe URLs: one that parses, whose host is never in the link-local or
-- the zero range, whatever the escape hatch says, and that without the escape hatch is https to no
-- loopback and no private host. The ranges are those of four dotted numbers, with the names
-- `localhost` and `::1`: no other host of IPv6 lies in one.
pub assert_safe_federation_url_iff :
    (parse_url : String → Option Url) (provider_id url label : String) (allow_insecure : Bool)
    → (assert_safe_federation_url parse_url provider_id url allow_insecure label ≡ ok (record {}))
      ↔ IsSafe allow_insecure (parse_url url)
unfolding assert_safe_federation_url
assert_safe_federation_url_iff parse_url provider_id url label allow_insecure =
    assert_parsed_iff provider_id label (parse_url url) allow_insecure
