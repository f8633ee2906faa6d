-- ===== src/Gateway/FederationUrl.antt =====
-- `assertSafeFederationUrl` of apps/gateway/src/sso/provider-registry.ts: which hosts the gateway
-- lets a configuration name. `new URL` is a parameter.
pub mod Safe
pub mod Dotted
use Prim.Native.String.{◌++◌}
use fullstack_starter.Prelude.{
  ℕ, ◌≤◌, ◌<◌, String, ◌≡◌, ◌≢◌, refl, ◌↔◌, ◌⊎◌, inl, inr, Bool, true, false, ◌&&◌, ◌||◌, not,
  Bool-cases, Option, none, some, Option-cases, List, [], ◌∷◌, arith, if◌then◌else◌, ltb, leb, eqb,
  ◌==◌, eq_iff, to_lower_case, strip_prefix, split_on, octet, strip_brackets,
}
use fullstack_starter.Async.{Result, ok, error, new_error}

-- what the program reads of `new URL(url)`
pub record Url : Type 0 where
  pub protocol : String
  pub hostname : String
  pub origin : String

-- the first two numbers, where all four are given
abbrev pub first_two : Option ℕ → Option ℕ → Option ℕ → Option ℕ → Option (ℕ × ℕ)
first_two (some a) (some b) (some c) (some d) = some (a, b)
first_two _ _ _ _ = none

abbrev pub octets : List String → Option (ℕ × ℕ)
octets (a ∷ b ∷ c ∷ d ∷ []) = first_two (octet a) (octet b) (octet c) (octet d)
octets _ = none

-- the match of `^(\d{1,3})\.(\d{1,3})\.(\d{1,3})\.(\d{1,3})$`
unfoldable pub parse_ipv4 : String → Option (ℕ × ℕ)
unfolding split_on octet
parse_ipv4 h = octets (split_on b'.' h)

unfoldable pub bare_host : String → String
unfolding strip_brackets to_lower_case
bare_host host = to_lower_case (strip_brackets host)

abbrev pub is_always_blocked_ip : Option (ℕ × ℕ) → Bool
is_always_blocked_ip none = false
is_always_blocked_ip (some (a, b)) = eqb a 0 || (eqb a 169 && eqb b 254)

unfoldable pub is_always_blocked_host : String → Bool
unfolding bare_host parse_ipv4
is_always_blocked_host host =
    bare_host host == "0.0.0.0" || is_always_blocked_ip (parse_ipv4 (bare_host host))

abbrev pub is_private_ip : Option (ℕ × ℕ) → Bool
is_private_ip none = false
is_private_ip (some (a, b)) =
    eqb a 127 || eqb a 10 || (eqb a 192 && eqb b 168) || (eqb a 172 && leb 16 b && leb b 31)

unfoldable pub is_private_host : String → Bool
unfolding bare_host parse_ipv4
is_private_host host =
    bare_host host == "localhost"
    || bare_host host == "::1"
    || is_private_ip (parse_ipv4 (bare_host host))

abbrev pub url_error : String → String → Result (Unit {0})
url_error provider_id message = error (new_error ("SSO provider \"" ++ provider_id ++ message))

unfoldable pub check_url : String → Url → Bool → String → Result (Unit {0})
unfolding is_always_blocked_host is_private_host
check_url provider_id parsed allow_insecure label =
    if is_always_blocked_host parsed.hostname
    then url_error provider_id ("\" " ++ label ++ " host is not allowed (link-local/metadata)")
    else (if not (parsed.protocol == "https:")
        then (if allow_insecure && parsed.protocol == "http:"
            then ok (record {})
            else url_error provider_id
                ("\" " ++ label ++ " must use https (got " ++ parsed.protocol ++ ")"))
        else (if not allow_insecure && is_private_host parsed.hostname
            then url_error provider_id
                ("\" " ++ label ++ " host is not allowed (loopback/link-local/private)")
            else ok (record {})))

unfoldable pub assert_parsed : String → Option Url → Bool → String → Result (Unit {0})
unfolding check_url
assert_parsed provider_id none allow_insecure label =
    url_error provider_id ("\" has a malformed " ++ label ++ " URL")
assert_parsed provider_id (some parsed) allow_insecure label =
    check_url provider_id parsed allow_insecure label

module _ (parse_url : String → Option Url) where
  unfoldable pub assert_safe_federation_url : String → String → Bool → String → Result (Unit {0})
  unfolding assert_parsed
  assert_safe_federation_url provider_id url allow_insecure label =
      assert_parsed provider_id (parse_url url) allow_insecure label
