-- ===== src/Gateway/FederationUrl/Dotted.antt =====
-- The guard on hosts of four decimal numbers, described without its parser.
use Prim.Native.String.{String, [], ◌∷◌}
use Prim.Native.Char.{Char, code}
use mathlib.Core.List.{[] as nil, ◌∷◌ as cons}
use fullstack_starter.Prelude.{
  ℕ, zero, suc, ◌<◌, ◌≤◌, ◌≡◌, ◌≢◌, ◌↔◌, ◌⊎◌, refl, sym, ap, ◌∙◌, Bool, true, false, ◌&&◌, Option,
  some, none, some_cancel, subst, eqb, eqb_iff, leb, arith, decimal, octet, split_on, is_dotted,
  to_lower_case-dotted, strip_brackets-dotted,
}
use fullstack_starter.Async.{ok}
use fullstack_starter.Gateway.FederationUrl.{
  Url, octets, parse_ipv4, bare_host, assert_safe_federation_url,
}
use fullstack_starter.Gateway.FederationUrl.Safe.{
  OutsideBlocked, OutsidePrivate, IsSafe, assert_safe_federation_url_iff,
}

-- a text, a dot, and a text
unfoldable pub dot_after : String → String → String
dot_after [] t = "." ∷ t
dot_after (c ∷ s) t = c ∷ dot_after s t

-- a host as `new URL` writes it: four numbers in decimal
abbrev pub dotted : ℕ → ℕ → ℕ → ℕ → String
dotted a b c d = dot_after (decimal a) (dot_after (decimal b) (dot_after (decimal c) (decimal d)))

prints : dotted 169 254 0 21 ≡ "169.254.0.21"
unfolding dot_after decimal
prints = refl

unfoldable is_digits : String → Bool
is_digits [] = true
is_digits (c ∷ s) = leb 48 (code c) && leb (code c) 57 && is_digits s

is_digits-rest :
    (c : Char) (s : String)
    → is_digits (c ∷ s) ≡ true
    → (48 ≤ code c) × (code c ≤ 57) × (is_digits s ≡ true)
unfolding is_digits
is_digits-rest c s h = (ground arith, ground arith, ground arith)

abbrev is_some_of : ℕ → Option ℕ → Bool
is_some_of n (some m) = eqb m n
is_some_of n _ = false

is_some_of-inv : (n : ℕ) (x : Option ℕ) → is_some_of n x ≡ true → x ≡ some n
is_some_of-inv n (some m) h = ap some ((eqb_iff m n).0 h)
is_some_of-inv n none h = cc

-- every octet is read back from its decimal digits
unfoldable is_read_back : ℕ → Bool
is_read_back n = is_some_of n (octet (decimal n)) && is_digits (decimal n)

unfoldable read_back_up_to : ℕ → Bool
read_back_up_to zero = true
read_back_up_to (suc bound) = read_back_up_to bound && is_read_back bound

all_octets : read_back_up_to 256 ≡ true
unfolding read_back_up_to is_read_back octet decimal is_digits
all_octets = refl

read_back_at : (bound n : ℕ) → n < bound → read_back_up_to bound ≡ true → is_read_back n ≡ true
unfolding read_back_up_to
read_back_at zero n below tested = absurd (omega (arith, below))
read_back_at (suc bound) n below tested = ground (arith, tested, read_back_at bound n)

octet-decimal : (n : ℕ) → n < 256 → (octet (decimal n) ≡ some n) × (is_digits (decimal n) ≡ true)
unfolding is_read_back
octet-decimal n below =
    let tested = read_back_at 256 n below all_octets in
    (is_some_of-inv n (octet (decimal n)) (ground (arith, tested)), ground (arith, tested))

split_on-before :
    (s t : String) → is_digits s ≡ true → split_on b'.' (dot_after s t) ≡ cons s (split_on b'.' t)
unfolding split_on dot_after
split_on-before [] t h = refl
split_on-before (c ∷ s) t h =
    let (low, high, rest) = is_digits-rest c s h in
    ground (arith, low, high, split_on-before s t rest)

split_on-last : (s : String) → is_digits s ≡ true → split_on b'.' s ≡ cons s nil
unfolding split_on
split_on-last [] h = refl
split_on-last (c ∷ s) h =
    let (low, high, rest) = is_digits-rest c s h in ground (arith, low, high, split_on-last s rest)

dotted-digits :
    (s t : String) → is_digits s ≡ true → is_dotted t ≡ true → is_dotted (dot_after s t) ≡ true
unfolding is_dotted dot_after
dotted-digits [] t h g = ground (arith, g)
dotted-digits (c ∷ s) t h g =
    let (low, high, rest) = is_digits-rest c s h in
    ground (arith, low, high, dotted-digits s t rest g)

is_dotted-digits : (s : String) → is_digits s ≡ true → is_dotted s ≡ true
unfolding is_dotted
is_dotted-digits [] h = refl
is_dotted-digits (c ∷ s) h =
    let (low, high, rest) = is_digits-rest c s h in
    ground (arith, low, high, is_dotted-digits s rest)

module _ (a b c d : ℕ) (a_octet : a < 256) (b_octet : b < 256) (c_octet : c < 256)
    (d_octet : d < 256) where
  dotted-is_dotted : is_dotted (dotted a b c d) ≡ true
  dotted-is_dotted = dotted-digits (decimal a) _ (octet-decimal a a_octet).1 (
      dotted-digits (decimal b) _ (octet-decimal b b_octet).1 (
        dotted-digits (decimal c) _ (octet-decimal c c_octet).1
          (is_dotted-digits (decimal d) (octet-decimal d d_octet).1)))

  bare_host-dotted : bare_host (dotted a b c d) ≡ dotted a b c d
  unfolding bare_host
  bare_host-dotted =
      let h = dotted-is_dotted in
      rw (strip_brackets-dotted (dotted a b c d) h) (to_lower_case-dotted (dotted a b c d) h)

  parse_ipv4-dotted : parse_ipv4 (dotted a b c d) ≡ some (a, b)
  unfolding parse_ipv4
  parse_ipv4-dotted =
      let (read_a, digits_a) = octet-decimal a a_octet in
      let (read_b, digits_b) = octet-decimal b b_octet in
      let (read_c, digits_c) = octet-decimal c c_octet in
      let (read_d, digits_d) = octet-decimal d d_octet in
      let parts : split_on b'.' (dotted a b c d)
          ≡ cons (decimal a) (cons (decimal b) (cons (decimal c) (cons (decimal d) nil))) =
        split_on-before (decimal a) _ digits_a
        ∙ ap (cons (decimal a)) (
            split_on-before (decimal b) _ digits_b
            ∙ ap (cons (decimal b)) (
                split_on-before (decimal c) _ digits_c
                ∙ ap (cons (decimal c)) (split_on-last (decimal d) digits_d))) in
      ap octets parts ∙ rw (read_a, read_b, read_c, read_d)

-- Which numbers of IPv4 and which schemes are let through.
abbrev pub IsOutside : Bool → Url → ℕ → ℕ → Type 0
IsOutside true url a b =
    OutsideBlocked (some (a, b)) × ((url.protocol ≡ "https:") ⊎ (url.protocol ≡ "http:"))
IsOutside false url a b =
    OutsideBlocked (some (a, b)) × (url.protocol ≡ "https:") × OutsidePrivate (some (a, b))

zero_host : parse_ipv4 "0.0.0.0" ≡ some (0, 0)
unfolding parse_ipv4 split_on octet
zero_host = refl

local_host : parse_ipv4 "localhost" ≡ none
unfolding parse_ipv4 split_on octet
local_host = refl

loopback_host : parse_ipv4 "::1" ≡ none
unfolding parse_ipv4 split_on octet
loopback_host = refl

module _ (h : String) (a b : ℕ) (parsed : parse_ipv4 h ≡ some (a, b)) where
  not_zero : a ≢ 0 → h ≢ "0.0.0.0"
  not_zero positive e =
      positive (ap (λ z. z.0) (some_cancel (sym parsed ∙ ap parse_ipv4 e ∙ zero_host)))

  not_name : (name : String) → parse_ipv4 name ≡ none → h ≢ name
  not_name name unparsed e = cc (sym parsed ∙ ap parse_ipv4 e ∙ unparsed)

-- what the conditions of the guard come to for a host whose numbers are known
IsSafe-iff :
    (allow_insecure : Bool) (url : Url) (a b : ℕ)
    → parse_ipv4 (bare_host url.hostname) ≡ some (a, b)
    → IsSafe allow_insecure (some url) ↔ IsOutside allow_insecure url a b
IsSafe-iff true url a b h = (
  λ ((never, blocked), allowed). (subst OutsideBlocked h blocked, allowed),
  λ (outside, allowed). (
    (not_zero (bare_host url.hostname) a b h outside.0, subst OutsideBlocked (sym h) outside),
    allowed,
  ),
)
IsSafe-iff false url a b h = (
  λ ((never, blocked), (secure, (local, loopback, public))).
      (subst OutsideBlocked h blocked, secure, subst OutsidePrivate h public),
  λ (outside, secure, public). (
    (not_zero (bare_host url.hostname) a b h outside.0, subst OutsideBlocked (sym h) outside),
    (
      secure,
      (
        not_name (bare_host url.hostname) a b h "localhost" local_host,
        not_name (bare_host url.hostname) a b h "::1" loopback_host,
        subst OutsidePrivate (sym h) public,
      ),
    ),
  ),
)

-- A URL whose host is an address of IPv4, written as four numbers, is accepted exactly if the address
-- is outside 0.0.0.0/8 and the link-local range 169.254.0.0/16, whatever the escape hatch says, and
-- the scheme is https, or http with the escape hatch, and without the escape hatch the address is
-- also outside the loopback and the private ranges 127.0.0.0/8, 10.0.0.0/8, 192.168.0.0/16 and
-- 172.16.0.0/12.
pub assert_safe_federation_url-dotted :
    (parse_url : String → Option Url) (provider_id url label : String) (allow_insecure : Bool)
    (u : Url) (a b c d : ℕ)
    → a < 256
    → b < 256
    → c < 256
    → d < 256
    → parse_url url ≡ some u
    → u.hostname ≡ dotted a b c d
    → (assert_safe_federation_url parse_url provider_id url allow_insecure label ≡ ok (record {}))
      ↔ IsOutside allow_insecure u a b
assert_safe_federation_url-dotted parse_url provider_id url label allow_insecure u a b c d a_octet
      b_octet c_octet d_octet parsed host =
    let (there, back) =
      assert_safe_federation_url_iff parse_url provider_id url label allow_insecure in
    let bare : bare_host u.hostname ≡ dotted a b c d =
      ap bare_host host ∙ bare_host-dotted a b c d a_octet b_octet c_octet d_octet in
    let (safe, unsafe) =
      IsSafe-iff allow_insecure u a b
        (ap parse_ipv4 bare ∙ parse_ipv4-dotted a b c d a_octet b_octet c_octet d_octet) in
    (
      λ h. safe (subst (IsSafe allow_insecure) parsed (there h)),
      λ h. back (subst (IsSafe allow_insecure) (sym parsed) (unsafe h)),
    )
