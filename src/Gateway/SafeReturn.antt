-- ===== src/Gateway/SafeReturn.antt =====
-- `safeReturnTo` of apps/gateway/src/sso/sso-transaction.service.ts: where a browser goes after a
-- login. A value that is no text is `none`.
use Prim.Native.Char.{Char, code}
use Prim.Native.String.{[], ◌∷◌}
use fullstack_starter.Prelude.{
  String, ◌≡◌, ◌≢◌, ◌<◌, refl, inl, inr, Bool, true, false, ◌&&◌, ◌||◌, not, Option, none, some,
  arith, if◌then◌else◌, leb, eqb, eqb_iff, Bool-cases,
}

unfoldable pub has_control_chars : String → Bool
has_control_chars [] = false
has_control_chars (c ∷ s) = leb (code c) 0x1f || eqb (code c) 0x7f || has_control_chars s

-- `s.startsWith('/')`
unfoldable pub starts_with_slash : String → Bool
starts_with_slash [] = false
starts_with_slash (c ∷ s) = eqb (code c) b'/'

-- `s.startsWith('//') || s.startsWith('/\\')`
unfoldable pub starts_protocol_relative : String → Bool
starts_protocol_relative [] = false
starts_protocol_relative (c ∷ []) = false
starts_protocol_relative (c ∷ d ∷ s) =
    (eqb (code c) b'/' && eqb (code d) b'/') || (eqb (code c) b'/' && eqb (code d) b'\\')

unfoldable pub safe_return_to : Option String → String
unfolding has_control_chars starts_with_slash starts_protocol_relative
safe_return_to none = "/"
safe_return_to (some raw) =
    if not (starts_with_slash raw)
    then "/"
    else (if starts_protocol_relative raw
        then "/"
        else (if has_control_chars raw then "/" else raw))

-- No character is a control character.
abbrev pub NoControl : String → Type 0
NoControl [] = Unit
NoControl (c ∷ s) = (0x1f < code c) × (code c ≢ 0x7f) × NoControl s

-- The text does not go on to an authority: `//` and, as browsers read it, `/\`.
abbrev pub NoAuthority : String → Type 0
NoAuthority [] = Unit
NoAuthority (c ∷ s) = (code c ≢ b'/') × (code c ≢ b'\\')

-- A path on the same site: a slash, no authority after it, and no control character.
abbrev pub IsSameSite : String → Type 0
IsSameSite [] = ⊥
IsSameSite (c ∷ s) = (code c ≡ b'/') × NoAuthority s × NoControl (c ∷ s)

no_control : (s : String) → has_control_chars s ≡ false → NoControl s
unfolding has_control_chars
no_control [] h = record {}
no_control (c ∷ s) h = (ground arith, λ e. ground arith, no_control s (ground arith))

control_free : (s : String) → NoControl s → has_control_chars s ≡ false
unfolding has_control_chars
control_free [] h = refl
control_free (c ∷ s) (above, apart, rest) = ground (arith, control_free s rest, apart, above)

no_authority :
    (c : Char) (s : String)
    → starts_with_slash (c ∷ s) ≡ true
    → starts_protocol_relative (c ∷ s) ≡ false
    → NoAuthority s
unfolding starts_with_slash starts_protocol_relative
no_authority c [] slash h = record {}
no_authority c (d ∷ s) slash h = (λ e. ground arith, λ e. ground arith)

authority_free : (c : Char) (s : String) → NoAuthority s → starts_protocol_relative (c ∷ s) ≡ false
unfolding starts_protocol_relative
authority_free c [] h = refl
authority_free c (d ∷ s) (slash, backslash) = ground (arith, slash, backslash)

fallback : IsSameSite "/"
fallback = (refl, record {}, (omega arith, λ h. absurd (omega (arith, h)), record {}))

same_site :
    (s : String)
    → starts_with_slash s ≡ true
    → starts_protocol_relative s ≡ false
    → has_control_chars s ≡ false
    → IsSameSite s
unfolding starts_with_slash
same_site [] slash relative control = cc
same_site (c ∷ s) slash relative control =
    ((eqb_iff _ _).0 slash, no_authority c s slash relative, no_control (c ∷ s) control)

-- Whatever the request asks for, the browser is sent to a path on the same site: a slash, then
-- neither a slash nor a backslash, and no control character.
pub safe_return_to-IsSameSite : (raw : Option String) → IsSameSite (safe_return_to raw)
unfolding safe_return_to
safe_return_to-IsSameSite none = fallback
safe_return_to-IsSameSite (some raw) = elim (Bool-cases (starts_with_slash raw)) [
  | inl slash ↦ elim (Bool-cases (starts_protocol_relative raw)) [
    | inl relative ↦ rw (slash, relative) fallback
    | inr plain ↦ elim (Bool-cases (has_control_chars raw)) [
      | inl control ↦ rw (slash, plain, control) fallback
      | inr clean ↦ rw (slash, plain, clean) (same_site raw slash plain clean)
    ]
  ]
  | inr other ↦ rw other fallback
]

-- A path on the same site is left as it is: the filter refuses no more than it must.
pub safe_return_to-kept : (s : String) → IsSameSite s → safe_return_to (some s) ≡ s
unfolding safe_return_to starts_with_slash
safe_return_to-kept [] h = absurd h
safe_return_to-kept (c ∷ s) (slash, authority, control) =
    rw ((eqb_iff _ _).1 slash, authority_free c s authority, control_free (c ∷ s) control) refl
