-- ===== src/Front/SafeRedirect.antt =====
-- apps/front/src/app/libs/auth/safe-redirect.ts: where the browser goes after a login, beside the
-- filter of the gateway.
use Prim.Native.Char.{code}
use Prim.Native.String.{[], ◌∷◌}
use fullstack_starter.Prelude.{
  String, ◌≡◌, ◌≢◌, refl, ap, ◌∙◌, inl, inr, Bool, true, false, Bool-cases, ◌&&◌, ◌||◌, not, Option,
  none, some, arith, if◌then◌else◌, eqb, is_truthy,
}
use fullstack_starter.Gateway.SafeReturn.{
  has_control_chars, starts_with_slash, starts_protocol_relative, safe_return_to,
}

-- `[^\\]*$`
unfoldable pub has_backslash : String → Bool
has_backslash [] = false
has_backslash (c ∷ s) = eqb (code c) b'\\' || has_backslash s

-- `/^\/(?!\/)[^\\]*$/`
unfoldable pub is_same_origin_path : String → Bool
unfolding has_backslash starts_with_slash
is_same_origin_path [] = false
is_same_origin_path (c ∷ s) =
    eqb (code c) b'/' && not (starts_with_slash s) && not (has_backslash s)

unfoldable pub sanitize_redirect : Option String → String
unfolding is_same_origin_path
sanitize_redirect none = ""
sanitize_redirect (some url) = if is_truthy url && is_same_origin_path url then url else ""

blank_not_truthy : is_truthy "" ≢ true
blank_not_truthy h = cc

slash_first : (s : String) → is_same_origin_path s ≡ true → starts_with_slash s ≡ true
unfolding is_same_origin_path starts_with_slash
slash_first [] h = cc
slash_first (c ∷ s) h = ground arith

not_relative : (s : String) → is_same_origin_path s ≡ true → starts_protocol_relative s ≡ false
unfolding is_same_origin_path starts_with_slash starts_protocol_relative has_backslash
not_relative [] h = refl
not_relative (c ∷ []) h = refl
not_relative (c ∷ d ∷ s) h = ground arith

-- The filter of the front end leaves no destination but a path that does not go on to an authority,
-- and the gateway leaves that path as it is unless it holds a control character.
pub sanitize_redirect-safe :
    (s : String)
    → is_truthy s ≡ true
    → sanitize_redirect (some s) ≡ s
    → (starts_with_slash s ≡ true)
      × (starts_protocol_relative s ≡ false)
      × (has_control_chars s ≡ false → safe_return_to (some s) ≡ s)
unfolding sanitize_redirect safe_return_to
sanitize_redirect-safe s given kept = elim (Bool-cases (is_same_origin_path s)) [
  | inl path ↦ (
    slash_first s path,
    not_relative s path,
    λ clean. rw (slash_first s path, not_relative s path, clean) refl,
  )
  | inr other ↦
      let gone : "" ≡ s = rw (given, other) at kept in
      absurd (blank_not_truthy (ap is_truthy gone ∙ given))
]
