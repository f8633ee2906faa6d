-- ===== src/Gateway/InternalAuth/Guard.antt =====
-- What the guard of the api lets pass.
use fullstack_starter.Prelude.{
  ℕ, String, ◌≡◌, ◌≢◌, refl, sym, ap, ◌∙◌, inl, inr, true, false, Bool-cases, Option, none, some,
  List, [], ◌∷◌, present, present-inv, some_cancel, normalise_pem, is_truthy, or_else,
}
use fullstack_starter.Async.{Result, ok, error, and_then, handle_with, ok-injective}
use fullstack_starter.Dto.{Permission, includes_any}
use fullstack_starter.Gateway.InternalAuth.{
  InternalScope, InternalClaims, SignOptions, VerifyOptions, Jose, Guarded, denied, passed, invalid,
  scope_allowed, permissions_allowed, issuer_or, audience_or, check_claims, sign_system_context,
  sign_claims, verify_internal_auth, guard_token, require_internal_auth,
}

claims_of : Guarded → InternalClaims → InternalClaims
claims_of (denied status code) d = d
claims_of (passed claims) d = claims

passed-injective : {c d : InternalClaims} → passed c ≡ passed d → c ≡ d
unfolding claims_of
passed-injective {c} h = ap (λ g. claims_of g c) h

check_claims-passed :
    (allowed : Option (List InternalScope)) (required : Option (List Permission))
    (c d : InternalClaims)
    → check_claims allowed required c ≡ passed d
    → (c ≡ d)
      × (scope_allowed allowed d.scope ≡ true)
      × (permissions_allowed required d.permissions ≡ true)
unfolding check_claims
check_claims-passed allowed required c d h = elim (Bool-cases (scope_allowed allowed c.scope)) [
  | inr outside ↦ cc (rw outside at h)
  | inl inside ↦ elim (Bool-cases (permissions_allowed required c.permissions)) [
    | inr short ↦ cc (rw (inside, short) at h)
    | inl held ↦
        let same = passed-injective (rw (inside, held) at h) in
        (
          same,
          ap (λ z. scope_allowed allowed z.scope) (sym same) ∙ inside,
          ap (λ z. permissions_allowed required z.permissions) (sym same) ∙ held,
        )
  ]
]

-- A token that verifies carries the permissions that it was signed with.
pub record JoseLaws {W : Type 0} (jose : Jose W) : Type 0 where
  pub integrity :
      (claims d : InternalClaims) (issuer audience : String) (ttl : ℕ) (key token : String)
      (other other_issuer other_audience : String) (w later : W)
      → (jose.sign claims issuer audience ttl key w).0 ≡ ok token
      → (jose.verify token other other_issuer other_audience later).0 ≡ ok d
      → d.permissions ≡ claims.permissions

none_held : (required : List Permission) → includes_any [] required ≡ false
none_held [] = refl
none_held (q ∷ required) = none_held required

module _ {W : Type 0} (jose : Jose W) where
  guarded-passed :
      (allowed : Option (List InternalScope)) (required : Option (List Permission))
      (c : InternalClaims) (y : Result InternalClaims × W)
      → (handle_with
          (and_then y (λ d w. (ok (check_claims allowed required d), w)))
          (λ e w. (ok invalid, w))).0
        ≡ ok (passed c)
      → (y.0 ≡ ok c)
        × (scope_allowed allowed c.scope ≡ true)
        × (permissions_allowed required c.permissions ≡ true)
  guarded-passed allowed required c (ok d, w) h =
      let (same, scope, held) = check_claims-passed allowed required d c (ok-injective h) in
      (ap ok same, scope, held)
  guarded-passed allowed required c (error e, w) h = cc

  guard_token-passed :
      (options : VerifyOptions) (allowed : Option (List InternalScope))
      (required : Option (List Permission)) (x : Option String) (w : W) (c : InternalClaims)
      → (guard_token jose options allowed required x w).0 ≡ ok (passed c)
      → (token : String) × (x ≡ some token)
        × ((verify_internal_auth jose token options w).0 ≡ ok c)
        × (scope_allowed allowed c.scope ≡ true)
        × (permissions_allowed required c.permissions ≡ true)
  unfolding guard_token
  guard_token-passed options allowed required none w c h = cc
  guard_token-passed options allowed required (some token) w c h =
      let (verified, scope, held) =
        guarded-passed allowed required c (verify_internal_auth jose token options w) h in
      (token, refl, verified, scope, held)

  -- A call that the guard lets pass carries a token that verifies, and the claims that the handlers
  -- read are the token's: their scope is one of the allowed ones, if the route names any, and their
  -- permissions hold one of the required ones, if it requires any.
  pub require_internal_auth-passed :
      (options : VerifyOptions) (allowed : Option (List InternalScope))
      (required : Option (List Permission)) (header : Option String) (w : W) (c : InternalClaims)
      → (require_internal_auth jose options allowed required header w).0 ≡ ok (passed c)
      → (token : String) × (header ≡ some token)
        × ((verify_internal_auth jose token options w).0 ≡ ok c)
        × (scope_allowed allowed c.scope ≡ true)
        × (permissions_allowed required c.permissions ≡ true)
  unfolding require_internal_auth
  require_internal_auth-passed options allowed required header w c h =
      let (token, given, verified, scope, held) =
        guard_token-passed options allowed required (present header) w c h in
      (token, present-inv header token given, verified, scope, held)

  signed_by :
      (claims : InternalClaims) (private_key : String) (options : SignOptions) (token : String)
      (w : W)
      → (sign_claims jose claims private_key options w).0 ≡ ok token
      → (jose.sign claims
          (issuer_or options.issuer)
          (audience_or options.audience)
          (or_else options.ttl_seconds 60)
          (normalise_pem private_key)
          w).0
        ≡ ok token
  unfolding sign_claims
  signed_by claims private_key options token w h = elim (Bool-cases (is_truthy private_key)) [
    | inl given ↦ rw given at h
    | inr missing ↦ cc (rw missing at h)
  ]

  verified_by :
      (options : VerifyOptions) (token : String) (w : W) (c : InternalClaims)
      → (verify_internal_auth jose token options w).0 ≡ ok c
      → (jose.verify token
          (normalise_pem options.public_key)
          (issuer_or options.issuer)
          (audience_or options.audience)
          w).0
        ≡ ok c
  unfolding verify_internal_auth
  verified_by options token w c h = elim (Bool-cases (is_truthy options.public_key)) [
    | inl given ↦ rw given at h
    | inr missing ↦ cc (rw missing at h)
  ]

  -- the permissions of a system token that verifies
  held_by_system :
      (scope : InternalScope) (request_id private_key : String) (sign_options : SignOptions)
      (options : VerifyOptions) (required : List Permission) (token : String) (w later : W)
      (c : InternalClaims)
      → JoseLaws jose
      → (sign_system_context jose scope request_id private_key sign_options w).0 ≡ ok token
      → (verify_internal_auth jose token options later).0 ≡ ok c
      → includes_any c.permissions required ≡ true
      → includes_any [] required ≡ true
  unfolding sign_system_context
  held_by_system scope request_id private_key sign_options options required token w later c laws
        signed verified held =
      let claims : InternalClaims = record {
        sub = "system";
        scope = scope;
        permissions = [];
        request_id = request_id;
      } in
      let same =
        laws.integrity claims c _ _ _ _ token _ _ _ w later
          (signed_by claims private_key sign_options token w signed)
          (verified_by options token later c verified) in
      ap (λ ps. includes_any ps required) (sym same) ∙ held

  -- A token that the gateway signs for itself passes no route that requires a permission, if a
  -- token that verifies carries the permissions that it was signed with: the system holds none.
  pub system_token-powerless :
      (scope : InternalScope) (request_id private_key : String) (sign_options : SignOptions)
      (options : VerifyOptions) (allowed : Option (List InternalScope)) (required : List Permission)
      (token : String) (w later : W) (c : InternalClaims)
      → JoseLaws jose
      → (sign_system_context jose scope request_id private_key sign_options w).0 ≡ ok token
      → (require_internal_auth jose options allowed (some required) (some token) later).0
        ≢ ok (passed c)
  system_token-powerless scope request_id private_key sign_options options allowed required token w
        later c laws signed h =
      let (other, same_token, verified, inside, held) =
        require_internal_auth-passed options allowed (some required) (some token) later c h in
      cc (
        none_held required,
        held_by_system scope request_id private_key sign_options options required token w later c
            laws signed
            (ap (λ t. (verify_internal_auth jose t options later).0) (some_cancel same_token)
              ∙ verified)
            held,
      )
