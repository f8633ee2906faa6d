-- ===== src/Gateway/InternalAuth.antt =====
-- libs/internal-auth: the token that the gateway puts on each call to the api, and the guard that
-- checks it there. The signature is a call of the library jose, a parameter.
pub mod Guard
use fullstack_starter.Prelude.{
  ℕ, String, Bool, true, false, ◌&&◌, not, Option, none, some, List, [], ◌∷◌, any, or_else,
  map_option, if◌then◌else◌, is_truthy, present, normalise_pem, decimal,
}
use fullstack_starter.Async.{Async, pure, throw, new_error, try_catch, ◌>>=◌}
use fullstack_starter.Dto.{Permission, includes_any}

pub data InternalScope : Type 0 where
  user_request auth_validate refresh_lifecycle federated_identity : InternalScope

abbrev pub same_scope : InternalScope → InternalScope → Bool
same_scope user_request user_request = true
same_scope auth_validate auth_validate = true
same_scope refresh_lifecycle refresh_lifecycle = true
same_scope federated_identity federated_identity = true
same_scope _ _ = false

-- the claims of a token, with `sub` as its text
pub record InternalClaims : Type 0 where
  pub sub : String
  pub scope : InternalScope
  pub permissions : List Permission
  pub request_id : String

-- what a token is bound to: issuer, audience and, for a signature, the time to live in seconds
pub record SignOptions : Type 0 where
  pub issuer : Option String
  pub audience : Option String
  pub ttl_seconds : Option ℕ

pub record VerifyOptions : Type 0 where
  pub public_key : String
  pub issuer : Option String
  pub audience : Option String

-- `SignJWT` and `jwtVerify` of jose with EdDSA. `sign claims issuer audience ttl key`, and
-- `verify token key issuer audience`; a key is the text in PEM.
pub record Jose (W : Type 0) : Type 0 where
  pub sign : InternalClaims → String → String → ℕ → String → Async W String
  pub verify : String → String → String → String → Async W InternalClaims

-- what the guard does: it answers with a status and a code, or goes on with the claims
pub data Guarded : Type 0 where
  denied : ℕ → String → Guarded
  passed : InternalClaims → Guarded

abbrev pub issuer_or : Option String → String
issuer_or x = or_else x "gateway"

abbrev pub audience_or : Option String → String
audience_or x = or_else x "api"

abbrev pub invalid : Guarded
invalid = denied 401 "INTERNAL_AUTH_INVALID"

abbrev pub scope_allowed : Option (List InternalScope) → InternalScope → Bool
scope_allowed none scope = true
scope_allowed (some allowed) scope = any (same_scope scope) allowed

abbrev pub permissions_allowed : Option (List Permission) → List Permission → Bool
permissions_allowed none held = true
permissions_allowed (some required) held = includes_any held required

-- The guard's tests on verified claims, in their order.
unfoldable pub check_claims :
    Option (List InternalScope) → Option (List Permission) → InternalClaims → Guarded
check_claims allowed required claims =
    if not (scope_allowed allowed claims.scope)
    then denied 403 "INTERNAL_AUTH_SCOPE_DENIED"
    else (if not (permissions_allowed required claims.permissions)
        then denied 403 "INTERNAL_AUTH_PERMISSION_DENIED"
        else passed claims)

module _ {W : Type 0} (jose : Jose W) where
  unfoldable pub sign_claims : InternalClaims → String → SignOptions → Async W String
  sign_claims claims private_key options =
      if is_truthy private_key
      then jose.sign claims (issuer_or options.issuer) (audience_or options.audience)
          (or_else options.ttl_seconds 60) (normalise_pem private_key)
      else throw (new_error "INTERNAL_JWT_PRIVATE_KEY is not configured")

  -- The gateway always gives the request id; the subject of a user is the number as a text.
  unfoldable pub sign_user_context :
      ℕ → List Permission → String → String → SignOptions → Async W String
  unfolding sign_claims
  sign_user_context user_id permissions request_id private_key options =
      sign_claims
        (record {
          sub = decimal user_id;
          scope = user_request;
          permissions = permissions;
          request_id = request_id;
        })
        private_key options

  -- The gateway always gives the request id.
  unfoldable pub sign_system_context :
      InternalScope → String → String → SignOptions → Async W String
  unfolding sign_claims
  sign_system_context scope request_id private_key options =
      sign_claims
        (record { sub = "system"; scope = scope; permissions = []; request_id = request_id })
        private_key options

  unfoldable pub verify_internal_auth : String → VerifyOptions → Async W InternalClaims
  verify_internal_auth token options =
      if is_truthy options.public_key
      then jose.verify token (normalise_pem options.public_key) (issuer_or options.issuer)
          (audience_or options.audience)
      else throw (new_error "INTERNAL_JWT_PUBLIC_KEY is not configured")

  unfoldable pub guard_token :
      VerifyOptions
      → Option (List InternalScope)
      → Option (List Permission)
      → Option String
      → Async W Guarded
  unfolding verify_internal_auth check_claims
  guard_token options allowed required none = pure (denied 401 "INTERNAL_AUTH_MISSING")
  guard_token options allowed required (some token) =
      try_catch
        (do
          claims ← verify_internal_auth token options
          pure (check_claims allowed required claims))
        (λ e. pure invalid)

  unfoldable pub require_internal_auth :
      VerifyOptions
      → Option (List InternalScope)
      → Option (List Permission)
      → Option String
      → Async W Guarded
  unfolding guard_token
  require_internal_auth options allowed required header =
      guard_token options allowed required (present header)
