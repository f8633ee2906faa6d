-- ===== src/Gateway/Examples.antt =====
-- Runs of the gateway on a platform that signs a token as the text of its type.
use fullstack_starter.Prelude.{
  any, ◌&&◌, ℕ, suc, String, ◌≡◌, refl, sym, ◌∙◌, ap, true, false, Option, none, some, List, [],
  ◌∷◌, ◌⊎◌,
}
use fullstack_starter.Async.{Result, ok, error, new_error, ok-injective}
use fullstack_starter.Http.{error_json}
use fullstack_starter.Dto.{includes, Permission, admin, read_some_entity}
use fullstack_starter.Gateway.InternalAuth.{
  InternalClaims, auth_validate, VerifyOptions, Jose, scope_allowed, permissions_allowed,
  check_claims, verify_internal_auth, guard_token, require_internal_auth,
}
use fullstack_starter.Gateway.InternalAuth.Guard.{JoseLaws, require_internal_auth-passed}
use fullstack_starter.Gateway.ApiClient.{Reply, RotateRefreshResponse, ValidateCredentialsResponse}
use fullstack_starter.Gateway.Platform.{Platform, Claims}
use fullstack_starter.Gateway.TokenService.{TokenInput, verify_access_token}
use fullstack_starter.Gateway.TokenService.Kinds.{JwtLaws}
use fullstack_starter.Gateway.Session.{
  Exchange, kept, cleared, next, answer, Request, insufficient, has_any_permission, is_denied,
  rotate_and_continue, accept_access, with_tokens, has_permission,
}
use fullstack_starter.Gateway.Session.Access.{IsAuthorized, next-IsAuthorized}
use fullstack_starter.Gateway.Session.Rejection.{rotation_outcomes}
use fullstack_starter.Gateway.AuthController.{LoginBody}
use fullstack_starter.Gateway.PermissionMapper.{
  GroupsClaim, array, ClaimPermissionMapping, groups_of, has_group, map_groups_to_permissions,
  map_groups_to_permissions-grants,
}
use fullstack_starter.Gateway.SsoTransaction.{
  SsoTransaction, SsoTransactionPayload, TransactionJwt, SsoEnv, CookieOptions,
}
use fullstack_starter.Api.Federated.Permissions.{NoRepeats}
use fullstack_starter.Gateway.SafeReturn.{IsSameSite, safe_return_to, safe_return_to-IsSameSite}

abbrev sign_typ : Option String → Result String
sign_typ none = error (new_error "no type")
sign_typ (some typ) = ok typ

abbrev claims_of : String → Claims
claims_of typ = record {
  id = 7;
  email = "ana@x.es";
  permissions = some (read_some_entity ∷ []);
  remember = some true;
  family_id = some "f";
  typ = some typ;
  jti = some "a";
}

abbrev sign_none : List Permission → Result String
sign_none [] = ok "system"
sign_none (p ∷ ps) = error (new_error "not the system")

abbrev jose : Jose ℕ
jose = record {
  sign = λ claims issuer audience ttl key w. (sign_none claims.permissions, w);
  verify = λ token key issuer audience w.
      (ok (record { sub = token; scope = auth_validate; permissions = []; request_id = "r" }), w);
}

abbrev good : {T : Type 0} → T → Reply T
good v = record { is_ok = true; status = 200; value = ok v; error_field = ok none }

abbrev rotation : RotateRefreshResponse
rotation = record {
  user_id = 7;
  family_id = "f";
  parent_jti = "a";
  email = none;
  permissions = some (read_some_entity ∷ []);
}

abbrev ana : ValidateCredentialsResponse
ana = record { id = 7; email = "ana@x.es"; permissions = read_some_entity ∷ [] }

abbrev pub platform : Platform ℕ
platform = record {
  env = record {
    jwt_access_secret = some "one";
    jwt_refresh_secret = some "two";
    jwt_issuer = none;
    jwt_audience = none;
    jwt_expires_in = none;
    jwt_refresh_expires_in = none;
    jwt_refresh_remember_days = none;
    internal_jwt_private_key = some "key";
    production = true;
  };
  jwt_sign = λ claims secret issuer audience expiry w. sign_typ claims.typ;
  jwt_verify = λ token secret issuer audience w. ok (claims_of token);
  random_uuid = λ w. ("u", suc w);
  jose = jose;
  fetch_validate = λ path token request_id body w. (ok (good ana), suc w);
  fetch_record = λ path token request_id body w. (ok (good true), suc w);
  fetch_rotate = λ path token request_id body w. (ok (good rotation), suc w);
  fetch_revoke = λ path token request_id body w. (ok (good true), suc w);
}

abbrev pub start : Exchange ℕ
start = record {
  world = 0;
  authorization = none;
  refresh_cookie = kept;
  local_user = none;
  hint_cleared = false;
}

abbrev asked : Request
asked = record { is_options = false; authorization = some "access"; refresh_token = some "refresh" }

next-IsAuthorized_example :
    ((token : String) × (some "refresh" ≡ some token))
    × IsAuthorized platform
        (some (read_some_entity ∷ []))
        (some "access")
        (some "refresh")
        0
        (has_permission platform (some (read_some_entity ∷ [])) asked start).1
unfolding has_permission with_tokens accept_access is_denied has_any_permission verify_access_token
next-IsAuthorized_example =
    next-IsAuthorized platform (some (read_some_entity ∷ [])) asked start refl refl

rotation_outcomes_example :
    let out = rotate_and_continue platform (some (admin ∷ [])) (claims_of "refresh") start in
    (out.0 ≡ ok next)
    ⊎ ((out.0 ≡ ok insufficient)
        ⊎ ((status : ℕ) × (out.0 ≡ ok (answer (error_json "Refresh rejected" status)))
            × (out.1.refresh_cookie ≡ cleared)))
rotation_outcomes_example =
    rotation_outcomes platform (some (admin ∷ [])) (claims_of "refresh") start

sign_typ-integrity :
    (typ : Option String) (token : String) → sign_typ typ ≡ ok token → some token ≡ typ
sign_typ-integrity none token h = cc
sign_typ-integrity (some typ) token h = ap some (sym (ok-injective h))

jwt_laws : JwtLaws platform
jwt_laws = record {
  integrity =
      λ c d secret issuer audience expiry w token other other_issuer other_audience later made
          verified.
        ap (λ z. z.typ) (sym (ok-injective verified)) ∙ sign_typ-integrity c.typ token made;
}

abbrev input : TokenInput
input = record { id = 7; email = "ana@x.es"; permissions = [] }

sign_none-integrity : (ps : List Permission) (token : String) → sign_none ps ≡ ok token → [] ≡ ps
sign_none-integrity [] token h = refl
sign_none-integrity (p ∷ ps) token h = cc

jose_laws : JoseLaws jose
jose_laws = record {
  integrity =
      λ claims d issuer audience ttl key token other other_issuer other_audience w later made
          verified.
        ap (λ z. z.permissions) (sym (ok-injective verified))
        ∙ sign_none-integrity claims.permissions token made;
}

abbrev verify_options : VerifyOptions
verify_options = record { public_key = "key"; issuer = none; audience = none }

abbrev system_claims : InternalClaims
system_claims = record { sub = "system"; scope = auth_validate; permissions = []; request_id = "r" }

guard_example :
    (token : String) × (some "system" ≡ some token)
    × ((verify_internal_auth jose token verify_options 0).0 ≡ ok system_claims)
    × (scope_allowed (some (auth_validate ∷ [])) auth_validate ≡ true)
    × (permissions_allowed none [] ≡ true)
unfolding require_internal_auth guard_token verify_internal_auth check_claims
guard_example =
    require_internal_auth-passed jose verify_options (some (auth_validate ∷ [])) none
      (some "system") 0 system_claims refl

abbrev login_body : LoginBody
login_body = record { email = some "ana@x.es"; password = some "secret"; remember = true }

same_site_example : IsSameSite (safe_return_to (some "//evil"))
same_site_example = safe_return_to-IsSameSite (some "//evil")

abbrev mappings : List ClaimPermissionMapping
mappings = record { claim = "staff"; permissions = read_some_entity ∷ [] } ∷ []

abbrev groups : GroupsClaim
groups = array (some "staff" ∷ none ∷ [])

mapper_example :
    NoRepeats (map_groups_to_permissions groups mappings)
    × ((p : Permission)
        → includes (map_groups_to_permissions groups mappings) p
          ≡ any (λ m. has_group (groups_of groups) m.claim && includes m.permissions p) mappings)
mapper_example = map_groups_to_permissions-grants groups mappings

abbrev sso_env : SsoEnv
sso_env = record { sso_state_secret = some "s"; jwt_refresh_secret = none; production = true }

abbrev tx : SsoTransaction
tx = record { provider = "idp"; state = "st"; nonce = "n"; code_verifier = "v"; return_to = "/" }

-- a platform that serves this transaction only
abbrev tx_jwt : SsoTransactionPayload → TransactionJwt ℕ
tx_jwt payload = record { sign = λ p key ttl w. ok "t"; verify = λ token key w. ok payload }

AtOnce : ℕ → ℕ → Type 0
AtOnce w later = Unit

abbrev tx_cookie : CookieOptions
tx_cookie = record {
  http_only = true;
  path = "/";
  same_site = "lax";
  secure = true;
  max_age = some 300000;
}

abbrev refresh_payload : SsoTransactionPayload
refresh_payload = record { transaction = tx; typ = some "refresh" }
