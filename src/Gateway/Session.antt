-- ===== src/Gateway/Session.antt =====
-- apps/gateway/src/middleware/auth.middleware.ts: who sends a request, and the rotation of the
-- refresh token. The state of an exchange is the world behind the gateway and what has been written
-- to the response so far.
pub mod Rotation
pub mod Access
pub mod Rejection
use fullstack_starter.Prelude.{
  ℕ, ◌*◌, String, Bool, true, false, Option, none, some, List, [], ◌∷◌, or_else, if◌then◌else◌, not,
  is_truthy, present, ◌==◌,
}
use fullstack_starter.Async.{
  Async, Result, ok, error, JsError, ErrorKind, plain, token_expired, unique_constraint, pure,
  throw, ◌>>=◌, ◌>>◌, try_catch, handle_with,
}
use fullstack_starter.Http.{Response, error_json}
use fullstack_starter.Dto.{Permission, includes_any}
use fullstack_starter.Gateway.InternalAuth.{InternalScope, sign_system_context}
use fullstack_starter.Gateway.ApiClient.{
  RotateRefreshResponse, RecordRefreshBody, RevokeRefreshBody, record_refresh, rotate_refresh,
  revoke_refresh,
}
use fullstack_starter.Gateway.Platform.{Platform, Env, Claims}
use fullstack_starter.Gateway.TokenService.{
  TokenInput, remember_refresh_max_age_ms, generate_access_token, generate_refresh_token,
  verify_access_token, verify_refresh_token,
}

-- `UserContext` has the fields of a token's input.
abbrev pub UserContext : Type 0
UserContext = TokenInput

-- what the response does to the cookie `refreshToken`: a new one comes with its `maxAge`
pub data CookieChange : Type 0 where
  kept cleared : CookieChange
  set_cookie : String → ℕ → CookieChange

pub record Exchange (W : Type 0) : Type 0 where
  pub world : W
  pub authorization : Option String
  pub refresh_cookie : CookieChange
  pub local_user : Option UserContext
  -- the cookie of a single logout has been cleared
  pub hint_cleared : Bool

-- A middleware answers, or calls `next`.
pub data Step : Type 0 where
  next : Step
  answer : Response (Unit {0}) → Step

-- the request's method is OPTIONS, its header `Authorization`, its cookie `refreshToken`
pub record Request : Type 0 where
  pub is_options : Bool
  pub authorization : Option String
  pub refresh_token : Option String

-- A required permission is a list with one.
unfoldable pub has_any_permission : Option (List Permission) → List Permission → Bool
has_any_permission none required = false
has_any_permission (some held) required = includes_any held required

unfoldable pub is_denied : Option (List Permission) → Option (List Permission) → Bool
unfolding has_any_permission
is_denied none held = false
is_denied (some required) held = not (has_any_permission held required)

abbrev pub no_refresh_token : Step
no_refresh_token = answer (error_json "Access denied: no refresh token" 401)

abbrev pub insufficient : Step
insufficient = answer (error_json "Access denied: insufficient permissions" 403)

abbrev pub invalid_token : Step
invalid_token = answer (error_json "Invalid token" 401)

abbrev pub is_token_expired : JsError → Bool
is_token_expired e = elim e.kind [
  | plain ↦ false
  | token_expired ↦ true
  | unique_constraint ↦ false
]

abbrev pub session_max_age_ms : Env → Option Bool → ℕ
session_max_age_ms env remember =
    if or_else remember false then remember_refresh_max_age_ms env else 8 * 60 * 60 * 1000

abbrev pub rotated_user : RotateRefreshResponse → Claims → UserContext
rotated_user rotation decoded = record {
  id = rotation.user_id;
  email = or_else rotation.email decoded.email;
  permissions = or_else rotation.permissions [];
}

abbrev pub access_user : Claims → UserContext
access_user decoded = record {
  id = decoded.id;
  email = decoded.email;
  permissions = or_else decoded.permissions [];
}

module _ {W : Type 0} (p : Platform W) where
  -- a call that touches the world only
  abbrev pub outside : {A : Type 0} → Async W A → Async (Exchange W) A
  outside m x = ((m x.world).0, record x { world = (m x.world).1 })

  abbrev pub signed : InternalScope → String → Async W String
  signed scope request_id =
      sign_system_context p.jose scope request_id (or_else p.env.internal_jwt_private_key "")
        (record { issuer = none; audience = none; ttl_seconds = none })

  abbrev pub fresh_uuid : Async (Exchange W) String
  fresh_uuid x = (ok (p.random_uuid x.world).0, record x { world = (p.random_uuid x.world).1 })

  abbrev pub set_authorization : String → Async (Exchange W) (Unit {0})
  set_authorization token x = (ok (record {}), record x { authorization = some token })

  abbrev pub set_refresh_cookie : CookieChange → Async (Exchange W) (Unit {0})
  set_refresh_cookie change x = (ok (record {}), record x { refresh_cookie = change })

  abbrev pub set_local_user : UserContext → Async (Exchange W) (Unit {0})
  set_local_user user x = (ok (record {}), record x { local_user = some user })

  unfoldable pub write_access_token_header : UserContext → Async (Exchange W) (Unit {0})
  write_access_token_header user = do
    access_token ← outside (generate_access_token p user)
    set_authorization access_token

  unfoldable pub issue_refresh_and_record :
      UserContext → Option Bool → String → Option String → String → Async (Exchange W) (Unit {0})
  issue_refresh_and_record user remember family_id parent_jti request_id = do
    jti ← fresh_uuid
    refresh_token ← outside (generate_refresh_token p user remember (some family_id) jti)
    outside (
        record_refresh signed p.fetch_record
          (record { user_id = user.id; family_id = family_id; jti = jti; parent_jti = parent_jti })
          request_id)
    set_refresh_cookie (set_cookie refresh_token (session_max_age_ms p.env remember))

  unfoldable pub respond_with_tokens :
      UserContext → Option Bool → Option String → Async (Exchange W) (Unit {0})
  unfolding write_access_token_header issue_refresh_and_record
  respond_with_tokens user remember none = write_access_token_header user
  respond_with_tokens user remember (some request_id) = do
    write_access_token_header user
    family_id ← fresh_uuid
    issue_refresh_and_record user remember family_id none request_id

  -- Revoke the family of a verified refresh token, or its `jti` if it names none.
  unfoldable pub revoke_decoded : Option String → Option String → String → Async W (Unit {0})
  revoke_decoded (some family_id) jti request_id = do
    revoke_refresh signed p.fetch_revoke (record { jti = none; family_id = some family_id })
        request_id
    pure (record {})
  revoke_decoded none (some jti) request_id = do
    revoke_refresh signed p.fetch_revoke (record { jti = some jti; family_id = none }) request_id
    pure (record {})
  revoke_decoded none none request_id = pure (record {})

  unfoldable pub revoke_present : Option String → String → Async W (Unit {0})
  unfolding revoke_decoded
  revoke_present none request_id = pure (record {})
  revoke_present (some refresh_token) request_id =
      try_catch
        (do
          decoded ← verify_refresh_token p refresh_token
          revoke_decoded (present decoded.family_id) (present decoded.jti) request_id)
        (λ e. pure (record {}))

  unfoldable pub revoke_current_refresh_family : Option String → String → Async W (Unit {0})
  unfolding revoke_present
  revoke_current_refresh_family refresh_token request_id =
      revoke_present (present refresh_token) request_id

  -- the rest of a rotation, for a user who has the permission
  unfoldable pub continue_rotated :
      Claims → RotateRefreshResponse → String → Async (Exchange W) Step
  unfolding write_access_token_header issue_refresh_and_record
  continue_rotated decoded rotation request_id = do
    set_local_user (rotated_user rotation decoded)
    write_access_token_header (rotated_user rotation decoded)
    issue_refresh_and_record (rotated_user rotation decoded) decoded.remember rotation.family_id
        (some rotation.parent_jti) request_id
    pure next

  unfoldable pub after_rotation :
      Claims → Option (List Permission) → String → RotateRefreshResponse → Async (Exchange W) Step
  unfolding is_denied continue_rotated
  after_rotation decoded required request_id rotation =
      if is_denied required (some (rotated_user rotation decoded).permissions)
      then pure insufficient
      else continue_rotated decoded rotation request_id

  unfoldable pub reject_refresh : JsError → Async (Exchange W) Step
  reject_refresh e = do
    set_refresh_cookie cleared
    pure (answer (error_json "Refresh rejected" (or_else e.status_code 401)))

  unfoldable pub rotate_and_continue : Option (List Permission) → Claims → Async (Exchange W) Step
  unfolding after_rotation reject_refresh
  rotate_and_continue required decoded = do
    request_id ← fresh_uuid
    try_catch
        (do
          rotation ← outside (rotate_refresh signed p.fetch_rotate decoded.jti request_id)
          after_rotation decoded required request_id rotation)
        reject_refresh

  abbrev pub continue_with :
      Option (List Permission) → Result Claims × Exchange W → Result Step × Exchange W
  continue_with required (ok decoded, x) = rotate_and_continue required decoded x
  continue_with required (error e, x) = (ok invalid_token, x)

  unfoldable pub refresh_and_continue :
      Option String → Option (List Permission) → Async (Exchange W) Step
  unfolding rotate_and_continue
  refresh_and_continue none required = pure no_refresh_token
  refresh_and_continue (some refresh_token) required =
      λ x. continue_with required (outside (verify_refresh_token p refresh_token) x)

  unfoldable pub accept_access : Option (List Permission) → Claims → Async (Exchange W) Step
  unfolding is_denied
  accept_access required decoded =
      if is_denied required decoded.permissions
      then pure insufficient
      else (do set_local_user (access_user decoded); pure next)

  unfoldable pub on_access_error :
      String → Option (List Permission) → JsError → Async (Exchange W) Step
  unfolding refresh_and_continue
  on_access_error refresh_token required e =
      if is_token_expired e
      then refresh_and_continue (some refresh_token) required
      else pure invalid_token

  unfoldable pub with_tokens :
      Option (List Permission) → Option String → Option String → Async (Exchange W) Step
  unfolding accept_access on_access_error
  with_tokens required access_token none = pure no_refresh_token
  with_tokens required none (some refresh_token) =
      refresh_and_continue (some refresh_token) required
  with_tokens required (some access_token) (some refresh_token) =
      try_catch
        (do decoded ← outside (verify_access_token p access_token); accept_access required decoded)
        (on_access_error refresh_token required)

  unfoldable pub has_permission : Option (List Permission) → Request → Async (Exchange W) Step
  unfolding with_tokens
  has_permission required req =
      if req.is_options
      then pure next
      else with_tokens required (present req.authorization) (present req.refresh_token)
