-- ===== src/Gateway/ApiClient.antt =====
-- apps/gateway/src/clients/api.client.ts: the gateway's calls of the api. The network is a parameter.
use fullstack_starter.Prelude.{ℕ, String, Bool, Option, some, List, or_else, if◌then◌else◌, present}
use fullstack_starter.Async.{Async, Result, ok, error, JsError, plain, throw, lift, ◌>>=◌}
use fullstack_starter.Dto.{Permission}
use fullstack_starter.Api.Federated.{ResolveInput, ResolvedUser}
use fullstack_starter.Gateway.InternalAuth.{
  InternalScope, auth_validate, refresh_lifecycle, federated_identity,
}

-- a response of `fetch`: `ok`, `status`, and the two ways in which the client reads its body
pub record Reply (T : Type 0) : Type 0 where
  pub is_ok : Bool
  pub status : ℕ
  pub value : Result T
  pub error_field : Result (Option String)

-- `fetch(path)` with the internal token, the request id and a body
abbrev pub Fetch : Type 0 → Type 0 → Type 0 → Type 0
Fetch W B T = String → String → String → B → Async W (Reply T)

pub record RotateRefreshResponse : Type 0 where
  pub user_id : ℕ
  pub family_id : String
  pub parent_jti : String
  pub email : Option String
  pub permissions : Option (List Permission)

pub record ValidateCredentialsResponse : Type 0 where
  pub id : ℕ
  pub email : String
  pub permissions : List Permission

pub record Credentials : Type 0 where
  pub email : String
  pub password : String

pub record RecordRefreshBody : Type 0 where
  pub user_id : ℕ
  pub family_id : String
  pub jti : String
  pub parent_jti : Option String

pub record RevokeRefreshBody : Type 0 where
  pub jti : Option String
  pub family_id : Option String

-- The message of a reply that is not ok: its field `error`, unless that is missing, falsy or no JSON.
abbrev pub reply_message : Result (Option String) → String → String
reply_message (ok field) fallback = or_else (present field) fallback
reply_message (error e) fallback = fallback

abbrev pub reply_error : {T : Type 0} → Reply T → String → JsError
reply_error reply fallback = record {
  kind = plain;
  message = reply_message reply.error_field fallback;
  status_code = some reply.status;
}

module _ {W : Type 0} (sign : InternalScope → String → Async W String) where
  unfoldable pub call_api :
      {B T : Type 0} → Fetch W B T → String → B → InternalScope → String → String → Async W T
  call_api fetch path body scope request_id fallback = do
    token ← sign scope request_id
    reply ← fetch path token request_id body
    if reply.is_ok then lift reply.value else throw (reply_error reply fallback)

  unfoldable pub validate_credentials_call :
      Fetch W Credentials ValidateCredentialsResponse
      → String
      → String
      → String
      → Async W ValidateCredentialsResponse
  unfolding call_api
  validate_credentials_call fetch email password request_id =
      call_api fetch "/internal/auth/validate" (record { email = email; password = password })
        auth_validate request_id "Email or password incorrect."

  unfoldable pub record_refresh :
      Fetch W RecordRefreshBody Bool → RecordRefreshBody → String → Async W Bool
  unfolding call_api
  record_refresh fetch body request_id =
      call_api fetch "/internal/refresh/record" body refresh_lifecycle request_id
        "Failed to record refresh token"

  unfoldable pub rotate_refresh :
      Fetch W (Option String) RotateRefreshResponse
      → Option String
      → String
      → Async W RotateRefreshResponse
  unfolding call_api
  rotate_refresh fetch jti request_id =
      call_api fetch "/internal/refresh/rotate" jti refresh_lifecycle request_id
        "Refresh chain invalid"

  unfoldable pub revoke_refresh :
      Fetch W RevokeRefreshBody Bool → RevokeRefreshBody → String → Async W Bool
  unfolding call_api
  revoke_refresh fetch body request_id =
      call_api fetch "/internal/refresh/revoke" body refresh_lifecycle request_id
        "Failed to revoke refresh token"

  unfoldable pub resolve_federated_user :
      Fetch W ResolveInput ResolvedUser → ResolveInput → String → Async W ResolvedUser
  unfolding call_api
  resolve_federated_user fetch body request_id =
      call_api fetch "/internal/federated/resolve" body federated_identity request_id
        "Federated identity could not be resolved."
