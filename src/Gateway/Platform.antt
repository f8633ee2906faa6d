-- ===== src/Gateway/Platform.antt =====
-- What the gateway runs on: its environment variables, the library jsonwebtoken, `randomUUID`, and
-- the network to the api. None of them is code of the repository; the theorems hold for every one.
use fullstack_starter.Prelude.{ℕ, String, Bool, Option, List}
use fullstack_starter.Async.{Result}
use fullstack_starter.Dto.{Permission}
use fullstack_starter.Gateway.InternalAuth.{Jose}
use fullstack_starter.Gateway.ApiClient.{
  Fetch, Credentials, ValidateCredentialsResponse, RecordRefreshBody, RotateRefreshResponse,
  RevokeRefreshBody,
}

-- the payload of a client token; a field of a token that is missing is `none`
pub record Claims : Type 0 where
  pub id : ℕ
  pub email : String
  pub permissions : Option (List Permission)
  pub remember : Option Bool
  pub family_id : Option String
  pub typ : Option String
  pub jti : Option String

-- `expiresIn`: `${n}d`, or a text of the configuration
pub data Expiry : Type 0 where
  days : ℕ → Expiry
  span : String → Expiry

pub record Env : Type 0 where
  pub jwt_access_secret : Option String
  pub jwt_refresh_secret : Option String
  pub jwt_issuer : Option String
  pub jwt_audience : Option String
  pub jwt_expires_in : Option String
  pub jwt_refresh_expires_in : Option String
  -- `Number(JWT_REFRESH_REMEMBER_DAYS)`, `none` if it is not finite
  pub jwt_refresh_remember_days : Option ℕ
  pub internal_jwt_private_key : Option String
  pub production : Bool

pub record Platform (W : Type 0) : Type 0 where
  pub env : Env
  -- `jwt.sign(claims, secret, { issuer, audience, expiresIn })` and
  -- `jwt.verify(token, secret, { issuer, audience })`, both with HS256
  pub jwt_sign : Claims → String → String → String → Expiry → W → Result String
  pub jwt_verify : String → String → String → String → W → Result Claims
  pub random_uuid : W → String × W
  pub jose : Jose W
  pub fetch_validate : Fetch W Credentials ValidateCredentialsResponse
  pub fetch_record : Fetch W RecordRefreshBody Bool
  pub fetch_rotate : Fetch W (Option String) RotateRefreshResponse
  pub fetch_revoke : Fetch W RevokeRefreshBody Bool
