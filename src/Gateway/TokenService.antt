-- ===== src/Gateway/TokenService.antt =====
-- apps/gateway/src/services/token.service.ts: the access and the refresh tokens.
pub mod Kinds
use Prim.Native.String.{◌++◌}
use fullstack_starter.Prelude.{
  ℕ, ◌*◌, String, Bool, true, false, Option, none, some, List, or_else, if◌then◌else◌, ltb, eqb,
  is_truthy, ◌==◌,
}
use fullstack_starter.Async.{Async, Result, ok, error, pure, throw, reads, lift, new_error, ◌>>=◌}
use fullstack_starter.Dto.{Permission}
use fullstack_starter.Gateway.Platform.{Platform, Env, Claims, Expiry, days, span}

-- `AccessTokenInput` and `RefreshTokenInput`, with a given `jti` for the second
pub record TokenInput : Type 0 where
  pub id : ℕ
  pub email : String
  pub permissions : List Permission

abbrev pub access_secret : Env → String
access_secret env = or_else env.jwt_access_secret ""

abbrev pub refresh_secret : Env → String
refresh_secret env = or_else env.jwt_refresh_secret ""

abbrev pub token_issuer : Env → String
token_issuer env = or_else env.jwt_issuer "gateway"

abbrev pub token_audience : Env → String
token_audience env = or_else env.jwt_audience "web"

abbrev pub positive_or : Option ℕ → ℕ → ℕ
positive_or none d = d
positive_or (some n) d = if ltb 0 n then n else d

unfoldable pub remember_refresh_days : Env → ℕ
remember_refresh_days env = positive_or env.jwt_refresh_remember_days 30

unfoldable pub remember_refresh_max_age_ms : Env → ℕ
unfolding remember_refresh_days
remember_refresh_max_age_ms env = remember_refresh_days env * 24 * 60 * 60 * 1000

abbrev pub access_claims : TokenInput → String → Claims
access_claims input jti = record {
  id = input.id;
  email = input.email;
  permissions = some input.permissions;
  remember = none;
  family_id = none;
  typ = some "access";
  jti = some jti;
}

abbrev pub refresh_claims : TokenInput → Option Bool → Option String → String → Claims
refresh_claims input remember family_id jti = record {
  id = input.id;
  email = input.email;
  permissions = some input.permissions;
  remember = remember;
  family_id = family_id;
  typ = some "refresh";
  jti = some jti;
}

abbrev pub is_typ : Option String → String → Bool
is_typ none kind = false
is_typ (some typ) kind = typ == kind

abbrev pub refresh_expiry : Env → Option Bool → Expiry
refresh_expiry env remember =
    if or_else remember false
    then days (remember_refresh_days env)
    else span (or_else env.jwt_refresh_expires_in "8h")

module _ {W : Type 0} (p : Platform W) where
  -- The gateway gives no `jti` to an access token, so it is a random one.
  unfoldable pub generate_access_token : TokenInput → Async W String
  generate_access_token input w =
      if is_truthy (access_secret p.env)
      then (let (jti, w_jti) = p.random_uuid w in
          (
            p.jwt_sign (access_claims input jti) (access_secret p.env) (token_issuer p.env)
                (token_audience p.env) (span (or_else p.env.jwt_expires_in "4h")) w_jti,
            w_jti,
          ))
      else throw (new_error "JWT_ACCESS_SECRET is not configured") w

  unfoldable pub generate_refresh_token :
      TokenInput → Option Bool → Option String → String → Async W String
  generate_refresh_token input remember family_id jti =
      if is_truthy (refresh_secret p.env)
      then reads (
          p.jwt_sign (refresh_claims input remember family_id jti) (refresh_secret p.env)
            (token_issuer p.env) (token_audience p.env) (refresh_expiry p.env remember))
      else throw (new_error "JWT_REFRESH_SECRET is not configured")

  abbrev pub typed : String → String → Claims → Async W Claims
  typed kind message decoded =
      if is_typ decoded.typ kind
      then pure decoded
      else throw (new_error (message ++ or_else decoded.typ "unknown"))

  unfoldable pub verify_access_token : String → Async W Claims
  verify_access_token token = do
    decoded ←
        reads (p.jwt_verify token (access_secret p.env) (token_issuer p.env) (token_audience p.env))
    typed "access" "Expected access token, got " decoded

  unfoldable pub verify_refresh_token : String → Async W Claims
  verify_refresh_token token = do
    decoded ←
        reads
          (p.jwt_verify token (refresh_secret p.env) (token_issuer p.env) (token_audience p.env))
    typed "refresh" "Expected refresh token, got " decoded
