-- ===== src/Gateway/SignedCookie.antt =====
-- The signed cookies of single sign-on, in apps/gateway/src/sso: saml-transaction.service.ts,
-- sso-logout.service.ts and saml-logout.service.ts. jsonwebtoken is a parameter.
use fullstack_starter.Prelude.{
  ℕ, ◌*◌, String, true, Option, none, some, if◌then◌else◌, is_truthy, present,
}
use fullstack_starter.Async.{Async, Result, ok, error, pure, throw, reads, new_error, ◌>>=◌}
use fullstack_starter.Gateway.ProviderRegistry.{is_text}
use fullstack_starter.Gateway.SsoTransaction.{
  SsoEnv, TransactionCookie, CookieOptions, set, clear, secret, cookie_options,
}

-- the payload of a token, with the `typ` that tells one kind of cookie from another
pub record Signed (P : Type 0) : Type 0 where
  pub content : P
  pub typ : Option String

-- `jwt.sign(payload, secret, { expiresIn })` and `jwt.verify(token, secret)`, both with HS256
pub record CookieJwt (W P : Type 0) : Type 0 where
  pub sign : Signed P → String → ℕ → W → Result String
  pub verify : String → String → W → Result (Signed P)

abbrev pub signed_as : {P : Type 0} → String → P → Signed P
signed_as typ content = record { content = content; typ = some typ }

abbrev pub content_of : {P : Type 0} → String → Result (Signed P) → Option P
content_of typ (ok decoded) = if is_text decoded.typ typ then some decoded.content else none
content_of typ (error e) = none

pub record SamlTransaction : Type 0 where
  pub provider : String
  pub request_id : String
  pub return_to : String

pub record SsoLogoutHint : Type 0 where
  pub provider : String
  pub id_token : String

pub record SamlLogoutHint : Type 0 where
  pub provider : String
  pub name_id : String
  pub name_id_format : Option String
  pub session_index : Option String

-- in production the consumer's POST comes from another site
unfoldable pub saml_cookie_options : SsoEnv → Option ℕ → CookieOptions
saml_cookie_options env max_age = record {
  http_only = true;
  path = "/";
  same_site = if env.production then "none" else "lax";
  secure = env.production;
  max_age = max_age;
}

module _ {W P : Type 0} (jwt : CookieJwt W P) (env : SsoEnv) (typ : String) where
  abbrev pub read_token : Option String → W → Option P
  read_token none w = none
  read_token (some token) w =
      if is_truthy (secret env) then content_of typ (jwt.verify token (secret env) w) else none

  -- the content of a cookie, absent without a cookie, a secret, or a token of this type
  abbrev pub read_signed : Option String → W → Option P
  read_signed cookie w = read_token (present cookie) w

unfoldable pub clear_saml_transaction_cookie : SsoEnv → TransactionCookie
unfolding saml_cookie_options
clear_saml_transaction_cookie env = clear (saml_cookie_options env none)

unfoldable pub clear_logout_hint_cookie : SsoEnv → TransactionCookie
unfolding cookie_options
clear_logout_hint_cookie env = clear (cookie_options env none)

unfoldable pub clear_saml_logout_hint_cookie : SsoEnv → TransactionCookie
unfolding cookie_options
clear_saml_logout_hint_cookie env = clear (cookie_options env none)

module _ {W : Type 0} (env : SsoEnv) where
  unfoldable pub set_saml_transaction_cookie :
      CookieJwt W SamlTransaction → SamlTransaction → Async W TransactionCookie
  unfolding secret saml_cookie_options
  set_saml_transaction_cookie jwt tx =
      if is_truthy (secret env)
      then (do
        token ← reads (jwt.sign (signed_as "saml_tx" tx) (secret env) (5 * 60))
        pure (set token (saml_cookie_options env (some (5 * 60 * 1000)))))
      else throw (new_error "SSO state secret is not configured")

  unfoldable pub read_saml_transaction :
      CookieJwt W SamlTransaction → Option String → W → Option SamlTransaction
  unfolding secret
  read_saml_transaction jwt cookie w = read_signed jwt env "saml_tx" cookie w

  abbrev pub set_hint :
      {P : Type 0} → CookieJwt W P → String → P → Async W (Option TransactionCookie)
  set_hint jwt typ hint =
      if is_truthy (secret env)
      then (do
        token ← reads (jwt.sign (signed_as typ hint) (secret env) (8 * 60 * 60))
        pure (some (set token (cookie_options env (some (8 * 60 * 60 * 1000))))))
      else pure none

  -- Without a secret there is no hint, and no error.
  unfoldable pub set_logout_hint_cookie :
      CookieJwt W SsoLogoutHint → SsoLogoutHint → Async W (Option TransactionCookie)
  unfolding secret cookie_options
  set_logout_hint_cookie jwt hint = set_hint jwt "sso_logout" hint

  unfoldable pub read_logout_hint :
      CookieJwt W SsoLogoutHint → Option String → W → Option SsoLogoutHint
  unfolding secret
  read_logout_hint jwt cookie w = read_signed jwt env "sso_logout" cookie w

  unfoldable pub set_saml_logout_hint_cookie :
      CookieJwt W SamlLogoutHint → SamlLogoutHint → Async W (Option TransactionCookie)
  unfolding secret cookie_options
  set_saml_logout_hint_cookie jwt hint = set_hint jwt "saml_logout" hint

  unfoldable pub read_saml_logout_hint :
      CookieJwt W SamlLogoutHint → Option String → W → Option SamlLogoutHint
  unfolding secret
  read_saml_logout_hint jwt cookie w = read_signed jwt env "saml_logout" cookie w
