-- ===== src/Gateway/SsoState.antt =====
-- What the controllers of single sign-on run on and what they write: the libraries openid-client and
-- node-saml as parameters, the maps of apps/gateway/src/sso/discovery.ts and saml-client.ts, and the
-- cookies of the response.
use fullstack_starter.Prelude.{ℕ, String, Bool, Option, List, JsMap}
use fullstack_starter.Async.{Async, Result, ok}
use fullstack_starter.Http.{Response}
use fullstack_starter.Api.Federated.{ResolveInput, ResolvedUser}
use fullstack_starter.Gateway.ApiClient.{Fetch}
use fullstack_starter.Gateway.Platform.{Platform}
use fullstack_starter.Gateway.Session.{Exchange}
use fullstack_starter.Gateway.SsoTransaction.{SsoEnv, TransactionCookie, TransactionJwt}
use fullstack_starter.Gateway.SignedCookie.{
  CookieJwt, SamlTransaction, SsoLogoutHint, SamlLogoutHint,
}
use fullstack_starter.Gateway.FederatedRegistry.{Registries, SsoProviderPublic}
use fullstack_starter.Gateway.PermissionMapper.{GroupsClaim}
use fullstack_starter.Gateway.RequestCache.{RequestCache}
use fullstack_starter.Gateway.SamlConfig.{SignatureAlgorithm}

-- what a handler sends: a redirect, a JSON answer, the list of providers, or a document of a type
pub data SsoAnswer : Type 0 where
  redirect : String → SsoAnswer
  reply : Response (Unit {0}) → SsoAnswer
  providers_json : List SsoProviderPublic → SsoAnswer
  document : String → String → SsoAnswer

-- a discovered issuer, with the end point that ends a session there
pub record Issuer : Type 0 where
  pub identifier : String
  pub end_session_endpoint : Option String

-- `new issuer.Client({ client_id, client_secret, redirect_uris: [redirect_uri] })`
pub record OidcClient : Type 0 where
  pub issuer : Issuer
  pub client_id : String
  pub client_secret : String
  pub redirect_uri : String

pub record AuthorizationParams : Type 0 where
  pub scope : String
  pub state : String
  pub nonce : String
  pub code_challenge : String
  pub redirect_uri : String

-- what a callback is checked against
pub record CallbackChecks : Type 0 where
  pub state : String
  pub nonce : String
  pub code_verifier : String

-- an `email_verified` of another kind is neither true nor a text
pub data VerifiedClaim : Type 0 where
  flag : Bool → VerifiedClaim
  flag_text : String → VerifiedClaim
  no_flag : VerifiedClaim

pub record TokenSet : Type 0 where
  pub sub : String
  pub email : Option String
  pub email_verified : VerifiedClaim
  pub claim : String → GroupsClaim
  pub id_token : Option String

-- the query or the body that the identity provider sends back
pub record CallbackParams : Type 0 where
  pub fields : JsMap String

-- the options of `new SAML`; the cache is named by the provider that it belongs to
pub record SamlOptions : Type 0 where
  pub issuer : String
  pub callback_url : String
  pub entry_point : String
  pub idp_cert : List String
  pub idp_issuer : String
  pub audience : String
  pub want_assertions_signed : Bool
  pub want_authn_response_signed : Bool
  pub signature_algorithm : SignatureAlgorithm
  pub digest_algorithm : SignatureAlgorithm
  pub accepted_clock_skew_ms : ℕ
  pub max_assertion_age_ms : ℕ
  pub validate_in_response_to : String
  pub request_id_expiration_period_ms : ℕ
  pub cache_provider : String
  pub identifier_format : String
  pub force_authn : Bool
  pub disable_requested_authn_context : Bool
  pub decryption_pvk : Option String
  pub logout_url : Option String
  pub unique_id : Option String

pub record Profile : Type 0 where
  pub issuer : Option String
  pub in_response_to : Option String
  pub name_id : Option String
  pub name_id_format : Option String
  pub session_index : Option String
  pub attribute : String → GroupsClaim

pub record ValidatedResponse : Type 0 where
  pub profile : Option Profile
  pub logged_out : Bool

pub record LogoutProfile : Type 0 where
  pub issuer : String
  pub name_id : String
  pub name_id_format : String
  pub session_index : Option String

pub record SsoPlatform (W : Type 0) : Type 0 where
  pub platform : Platform W
  pub sso_env : SsoEnv
  pub registries : Registries
  pub sort_providers : List SsoProviderPublic → List SsoProviderPublic
  pub fetch_resolve : Fetch W ResolveInput ResolvedUser
  pub transaction_jwt : TransactionJwt W
  pub saml_transaction_jwt : CookieJwt W SamlTransaction
  pub logout_hint_jwt : CookieJwt W SsoLogoutHint
  pub saml_logout_hint_jwt : CookieJwt W SamlLogoutHint
  -- openid-client: `Issuer.discover`, `generators`, and the methods of a client
  pub discover : String → Async W Issuer
  pub random_state : W → String × W
  pub random_nonce : W → String × W
  pub random_verifier : W → String × W
  pub code_challenge : String → String
  pub authorization_url : OidcClient → AuthorizationParams → W → Result String
  pub callback_params : OidcClient → CallbackParams → W → Result CallbackParams
  pub callback : OidcClient → String → CallbackParams → CallbackChecks → Async W TokenSet
  pub end_session_url : OidcClient → String → Option String → W → Result String
  -- `randomBytes(16).toString('hex')`
  pub random_hex : W → String × W
  -- node-saml: the methods of a client, with its options
  pub authorize_url : SamlOptions → Async W String
  pub validate_post_response : SamlOptions → CallbackParams → Async W ValidatedResponse
  pub validate_redirect : SamlOptions → CallbackParams → String → Async W ValidatedResponse
  pub service_metadata : SamlOptions → W → Result String
  pub logout_url : SamlOptions → LogoutProfile → String → Async W String

pub record SsoExchange (W : Type 0) : Type 0 where
  pub exchange : Exchange W
  pub transaction : Option TransactionCookie
  pub saml_transaction : Option TransactionCookie
  pub logout_hint : Option TransactionCookie
  pub saml_logout_hint : Option TransactionCookie
  -- `clientCache` of discovery.ts and `requestCaches` of saml-client.ts
  pub clients : JsMap OidcClient
  pub request_caches : JsMap RequestCache

-- the parameter `provider`, the cookies, the query and the body of a request
pub record SsoRequest : Type 0 where
  pub provider : String
  pub return_to : Option String
  pub transaction : Option String
  pub saml_transaction : Option String
  pub logout_hint : Option String
  pub saml_logout_hint : Option String
  pub refresh_token : Option String
  pub params : CallbackParams
  pub is_post : Bool
  pub query_relay_state : Option String
  pub body_relay_state : Option String
  pub saml_response : Option String
  pub original_query : String

module _ {W : Type 0} where
  -- a call that touches the exchange only, and one that touches the world only
  abbrev pub on_exchange : {A : Type 0} → Async (Exchange W) A → Async (SsoExchange W) A
  on_exchange m x = ((m x.exchange).0, record x { exchange = (m x.exchange).1 })

  abbrev pub with_world : SsoExchange W → W → SsoExchange W
  with_world x w = record x { exchange = record x.exchange { world = w } }

  abbrev pub on_world : {A : Type 0} → Async W A → Async (SsoExchange W) A
  on_world m x = ((m x.exchange.world).0, with_world x (m x.exchange.world).1)

  -- a call that reads the world only
  abbrev pub reading : {A : Type 0} → (W → Result A) → Async (SsoExchange W) A
  reading f x = (f x.exchange.world, x)

  abbrev pub draw : {A : Type 0} → (W → A × W) → Async (SsoExchange W) A
  draw f x = (ok (f x.exchange.world).0, with_world x (f x.exchange.world).1)

  abbrev pub set_transaction : Option TransactionCookie → Async (SsoExchange W) (Unit {0})
  set_transaction cookie x = (ok (record {}), record x { transaction = cookie })

  abbrev pub set_saml_transaction : Option TransactionCookie → Async (SsoExchange W) (Unit {0})
  set_saml_transaction cookie x = (ok (record {}), record x { saml_transaction = cookie })
