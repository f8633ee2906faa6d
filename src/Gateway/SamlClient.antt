-- ===== src/Gateway/SamlClient.antt =====
-- `getSamlClient` and `cacheFor` of apps/gateway/src/sso/saml-client.ts, and `getClient` of
-- apps/gateway/src/sso/discovery.ts.
use Prim.Native.String.{◌++◌}
use fullstack_starter.Prelude.{
  ◌*◌, String, true, Option, none, some, [], if◌then◌else◌, JsMap, get, has, set, present,
}
use fullstack_starter.Async.{Async, ok, new_error, pure, throw, ◌>>=◌}
use fullstack_starter.Gateway.RequestCache.{RequestCache, request_id_ttl_ms}
use fullstack_starter.Gateway.SamlConfig.{SamlProviderConfig}
use fullstack_starter.Gateway.ProviderRegistry.{SsoProviderConfig}
use fullstack_starter.Gateway.SsoState.{
  SamlOptions, OidcClient, Issuer, SsoPlatform, SsoExchange, on_world,
}

-- the map with a cache for the provider, which is empty where there was none
unfoldable pub cache_for : String → JsMap RequestCache → JsMap RequestCache
cache_for provider_id caches = if has caches provider_id then caches else set caches provider_id []

-- every bound is a constant, and nothing of the configuration turns a check off
unfoldable pub saml_options : SamlProviderConfig → String → Option String → SamlOptions
saml_options config provider_id request_id = record {
  issuer = config.issuer;
  callback_url = config.callback_url;
  entry_point = config.entry_point;
  idp_cert = config.idp_cert_pems;
  idp_issuer = config.idp_issuer;
  audience = config.issuer;
  want_assertions_signed = true;
  want_authn_response_signed = true;
  signature_algorithm = config.signature_algorithm;
  digest_algorithm = config.signature_algorithm;
  accepted_clock_skew_ms = 30000;
  max_assertion_age_ms = 10 * 60000;
  validate_in_response_to = "always";
  request_id_expiration_period_ms = request_id_ttl_ms;
  cache_provider = provider_id;
  identifier_format = "urn:oasis:names:tc:SAML:2.0:nameid-format:persistent";
  force_authn = config.force_authn;
  disable_requested_authn_context = config.disable_requested_authn_context;
  decryption_pvk = present config.decryption_pvk;
  logout_url = present config.logout_url;
  unique_id = present request_id;
}

module _ {W : Type 0} (p : SsoPlatform W) where
  abbrev pub use_cache : String → SsoExchange W → SsoExchange W
  use_cache provider_id x = record x { request_caches = cache_for provider_id x.request_caches }

  abbrev pub saml_client_of :
      Option SamlProviderConfig → String → Option String → Async (SsoExchange W) SamlOptions
  saml_client_of none provider_id request_id x =
      throw (new_error ("Unknown SAML provider: " ++ provider_id)) x
  saml_client_of (some config) provider_id request_id x =
      (ok (saml_options config provider_id request_id), use_cache provider_id x)

  unfoldable pub get_saml_client : String → Option String → Async (SsoExchange W) SamlOptions
  unfolding saml_options cache_for
  get_saml_client provider_id request_id =
      saml_client_of (get p.registries.saml provider_id) provider_id request_id

  unfoldable pub new_client : Issuer → SsoProviderConfig → OidcClient
  new_client issuer config = record {
    issuer = issuer;
    client_id = config.client_id;
    client_secret = config.client_secret;
    redirect_uri = config.redirect_uri;
  }

  abbrev pub remember_client : String → OidcClient → Async (SsoExchange W) OidcClient
  remember_client provider_id client x =
      (ok client, record x { clients = set x.clients provider_id client })

  abbrev pub discover_client : Option SsoProviderConfig → String → Async (SsoExchange W) OidcClient
  discover_client none provider_id = throw (new_error ("Unknown SSO provider: " ++ provider_id))
  discover_client (some config) provider_id = do
    issuer ← on_world (p.discover config.issuer)
    remember_client provider_id (new_client issuer config)

  abbrev pub cached_client : Option OidcClient → String → Async (SsoExchange W) OidcClient
  cached_client (some client) provider_id = pure client
  cached_client none provider_id = discover_client (get p.registries.oidc provider_id) provider_id

  -- discovery runs once for a provider
  unfoldable pub get_client : String → Async (SsoExchange W) OidcClient
  unfolding new_client
  get_client provider_id x = cached_client (get x.clients provider_id) provider_id x

  unfoldable pub reset_saml_client_caches : SsoExchange W → SsoExchange W
  reset_saml_client_caches x = record x { request_caches = [] }

  unfoldable pub reset_discovery_cache : SsoExchange W → SsoExchange W
  reset_discovery_cache x = record x { clients = [] }
