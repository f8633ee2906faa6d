-- ===== src/Gateway/SsoExamples.antt =====
-- Runs of single sign-on: registries from an environment with one provider of each protocol, and the
-- callbacks and logouts on a platform that accepts what is addressed to it.
use fullstack_starter.Prelude.{
  decimal, ◌↔◌, ℕ, suc, ◌-◌, ◌≤◌, String, ◌≡◌, refl, ◌⊎◌, true, false, Option, none, some, [], ◌∷◌,
  All, arith, has, UniqueKeys, JsMap, MapEntry, to_lower_case,
}
use fullstack_starter.Async.{ok, error, new_error}
use fullstack_starter.Dto.{read_some_entity}
use fullstack_starter.Gateway.InternalAuth.{sign_system_context}
use fullstack_starter.Gateway.ApiClient.{Reply, record_refresh}
use fullstack_starter.Gateway.TokenService.{generate_access_token, generate_refresh_token}
use fullstack_starter.Gateway.Examples.{platform, start}
use fullstack_starter.Gateway.Session.{cleared}
use fullstack_starter.Gateway.PermissionMapper.{text}
use fullstack_starter.Gateway.FederationUrl.{Url, assert_safe_federation_url}
use fullstack_starter.Gateway.FederationUrl.Dotted.{
  IsOutside, dot_after, assert_safe_federation_url-dotted,
}
use fullstack_starter.Gateway.IdpCerts.{X509Certificate}
use fullstack_starter.Gateway.ProviderRegistry.{
  SsoProviderConfig, ProcessEnv, build_registry_from_env, declared,
}
use fullstack_starter.Gateway.ProviderRegistry.Valid.{IsEntry, build_registry_from_env-IsValid}
use fullstack_starter.Gateway.SamlConfig.{SamlProviderConfig, sha256}
use fullstack_starter.Gateway.SamlRegistry.{build_saml_registry_from_env}
use fullstack_starter.Gateway.SamlRegistry.Valid.{
  IsSamlEntry, build_saml_registry_from_env-IsReliable,
}
use fullstack_starter.Gateway.RequestCache.{
  CacheItem, RequestCache, save_async, get_async, remove_async,
}
use fullstack_starter.Gateway.RequestCache.Bounds.{IsBounded, operations-IsBounded}
use fullstack_starter.Gateway.RequestCache.History.{save, outstanding, after, get_async-outstanding}
use fullstack_starter.Gateway.SafeReturn.{IsSameSite}
use fullstack_starter.Gateway.SsoTransaction.{SsoTransaction}
use fullstack_starter.Gateway.SignedCookie.{
  CookieJwt, clear_logout_hint_cookie, clear_saml_logout_hint_cookie,
}
use fullstack_starter.Gateway.SsoState.{redirect, SsoPlatform, SsoExchange, SsoRequest, flag}
use fullstack_starter.Gateway.SamlController.{
  sso_error, unknown_provider, saml_provider_of, saml_callback,
}
use fullstack_starter.Gateway.SamlController.Consumer.{Untouched, MayOpen, saml_callback-MayOpen}
use fullstack_starter.Gateway.SamlLogout.{logout_callback}
use fullstack_starter.Gateway.SamlLogout.Harmless.{logout_callback-IsSameSite}
use fullstack_starter.Gateway.SsoCallback.{oidc_callback}
use fullstack_starter.Gateway.SsoLogout.{clear_session, sso_logout}
use fullstack_starter.Gateway.SsoLogout.Cleared.{cookies_of, IsLanding, sso_logout-IsLanding}

abbrev entry : String → String → MapEntry String
entry name value = record { key = name; value = value }

abbrev process_env : ProcessEnv
process_env =
    entry "SSO_ACME_ISSUER" " https://acme.es "
    ∷ entry "SSO_ACME_CLIENT_ID" "client"
    ∷ entry "SSO_ACME_CLIENT_SECRET" "secret"
    ∷ entry "SSO_ACME_REDIRECT_URI" "https://app.es/cb"
    ∷ entry "SSO_ACME_PERMISSION_MAP" "staff:READ_SOME_ENTITY"
    ∷ entry "SAML_OKTA_ENTRY_POINT" "https://okta.es"
    ∷ entry "SAML_OKTA_IDP_ISSUER" "okta"
    ∷ entry "SAML_OKTA_IDP_CERT" "-----BEGIN"
    ∷ entry "SAML_OKTA_CALLBACK_URL" "https://app.es/acs"
    ∷ entry "SAML_OKTA_ALLOWED_DOMAINS" "@x.es, Y.es"
    ∷ []

abbrev parse_url : String → Option Url
parse_url url = some (record { protocol = "https:"; hostname = url; origin = "https://app.es" })

abbrev parse_cert : String → Option X509Certificate
parse_cert pem = some (record {
  valid_to_text = "later";
  valid_to = some 100;
  asymmetric_key_type = some "rsa";
  modulus_length = some 2048;
})

abbrev acme : SsoProviderConfig
acme = record {
  id = "acme";
  display_name = "Acme";
  icon_key = none;
  issuer = "https://acme.es";
  client_id = "client";
  client_secret = "secret";
  redirect_uri = "https://app.es/cb";
  post_logout_redirect_uri = none;
  scopes = "openid profile email";
  groups_claim = "groups";
  permission_map = record { claim = "staff"; permissions = read_some_entity ∷ [] } ∷ [];
}

abbrev okta : SamlProviderConfig
okta = record {
  id = "okta";
  display_name = "Okta";
  icon_key = none;
  entry_point = "https://okta.es";
  issuer = "https://app.es";
  idp_issuer = "okta";
  idp_cert_pems = "-----BEGIN" ∷ [];
  callback_url = "https://app.es/acs";
  signature_algorithm = sha256;
  want_assertions_signed = true;
  allowed_domains = "x.es" ∷ "y.es" ∷ [];
  groups_attribute = "groups";
  email_attribute = "email";
  permission_map = [];
  logout_url = none;
  decryption_pvk = none;
  force_authn = false;
  disable_requested_authn_context = true;
}

abbrev oidc_built : JsMap SsoProviderConfig
oidc_built = record { key = "acme"; value = acme } ∷ []

abbrev saml_built : JsMap SamlProviderConfig
saml_built = record { key = "okta"; value = okta } ∷ []

builds : build_registry_from_env parse_url process_env ≡ ok oidc_built
unfolding build_registry_from_env
builds = refl

registry_example :
    UniqueKeys oidc_built
    × All (IsEntry parse_url process_env) oidc_built
    × All (λ name. has oidc_built (to_lower_case name) ≡ true) (declared process_env)
registry_example = build_registry_from_env-IsValid parse_url process_env oidc_built builds

builds_saml : build_saml_registry_from_env parse_url parse_cert 50 process_env ≡ ok saml_built
unfolding build_saml_registry_from_env
builds_saml = refl

saml_registry_example :
    (oidc : JsMap SsoProviderConfig) × (build_registry_from_env parse_url process_env ≡ ok oidc)
    × UniqueKeys saml_built
    × All (IsSamlEntry parse_url parse_cert 50 process_env oidc) saml_built
saml_registry_example =
    build_saml_registry_from_env-IsReliable parse_url parse_cert 50 process_env saml_built
      builds_saml

abbrev private_url : Url
private_url = record { protocol = "https:"; hostname = "10.0.0.1"; origin = "https://app.es" }

dotted_url_example :
    (assert_safe_federation_url parse_url "acme" "10.0.0.1" true "issuer" ≡ ok (record {}))
    ↔ IsOutside true private_url 10 0
unfolding dot_after decimal
dotted_url_example =
    assert_safe_federation_url-dotted parse_url "acme" "10.0.0.1" "issuer" true private_url 10 0 0 1
      (omega arith) (omega arith) (omega arith) (omega arith) refl refl

-- Without the escape hatch the private host is refused.
refuses_private :
    assert_safe_federation_url parse_url "acme" "10.0.0.1" false "issuer"
    ≡ error
        (new_error "SSO provider \"acme\" issuer host is not allowed (loopback/link-local/private)")
unfolding assert_safe_federation_url
refuses_private = refl

-- Requests and answers

abbrev empty_cache : RequestCache
empty_cache = []

operations_example :
    IsBounded (save_async 5 6 "_a" "1" empty_cache).1
    × IsBounded (get_async 5 "_a" empty_cache).1
    × IsBounded (remove_async (some "_a") empty_cache).1
operations_example = operations-IsBounded 5 6 "_a" "1" (some "_a") empty_cache (tt, omega arith)

found_again : (get_async 9 "_a" (after (save 7 8 "_b" "2" ∷ save 5 6 "_a" "1" ∷ []))).0 ≡ some "1"
unfolding get_async after
found_again = refl

outstanding_example :
    (item : CacheItem) × (outstanding (save 7 8 "_b" "2" ∷ save 5 6 "_a" "1" ∷ []) "_a" ≡ some item)
    × (item.value ≡ "1")
    × (9 - item.created_at ≤ 600000)
outstanding_example =
    get_async-outstanding (save 7 8 "_b" "2" ∷ save 5 6 "_a" "1" ∷ []) 9 "_a" "1" found_again

abbrev cookie_jwt : {P : Type 0} → P → String → CookieJwt ℕ P
cookie_jwt content typ = record {
  sign = λ payload key ttl w. ok "token";
  verify = λ token key w. ok (record { content = content; typ = some typ });
}

abbrev good : {T : Type 0} → T → Reply T
good v = record { is_ok = true; status = 200; value = ok v; error_field = ok none }

abbrev transaction : SsoTransaction
transaction = record {
  provider = "acme";
  state = "s";
  nonce = "n";
  code_verifier = "v";
  return_to = "/home";
}

abbrev sso_platform : SsoPlatform ℕ
sso_platform = record {
  platform = platform;
  sso_env = record {
    sso_state_secret = some "three";
    jwt_refresh_secret = some "two";
    production = true;
  };
  registries = record { oidc = oidc_built; saml = saml_built };
  sort_providers = λ ps. ps;
  fetch_resolve = λ path token request_id body w. (
    ok (good (record { id = 7; email = body.email; permissions = body.suggested_permissions })),
    suc w,
  );
  transaction_jwt = record {
    sign = λ payload key ttl w. ok "token";
    verify = λ token key w. ok (record { transaction = transaction; typ = some "sso_tx" });
  };
  saml_transaction_jwt =
      cookie_jwt (record { provider = "okta"; request_id = "_r"; return_to = "/home" }) "saml_tx";
  logout_hint_jwt = cookie_jwt (record { provider = "acme"; id_token = "i" }) "sso_logout";
  saml_logout_hint_jwt =
      cookie_jwt
        (record { provider = "okta"; name_id = "ana"; name_id_format = none; session_index = none })
        "saml_logout";
  discover = λ issuer w.
      (ok (record { identifier = issuer; end_session_endpoint = some "https://acme.es/end" }), w);
  random_state = λ w. ("s", suc w);
  random_nonce = λ w. ("n", suc w);
  random_verifier = λ w. ("v", suc w);
  code_challenge = λ verifier. verifier;
  authorization_url = λ client params w. ok "https://acme.es/login";
  callback_params = λ client params w. ok params;
  callback = λ client redirect_uri params checks w. (
    ok (record {
      sub = "ana";
      email = some "ana@x.es";
      email_verified = flag true;
      claim = λ name. text "staff";
      id_token = some "i";
    }),
    w,
  );
  end_session_url = λ client id_token redirect_uri w. ok "https://acme.es/end?id_token_hint=i";
  random_hex = λ w. ("00", suc w);
  authorize_url = λ saml w. (ok "https://okta.es/login", w);
  validate_post_response = λ saml params w. (
    ok (record {
      profile = some (record {
        issuer = some saml.idp_issuer;
        in_response_to = some "_r";
        name_id = some "ana";
        name_id_format = some "urn:oasis:names:tc:SAML:2.0:nameid-format:persistent";
        session_index = none;
        attribute = λ name. text "Ana@x.es";
      });
      logged_out = false;
    }),
    w,
  );
  validate_redirect = λ saml params query w. (error (new_error "no signature"), w);
  service_metadata = λ saml w. ok "<EntityDescriptor/>";
  logout_url = λ saml profile relay_state w. (ok "https://okta.es/slo", w);
}

abbrev sso_start : SsoExchange ℕ
sso_start = record {
  exchange = start;
  transaction = none;
  saml_transaction = none;
  logout_hint = none;
  saml_logout_hint = none;
  clients = [];
  request_caches = [];
}

abbrev request_for : String → SsoRequest
request_for provider = record {
  provider = provider;
  return_to = some "//evil.es";
  transaction = some "t";
  saml_transaction = some "t";
  logout_hint = some "h";
  saml_logout_hint = none;
  refresh_token = some "refresh";
  params = record { fields = [] };
  is_post = false;
  query_relay_state = some "https://evil.es";
  body_relay_state = none;
  saml_response = some "<LogoutResponse/>";
  original_query = "";
}

saml_callback_example :
    let out = saml_callback sso_platform (request_for "okta") sso_start in
    ((saml_provider_of sso_platform "okta" ≡ none) × (out ≡ (ok unknown_provider, sso_start)))
    ⊎ (((out.0 ≡ ok sso_error) × Untouched sso_start out.1)
        ⊎ MayOpen sso_platform (request_for "okta") 0 out.1.exchange)
saml_callback_example = saml_callback-MayOpen sso_platform (request_for "okta") sso_start

-- Both callbacks open a session for these requests.
saml_opens : (saml_callback sso_platform (request_for "okta") sso_start).0 ≡ ok (redirect "/home")
unfolding saml_callback sign_system_context generate_access_token generate_refresh_token
    record_refresh
saml_opens = refl

oidc_opens : (oidc_callback sso_platform (request_for "acme") sso_start).0 ≡ ok (redirect "/home")
unfolding oidc_callback sign_system_context generate_access_token generate_refresh_token
    record_refresh
oidc_opens = refl

logout_callback_example :
    let out = logout_callback sso_platform (request_for "okta") sso_start in
    (url : String) × (out.0 ≡ ok (redirect url)) × IsSameSite url × Untouched sso_start out.1
logout_callback_example = logout_callback-IsSameSite sso_platform (request_for "okta") sso_start

sso_logout_example :
    let out = sso_logout sso_platform (request_for "acme") sso_start in
    (url : String) × (out.0 ≡ ok (redirect url))
    × IsLanding sso_platform
        (request_for "acme")
        (clear_session sso_platform (request_for "acme") sso_start).exchange.world
        url
    × (cookies_of out.1 ≡ (
      cleared,
      some (clear_logout_hint_cookie sso_platform.sso_env),
      some (clear_saml_logout_hint_cookie sso_platform.sso_env),
    ))
sso_logout_example = sso_logout-IsLanding sso_platform (request_for "acme") sso_start
