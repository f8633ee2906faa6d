-- ===== src/Gateway/SamlRegistry.antt =====
-- apps/gateway/src/sso/saml-provider-registry.ts: the SAML providers that the environment declares.
-- `new URL`, `X509Certificate` and the clock are parameters; one build reads the clock once.
pub mod Valid
use Prim.Native.String.{◌++◌}
use fullstack_starter.Prelude.{
  ℕ, String, Bool, true, false, not, Option, none, some, List, [], ◌∷◌, map, filter, length,
  if◌then◌else◌, ltb, is_truthy, present, or_else, map_option, trim, to_lower_case, captured,
  title_case, drop_at, split_on, MapEntry, JsMap, get, has, set, values, ◌==◌,
}
use fullstack_starter.Async.{Async, Result, ok, error, new_error, and_then, pure}
use fullstack_starter.Throwing.{◌>>=◌}
use fullstack_starter.Gateway.PermissionMapper.{ClaimPermissionMapping}
use fullstack_starter.Gateway.PermissionMap.{parse_permission_map}
use fullstack_starter.Gateway.FederationUrl.{Url, assert_safe_federation_url}
use fullstack_starter.Gateway.ProviderRegistry.{
  SsoProviderConfig, ProcessEnv, trimmed, is_text, allows_insecure, with_name,
  build_registry_from_env,
}
use fullstack_starter.Gateway.SamlConfig.{
  SamlProviderConfig, SamlTrust, SamlPolicy, SignatureAlgorithm, sha256, sha512,
}
use fullstack_starter.Gateway.IdpCerts.{X509Certificate, parse_idp_certs}

abbrev pub saml_variable : String → String → String
saml_variable raw_name key = "SAML_" ++ raw_name ++ "_" ++ key

abbrev pub saml_error : {A : Type 0} → String → String → Result A
saml_error id message = error (new_error ("SAML provider \"" ++ id ++ "\" " ++ message))

abbrev pub required_saml_value : String → String → Option String → Result String
required_saml_value id name none = saml_error id ("is missing required env " ++ name)
required_saml_value id name (some value) = ok value

unfoldable pub required_saml : ProcessEnv → String → String → String → Result String
unfolding trimmed
required_saml env id raw_name key =
    required_saml_value id (saml_variable raw_name key) (trimmed env (saml_variable raw_name key))

abbrev pub refuse_collision : String → Bool → Result (Unit {0})
refuse_collision id true =
    saml_error id
      "collides with an existing OIDC provider of the same id. Provider ids must be globally unique across all SSO protocols."
refuse_collision id false = ok (record {})

abbrev pub origin_or : String → String → Option Url → Result String
origin_or id raw_name none =
    saml_error id ("has a malformed " ++ saml_variable raw_name "CALLBACK_URL")
origin_or id raw_name (some url) = ok url.origin

unfoldable pub signature_algorithm_of : String → String → String → Result SignatureAlgorithm
signature_algorithm_of id raw_name raw =
    if raw == "sha256"
    then ok sha256
    else (if raw == "sha512"
        then ok sha512
        else saml_error id (
            "has an invalid "
            ++ saml_variable raw_name "SIGNATURE_ALGORITHM"
            ++ ": \""
            ++ raw
            ++ "\". Only \"sha256\" and \"sha512\" are accepted (sha1 is disabled)."))

unfoldable pub parse_domains : String → List String
unfolding split_on trim to_lower_case drop_at
parse_domains raw =
    filter is_truthy (map (λ d. drop_at (to_lower_case (trim d))) (split_on b',' raw))

abbrev pub some_domain : String → String → List String → Result (List String)
some_domain id raw_name [] = saml_error id (
    "is missing required env "
    ++ saml_variable raw_name "ALLOWED_DOMAINS"
    ++ ". At least one email domain must be allowlisted: SAML assertions are trusted as email-verified, so this list is the only cross-tenant account-takeover boundary.")
some_domain id raw_name (domain ∷ domains) = ok (domain ∷ domains)

-- the names that the keys of an environment declare, in order
unfoldable pub declared_saml : ProcessEnv → List String
unfolding captured
declared_saml [] = []
declared_saml (e ∷ es) = with_name (captured "SAML_" "_ENTRY_POINT" e.key) (declared_saml es)

module _ (parse_url : String → Option Url) (parse_cert : String → Option X509Certificate) (now : ℕ)
    (env : ProcessEnv) where
  abbrev pub check_logout_url : String → Option String → Result (Unit {0})
  check_logout_url id none = ok (record {})
  check_logout_url id (some url) =
      assert_safe_federation_url parse_url id url (allows_insecure env) "logoutUrl"

  -- the text `env[…]?.trim() ?? 'sha256'`, where an empty one is kept
  abbrev pub signature_text : String → String
  signature_text raw_name =
      or_else (map_option trim (get env (saml_variable raw_name "SIGNATURE_ALGORITHM"))) "sha256"

  abbrev pub domains_text : String → String
  domains_text raw_name =
      or_else (map_option trim (get env (saml_variable raw_name "ALLOWED_DOMAINS"))) ""

  -- the identity provider: its endpoints and its certificates
  unfoldable pub saml_trust : String → String → Result SamlTrust
  unfolding required_saml assert_safe_federation_url parse_idp_certs
  saml_trust id raw_name = do
    entry_point ← required_saml env id raw_name "ENTRY_POINT"
    safe ← assert_safe_federation_url parse_url id entry_point (allows_insecure env) "entryPoint"
    idp_issuer ← required_saml env id raw_name "IDP_ISSUER"
    idp_cert_raw ← required_saml env id raw_name "IDP_CERT"
    callback_url ← required_saml env id raw_name "CALLBACK_URL"
    idp_cert_pems ← parse_idp_certs parse_cert now id idp_cert_raw
    default_sp_issuer ← origin_or id raw_name (parse_url callback_url)
    ok (record {
      entry_point = entry_point;
      idp_issuer = idp_issuer;
      idp_cert_pems = idp_cert_pems;
      callback_url = callback_url;
      default_sp_issuer = default_sp_issuer;
    })

  -- what its assertions may say
  unfoldable pub saml_policy : String → String → Result SamlPolicy
  unfolding signature_algorithm_of parse_domains parse_permission_map assert_safe_federation_url
      trimmed trim
  saml_policy id raw_name = do
    safe_logout ← check_logout_url id (trimmed env (saml_variable raw_name "LOGOUT_URL"))
    signature_algorithm ← signature_algorithm_of id raw_name (signature_text raw_name)
    allowed_domains ← some_domain id raw_name (parse_domains (domains_text raw_name))
    permission_map ← parse_permission_map id (get env (saml_variable raw_name "PERMISSION_MAP"))
    ok (record {
      signature_algorithm = signature_algorithm;
      allowed_domains = allowed_domains;
      permission_map = permission_map;
    })

  -- one turn of the loop, for the name that the key has captured
  unfoldable pub saml_provider_config : JsMap SsoProviderConfig → String → Result SamlProviderConfig
  unfolding saml_trust saml_policy trimmed title_case to_lower_case
  saml_provider_config oidc raw_name =
      let id = to_lower_case raw_name in
      do
        unique ← refuse_collision id (has oidc id)
        trust ← saml_trust id raw_name
        policy ← saml_policy id raw_name
        ok (record {
          id = id;
          display_name =
              or_else (trimmed env (saml_variable raw_name "DISPLAY_NAME")) (title_case id);
          icon_key = trimmed env (saml_variable raw_name "ICON_KEY");
          entry_point = trust.entry_point;
          issuer =
              or_else (trimmed env (saml_variable raw_name "SP_ISSUER")) trust.default_sp_issuer;
          idp_issuer = trust.idp_issuer;
          idp_cert_pems = trust.idp_cert_pems;
          callback_url = trust.callback_url;
          signature_algorithm = policy.signature_algorithm;
          want_assertions_signed = true;
          allowed_domains = policy.allowed_domains;
          groups_attribute =
              or_else (trimmed env (saml_variable raw_name "GROUPS_ATTRIBUTE")) "groups";
          email_attribute =
              or_else (trimmed env (saml_variable raw_name "EMAIL_ATTRIBUTE")) "email";
          permission_map = policy.permission_map;
          logout_url = trimmed env (saml_variable raw_name "LOGOUT_URL");
          decryption_pvk = trimmed env (saml_variable raw_name "DECRYPTION_PVK");
          force_authn = is_text (get env (saml_variable raw_name "FORCE_AUTHN")) "true";
          disable_requested_authn_context = not (
              is_text (get env (saml_variable raw_name "DISABLE_REQUESTED_AUTHN_CONTEXT")) "false");
        })

  unfoldable pub build_saml_from :
      JsMap SsoProviderConfig
      → List String
      → JsMap SamlProviderConfig
      → Result (JsMap SamlProviderConfig)
  unfolding saml_provider_config
  build_saml_from oidc [] registry = ok registry
  build_saml_from oidc (raw_name ∷ names) registry = do
    config ← saml_provider_config oidc raw_name
    build_saml_from oidc names (set registry config.id config)

  unfoldable pub build_saml_registry_from_env : Result (JsMap SamlProviderConfig)
  unfolding build_saml_from declared_saml build_registry_from_env
  build_saml_registry_from_env = do
    oidc ← build_registry_from_env parse_url env
    build_saml_from oidc (declared_saml env) []

  -- The module variable `cache` is the state: it is filled at boot, or by the first call.
  abbrev pub CachedSaml : Type 0 → Type 0
  CachedSaml A = Async (Option (JsMap SamlProviderConfig)) A

  abbrev pub fill_saml : Result (JsMap SamlProviderConfig) → CachedSaml (JsMap SamlProviderConfig)
  fill_saml (ok built) cache = (ok built, some built)
  fill_saml (error e) cache = (error e, cache)

  unfoldable pub saml_registry : CachedSaml (JsMap SamlProviderConfig)
  unfolding build_saml_registry_from_env
  saml_registry (some built) = (ok built, some built)
  saml_registry none = fill_saml build_saml_registry_from_env none

  unfoldable pub validate_saml_config : CachedSaml (Unit {0})
  unfolding build_saml_registry_from_env
  validate_saml_config cache =
      and_then (fill_saml build_saml_registry_from_env cache) (λ built. pure (record {}))

  unfoldable pub get_saml_provider_config : String → CachedSaml (Option SamlProviderConfig)
  unfolding saml_registry
  get_saml_provider_config id cache = and_then (saml_registry cache) (λ built. pure (get built id))

  unfoldable pub get_all_saml_provider_configs : CachedSaml (List SamlProviderConfig)
  unfolding saml_registry
  get_all_saml_provider_configs cache =
      and_then (saml_registry cache) (λ built. pure (values built))

  unfoldable pub is_saml_enabled : CachedSaml Bool
  unfolding saml_registry
  is_saml_enabled cache = and_then (saml_registry cache) (λ built. pure (ltb 0 (length built)))

unfoldable pub reset_saml_registry_cache :
    Option (JsMap SamlProviderConfig) → Option (JsMap SamlProviderConfig)
reset_saml_registry_cache cache = none
