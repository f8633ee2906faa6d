-- ===== src/Gateway/ProviderRegistry.antt =====
-- apps/gateway/src/sso/provider-registry.ts: the OIDC providers that the environment declares. The
-- environment is a map; `new URL` is a parameter.
pub mod Valid
use Prim.Native.String.{◌++◌}
use fullstack_starter.Prelude.{
  ℕ, String, refl, Bool, true, false, ◌||◌, not, Option, none, some, List, [], ◌∷◌, map, length,
  if◌then◌else◌, ltb, present, or_else, map_option, trim, to_lower_case, captured, title_case,
  MapEntry, JsMap, get, set, values, ◌==◌,
}
use fullstack_starter.Async.{Async, Result, ok, error, new_error, and_then, pure}
use fullstack_starter.Throwing.{◌>>=◌}
use fullstack_starter.Gateway.PermissionMapper.{ClaimPermissionMapping}
use fullstack_starter.Gateway.PermissionMap.{parse_permission_map}
use fullstack_starter.Gateway.FederationUrl.{Url, assert_safe_federation_url}

pub record SsoProviderConfig : Type 0 where
  pub id : String
  pub display_name : String
  pub icon_key : Option String
  pub issuer : String
  pub client_id : String
  pub client_secret : String
  pub redirect_uri : String
  pub post_logout_redirect_uri : Option String
  pub scopes : String
  pub groups_claim : String
  pub permission_map : List ClaimPermissionMapping

-- `process.env`
abbrev pub ProcessEnv : Type 0
ProcessEnv = JsMap String

-- `env[name]?.trim()`, where it is not empty
unfoldable pub trimmed : ProcessEnv → String → Option String
unfolding trim
trimmed env name = present (map_option trim (get env name))

abbrev pub required_value : String → String → Option String → Result String
required_value provider_id name none =
    error (new_error ("SSO provider \"" ++ provider_id ++ "\" is missing required env " ++ name))
required_value provider_id name (some value) = ok value

-- `SSO_<name>_<key>`
abbrev pub sso_variable : String → String → String
sso_variable raw_name key = "SSO_" ++ raw_name ++ "_" ++ key

unfoldable pub required : ProcessEnv → String → String → String → Result String
unfolding trimmed
required env provider_id raw_name key =
    required_value provider_id (sso_variable raw_name key) (trimmed env (sso_variable raw_name key))

-- whether a variable is the text `true`, or `false`
abbrev pub is_text : Option String → String → Bool
is_text none text = false
is_text (some value) text = value == text

abbrev pub allows_insecure : ProcessEnv → Bool
allows_insecure env = is_text (get env "SSO_ALLOW_INSECURE_ISSUERS") "true"

abbrev pub with_name : Option String → List String → List String
with_name none names = names
with_name (some raw_name) names = raw_name ∷ names

-- the names that the keys of an environment declare, in order
unfoldable pub declared : ProcessEnv → List String
unfolding captured
declared [] = []
declared (e ∷ es) = with_name (captured "SSO_" "_ISSUER" e.key) (declared es)

module _ (parse_url : String → Option Url) (env : ProcessEnv) where
  -- one turn of the loop, for the name that the key has captured
  unfoldable pub provider_config : String → Result SsoProviderConfig
  unfolding required assert_safe_federation_url trimmed title_case parse_permission_map
      to_lower_case
  provider_config raw_name =
      let id = to_lower_case raw_name in
      do
        issuer ← required env id raw_name "ISSUER"
        safe ← assert_safe_federation_url parse_url id issuer (allows_insecure env) "issuer"
        client_id ← required env id raw_name "CLIENT_ID"
        client_secret ← required env id raw_name "CLIENT_SECRET"
        redirect_uri ← required env id raw_name "REDIRECT_URI"
        permission_map ← parse_permission_map id (get env (sso_variable raw_name "PERMISSION_MAP"))
        ok (record {
          id = id;
          display_name =
              or_else (trimmed env (sso_variable raw_name "DISPLAY_NAME")) (title_case id);
          icon_key = trimmed env (sso_variable raw_name "ICON_KEY");
          issuer = issuer;
          client_id = client_id;
          client_secret = client_secret;
          redirect_uri = redirect_uri;
          post_logout_redirect_uri = trimmed env (sso_variable raw_name "POST_LOGOUT_REDIRECT_URI");
          scopes = or_else (trimmed env (sso_variable raw_name "SCOPES")) "openid profile email";
          groups_claim = or_else (trimmed env (sso_variable raw_name "GROUPS_CLAIM")) "groups";
          permission_map = permission_map;
        })

  unfoldable pub build_from :
      List String → JsMap SsoProviderConfig → Result (JsMap SsoProviderConfig)
  unfolding provider_config
  build_from [] registry = ok registry
  build_from (raw_name ∷ names) registry = do
    config ← provider_config raw_name
    build_from names (set registry config.id config)

  unfoldable pub build_registry_from_env : Result (JsMap SsoProviderConfig)
  unfolding build_from declared
  build_registry_from_env = build_from (declared env) []

  -- The module variable `cache` is the state: it is filled at boot, or by the first call.
  abbrev pub Cached : Type 0 → Type 0
  Cached A = Async (Option (JsMap SsoProviderConfig)) A

  abbrev pub fill : Result (JsMap SsoProviderConfig) → Cached (JsMap SsoProviderConfig)
  fill (ok built) cache = (ok built, some built)
  fill (error e) cache = (error e, cache)

  unfoldable pub registry : Cached (JsMap SsoProviderConfig)
  unfolding build_registry_from_env
  registry (some built) = (ok built, some built)
  registry none = fill build_registry_from_env none

  unfoldable pub validate_sso_config : Cached (Unit {0})
  unfolding build_registry_from_env
  validate_sso_config cache =
      and_then (fill build_registry_from_env cache) (λ built. pure (record {}))

  unfoldable pub get_provider_config : String → Cached (Option SsoProviderConfig)
  unfolding registry
  get_provider_config id cache = and_then (registry cache) (λ built. pure (get built id))

  unfoldable pub get_all_provider_configs : Cached (List SsoProviderConfig)
  unfolding registry
  get_all_provider_configs cache = and_then (registry cache) (λ built. pure (values built))

  unfoldable pub is_sso_enabled : Cached Bool
  unfolding registry
  is_sso_enabled cache = and_then (registry cache) (λ built. pure (ltb 0 (length built)))

unfoldable pub reset_registry_cache :
    Option (JsMap SsoProviderConfig) → Option (JsMap SsoProviderConfig)
reset_registry_cache cache = none
