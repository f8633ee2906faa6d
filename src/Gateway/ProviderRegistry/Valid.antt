-- ===== src/Gateway/ProviderRegistry/Valid.antt =====
-- A registry that was built holds every declared provider, and only valid ones.
use fullstack_starter.Prelude.{
  String, ◌≡◌, refl, sym, ap, ◌∙◌, subst, true, Bool-cases, inl, inr, Option, none, some,
  Option-cases, List, [], ◌∷◌, All, arith, is_truthy, present, or_else, map_option, trim,
  to_lower_case, MapEntry, JsMap, get, has, set, set-All, set-UniqueKeys, has-set, UniqueKeys,
  eq_iff, some_cancel,
}
use fullstack_starter.Async.{ok, ok-injective}
use fullstack_starter.Throwing.{bind-inv}
use fullstack_starter.Gateway.PermissionMap.{
  Named, parse_permission_map, parse_permission_map-Named,
}
use fullstack_starter.Gateway.FederationUrl.{Url, assert_safe_federation_url}
use fullstack_starter.Gateway.FederationUrl.Safe.{IsSafe, assert_safe_federation_url_iff}
use fullstack_starter.Gateway.ProviderRegistry.{
  SsoProviderConfig, ProcessEnv, trimmed, required, sso_variable, allows_insecure, declared,
  provider_config, build_from, build_registry_from_env,
}

abbrev pub IsGiven : String → Type 0
IsGiven s = is_truthy s ≡ true

-- Its issuer is safe, what it needs is given, and it maps groups that have a name.
abbrev pub IsValid : (String → Option Url) → ProcessEnv → SsoProviderConfig → Type 0
IsValid parse_url env config =
    IsSafe (allows_insecure env) (parse_url config.issuer)
    × IsGiven config.issuer
    × IsGiven config.client_id
    × IsGiven config.client_secret
    × IsGiven config.redirect_uri
    × IsGiven config.scopes
    × IsGiven config.groups_claim
    × All Named config.permission_map

-- An entry stands under the id of its provider.
abbrev pub IsEntry : (String → Option Url) → ProcessEnv → MapEntry SsoProviderConfig → Type 0
IsEntry parse_url env e = (e.key ≡ e.value.id) × IsValid parse_url env e.value

present-IsGiven : (x : Option String) (s : String) → present x ≡ some s → IsGiven s
present-IsGiven none s h = cc
present-IsGiven (some text) s h = elim (Bool-cases (is_truthy text)) [
  | inl given ↦ subst IsGiven (some_cancel (rw given at h)) given
  | inr blank ↦ cc (rw blank at h)
]

pub trimmed-IsGiven : (env : ProcessEnv) (name s : String) → trimmed env name ≡ some s → IsGiven s
unfolding trimmed
trimmed-IsGiven env name s h = present-IsGiven (map_option trim (get env name)) s h

pub or_else-IsGiven :
    (env : ProcessEnv) (name default : String)
    → IsGiven default
    → IsGiven (or_else (trimmed env name) default)
or_else-IsGiven env name default h = elim (Option-cases (trimmed env name)) [
  | inl missing ↦ rw missing h
  | inr (s, found) ↦ rw found (trimmed-IsGiven env name s found)
]

pub required-IsGiven :
    (env : ProcessEnv) (id raw_name key s : String)
    → required env id raw_name key ≡ ok s
    → IsGiven s
unfolding required
required-IsGiven env id raw_name key s h =
    elim (Option-cases (trimmed env (sso_variable raw_name key))) [
      | inl missing ↦ cc (rw missing at h)
      | inr (value, found) ↦
          subst IsGiven (ok-injective (rw found at h))
            (trimmed-IsGiven env (sso_variable raw_name key) value found)
    ]

module _ (parse_url : String → Option Url) (env : ProcessEnv) where
  provider_config-IsValid :
      (raw_name : String) (config : SsoProviderConfig)
      → provider_config parse_url env raw_name ≡ ok config
      → (config.id ≡ to_lower_case raw_name) × IsValid parse_url env config
  unfolding provider_config
  provider_config-IsValid raw_name config h =
      let id = to_lower_case raw_name in
      let insecure = allows_insecure env in
      let (issuer, a, r1) = bind-inv (required env id raw_name "ISSUER") _ config h in
      let (safe, b, r2) =
        bind-inv (assert_safe_federation_url parse_url id issuer insecure "issuer") _ config r1 in
      let (client_id, c, r3) = bind-inv (required env id raw_name "CLIENT_ID") _ config r2 in
      let (secret, d, r4) = bind-inv (required env id raw_name "CLIENT_SECRET") _ config r3 in
      let (redirect, e, r5) = bind-inv (required env id raw_name "REDIRECT_URI") _ config r4 in
      let raw = get env (sso_variable raw_name "PERMISSION_MAP") in
      let (ms, f, made) = bind-inv (parse_permission_map id raw) _ config r5 in
      subst (λ z. (z.id ≡ id) × IsValid parse_url env z) (ok-injective made)
        (
          refl,
          (
            (assert_safe_federation_url_iff parse_url id issuer "issuer" insecure).0 b,
            required-IsGiven env id raw_name "ISSUER" issuer a,
            required-IsGiven env id raw_name "CLIENT_ID" client_id c,
            required-IsGiven env id raw_name "CLIENT_SECRET" secret d,
            required-IsGiven env id raw_name "REDIRECT_URI" redirect e,
            or_else-IsGiven env (sso_variable raw_name "SCOPES") "openid profile email" refl,
            or_else-IsGiven env (sso_variable raw_name "GROUPS_CLAIM") "groups" refl,
            parse_permission_map-Named id raw ms f,
          ),
        )

  -- What a map must have while the registry grows.
  Growing : JsMap SsoProviderConfig → Type 0
  Growing es = UniqueKeys es × All (IsEntry parse_url env) es

  build_from-Growing :
      (names : List String) (es built : JsMap SsoProviderConfig)
      → Growing es
      → build_from parse_url env names es ≡ ok built
      → Growing built
  unfolding build_from Growing
  build_from-Growing [] es built grown h = subst Growing (ok-injective h) grown
  build_from-Growing (raw_name ∷ names) es built (unique, entries) h =
      let (config, made, rest) = bind-inv (provider_config parse_url env raw_name) _ built h in
      let (named, valid) = provider_config-IsValid raw_name config made in
      build_from-Growing names (set es config.id config) built
        (
          set-UniqueKeys es config.id config unique,
          set-All (IsEntry parse_url env) es config.id config entries (refl, valid),
        )
        rest

  build_from-keeps :
      (names : List String) (es built : JsMap SsoProviderConfig) (k : String)
      → has es k ≡ true
      → build_from parse_url env names es ≡ ok built
      → has built k ≡ true
  unfolding build_from
  build_from-keeps [] es built k h e = ap (λ m. has m k) (sym (ok-injective e)) ∙ h
  build_from-keeps (raw_name ∷ names) es built k h e =
      let (config, made, rest) = bind-inv (provider_config parse_url env raw_name) _ built e in
      build_from-keeps names (set es config.id config) built k
        (has-set es config.id k config ∙ ground (arith, h)) rest

  build_from-declared :
      (names : List String) (es built : JsMap SsoProviderConfig)
      → build_from parse_url env names es ≡ ok built
      → All (λ name. has built (to_lower_case name) ≡ true) names
  unfolding build_from
  build_from-declared [] es built h = tt
  build_from-declared (raw_name ∷ names) es built h =
      let (config, made, rest) = bind-inv (provider_config parse_url env raw_name) _ built h in
      let (named, valid) = provider_config-IsValid raw_name config made in
      let there =
        has-set es config.id (to_lower_case raw_name) config
        ∙ rw ((eq_iff config.id (to_lower_case raw_name)).1 named) refl in
      (
        build_from-keeps names (set es config.id config) built (to_lower_case raw_name) there rest,
        build_from-declared names (set es config.id config) built rest,
      )

-- A registry that is built holds each provider under its own id, no id twice, and every name that
-- the environment declares, in lower case. Each of its providers has a safe issuer, a client id, a
-- secret and a redirect URI that are not blank, scopes, the name of a groups claim, and mappings of
-- groups that have a name: a provider without one of these stops the build.
pub build_registry_from_env-IsValid :
    (parse_url : String → Option Url) (env : ProcessEnv) (built : JsMap SsoProviderConfig)
    → build_registry_from_env parse_url env ≡ ok built
    → UniqueKeys built
      × All (IsEntry parse_url env) built
      × All (λ name. has built (to_lower_case name) ≡ true) (declared env)
unfolding build_registry_from_env Growing
build_registry_from_env-IsValid parse_url env built h =
    let (unique, entries) = build_from-Growing parse_url env (declared env) [] built (tt, tt) h in
    (unique, entries, build_from-declared parse_url env (declared env) [] built h)
