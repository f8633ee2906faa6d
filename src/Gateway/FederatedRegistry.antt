-- ===== src/Gateway/FederatedRegistry.antt =====
-- apps/gateway/src/sso/federated-registry.ts: the providers of both protocols, once their registries
-- have been built at boot. `localeCompare` is a parameter.
use fullstack_starter.Prelude.{
  String, ◌≡◌, refl, sym, ◌∙◌, inl, inr, Bool, Bool-cases, ◌||◌, Option, none, some, List, [], ◌∷◌,
  ◌++◌, map, length, All, if◌then◌else◌, ltb, JsMap, get, values, ◌==◌, ap, some_cancel, eq_iff,
}
use fullstack_starter.Gateway.ProviderRegistry.{SsoProviderConfig}
use fullstack_starter.Gateway.SamlConfig.{SamlProviderConfig}

pub record Registries : Type 0 where
  pub oidc : JsMap SsoProviderConfig
  pub saml : JsMap SamlProviderConfig

pub data SsoProtocol : Type 0 where
  oidc saml : SsoProtocol

-- `SsoProviderPublicDTO`
pub record SsoProviderPublic : Type 0 where
  pub id : String
  pub display_name : String
  pub icon_key : Option String
  pub protocol : SsoProtocol

pub data FederatedProvider : Type 0 where
  oidc_provider : SsoProviderConfig → FederatedProvider
  saml_provider : SamlProviderConfig → FederatedProvider

abbrev pub oidc_public : SsoProviderConfig → SsoProviderPublic
oidc_public c = record {
  id = c.id;
  display_name = c.display_name;
  icon_key = c.icon_key;
  protocol = oidc;
}

abbrev pub saml_public : SamlProviderConfig → SsoProviderPublic
saml_public c = record {
  id = c.id;
  display_name = c.display_name;
  icon_key = c.icon_key;
  protocol = saml;
}

-- `sort` orders a list by the ids of its providers.
unfoldable pub list_public_providers :
    (List SsoProviderPublic → List SsoProviderPublic) → Registries → List SsoProviderPublic
list_public_providers sort r =
    sort (map oidc_public (values r.oidc) ++ map saml_public (values r.saml))

-- `configs.find((c) => c.id === id)`
abbrev pub find_oidc : String → List SsoProviderConfig → Option SsoProviderConfig
find_oidc id [] = none
find_oidc id (c ∷ cs) = let rest = find_oidc id cs in if c.id == id then some c else rest

abbrev pub find_saml : String → List SamlProviderConfig → Option SamlProviderConfig
find_saml id [] = none
find_saml id (c ∷ cs) = let rest = find_saml id cs in if c.id == id then some c else rest

abbrev pub prefer_oidc :
    Option SsoProviderConfig → Option SamlProviderConfig → Option FederatedProvider
prefer_oidc (some config) s = some (oidc_provider config)
prefer_oidc none (some config) = some (saml_provider config)
prefer_oidc none none = none

unfoldable pub get_federated_provider : String → Registries → Option FederatedProvider
get_federated_provider id r =
    prefer_oidc (find_oidc id (values r.oidc)) (find_saml id (values r.saml))

unfoldable pub is_federation_enabled : Registries → Bool
is_federation_enabled r = ltb 0 (length r.oidc) || ltb 0 (length r.saml)

find_oidc-get :
    (id : String) (es : JsMap SsoProviderConfig)
    → All (λ e. e.key ≡ e.value.id) es
    → find_oidc id (values es) ≡ get es id
find_oidc-get id [] h = refl
find_oidc-get id (e ∷ es) (named, h) = rw (sym named) (elim (Bool-cases (e.key == id)) [
  | inl here ↦ rw here refl
  | inr missed ↦ rw missed (find_oidc-get id es h)
])

pub find_saml-id :
    (id : String) (cs : List SamlProviderConfig) (config : SamlProviderConfig)
    → find_saml id cs ≡ some config
    → config.id ≡ id
find_saml-id id [] config h = cc
find_saml-id id (c ∷ cs) config h = elim (Bool-cases (c.id == id)) [
  | inl here ↦ ap (λ z. z.id) (sym (some_cancel (rw here at h))) ∙ (eq_iff _ _).0 here
  | inr missed ↦ find_saml-id id cs config (rw missed at h)
]

-- the two module variables in which the registries are kept
pub record RegistryCaches : Type 0 where
  pub oidc_cache : Option (JsMap SsoProviderConfig)
  pub saml_cache : Option (JsMap SamlProviderConfig)

unfoldable pub reset_federated_registry_cache : RegistryCaches → RegistryCaches
reset_federated_registry_cache caches = record { oidc_cache = none; saml_cache = none }
