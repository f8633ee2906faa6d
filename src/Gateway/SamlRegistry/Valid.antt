-- ===== src/Gateway/SamlRegistry/Valid.antt =====
-- A SAML registry that was built holds only providers that the assertion consumer can rely on.
use fullstack_starter.Prelude.{
  ℕ, String, ◌≡◌, refl, sym, subst, Bool, true, false, Bool-cases, inl, inr, Option, none, some,
  Option-cases, List, [], ◌∷◌, All, map, filter, is_truthy, to_lower_case, MapEntry, JsMap, get,
  has, set, set-All, set-UniqueKeys, UniqueKeys, drop_at, trim, split_on,
}
use fullstack_starter.Async.{ok, ok-injective}
use fullstack_starter.Throwing.{bind-inv}
use fullstack_starter.Gateway.PermissionMap.{
  Named, parse_permission_map, parse_permission_map-Named,
}
use fullstack_starter.Gateway.FederationUrl.{Url, assert_safe_federation_url}
use fullstack_starter.Gateway.FederationUrl.Safe.{IsSafe, assert_safe_federation_url_iff}
use fullstack_starter.Gateway.ProviderRegistry.{
  SsoProviderConfig, ProcessEnv, trimmed, allows_insecure, build_registry_from_env,
}
use fullstack_starter.Gateway.ProviderRegistry.Valid.{IsGiven, trimmed-IsGiven, or_else-IsGiven}
use fullstack_starter.Gateway.IdpCerts.{
  X509Certificate, IsTrusted, IsNonempty, parse_idp_certs, parse_idp_certs-IsTrusted,
}
use fullstack_starter.Gateway.SamlConfig.{SamlProviderConfig, SamlTrust, SamlPolicy}
use fullstack_starter.Gateway.SamlRegistry.{
  saml_variable, required_saml, refuse_collision, origin_or, some_domain, parse_domains,
  domains_text, signature_text, signature_algorithm_of, check_logout_url, declared_saml, saml_trust,
  saml_policy, saml_provider_config, build_saml_from, build_saml_registry_from_env,
}

module _ (parse_url : String → Option Url) (parse_cert : String → Option X509Certificate) (now : ℕ)
    (env : ProcessEnv) where
  abbrev pub SafeIfGiven : Option String → Type 0
  SafeIfGiven none = Unit
  SafeIfGiven (some url) = IsSafe (allows_insecure env) (parse_url url)

  -- What the assertion consumer relies on.
  abbrev pub IsReliable : SamlProviderConfig → Type 0
  IsReliable config =
      IsSafe (allows_insecure env) (parse_url config.entry_point)
      × IsGiven config.idp_issuer
      × IsNonempty config.idp_cert_pems
      × All (λ pem. IsTrusted now (parse_cert pem)) config.idp_cert_pems
      × SafeIfGiven config.logout_url
      × IsNonempty config.allowed_domains
      × All IsGiven config.allowed_domains
      × IsGiven config.email_attribute
      × All Named config.permission_map

  required-IsGiven :
      (id raw_name key s : String) → required_saml env id raw_name key ≡ ok s → IsGiven s
  unfolding required_saml
  required-IsGiven id raw_name key s h =
      elim (Option-cases (trimmed env (saml_variable raw_name key))) [
        | inl missing ↦ cc (rw missing at h)
        | inr (value, found) ↦
            subst IsGiven (ok-injective (rw found at h))
              (trimmed-IsGiven env (saml_variable raw_name key) value found)
      ]

  logout-safe :
      (id : String) (url : Option String)
      → check_logout_url parse_url parse_cert now env id url ≡ ok (record {})
      → SafeIfGiven url
  logout-safe id none h = tt
  logout-safe id (some url) h =
      (assert_safe_federation_url_iff parse_url id url "logoutUrl" (allows_insecure env)).0 h

  filter-IsGiven : (xs : List String) → All IsGiven (filter is_truthy xs)
  filter-IsGiven [] = tt
  filter-IsGiven (x ∷ xs) = elim (Bool-cases (is_truthy x)) [
    | inl given ↦ rw given (given, filter-IsGiven xs)
    | inr blank ↦ rw blank (filter-IsGiven xs)
  ]

  some_domain-inv :
      (id raw_name : String) (found domains : List String)
      → some_domain id raw_name found ≡ ok domains
      → IsNonempty domains × (domains ≡ found)
  some_domain-inv id raw_name [] domains h = cc
  some_domain-inv id raw_name (d ∷ ds) domains h =
      (subst IsNonempty (ok-injective h) tt, sym (ok-injective h))

  domains-IsGiven : (raw : String) → All IsGiven (parse_domains raw)
  unfolding parse_domains
  domains-IsGiven raw =
      filter-IsGiven (map (λ d. drop_at (to_lower_case (trim d))) (split_on b',' raw))

  collision-inv : (id : String) (b : Bool) → refuse_collision id b ≡ ok (record {}) → b ≡ false
  collision-inv id true h = cc
  collision-inv id false h = refl

  trust-reliable :
      (id raw_name : String) (trust : SamlTrust)
      → saml_trust parse_url parse_cert now env id raw_name ≡ ok trust
      → IsSafe (allows_insecure env) (parse_url trust.entry_point)
        × IsGiven trust.idp_issuer
        × IsNonempty trust.idp_cert_pems
        × All (λ pem. IsTrusted now (parse_cert pem)) trust.idp_cert_pems
  unfolding saml_trust
  trust-reliable id raw_name trust h =
      let insecure = allows_insecure env in
      let (entry, a, r1) = bind-inv (required_saml env id raw_name "ENTRY_POINT") _ trust h in
      let (safe, b, r2) =
        bind-inv (assert_safe_federation_url parse_url id entry insecure "entryPoint") _ trust r1 in
      let (idp, c, r3) = bind-inv (required_saml env id raw_name "IDP_ISSUER") _ trust r2 in
      let (raw, d, r4) = bind-inv (required_saml env id raw_name "IDP_CERT") _ trust r3 in
      let (callback, e, r5) = bind-inv (required_saml env id raw_name "CALLBACK_URL") _ trust r4 in
      let (pems, f, r6) = bind-inv (parse_idp_certs parse_cert now id raw) _ trust r5 in
      let (origin, g, made) = bind-inv (origin_or id raw_name (parse_url callback)) _ trust r6 in
      let (some_cert, trusted) = parse_idp_certs-IsTrusted parse_cert now id raw pems f in
      subst
        (λ z.
          IsSafe insecure (parse_url z.entry_point)
          × IsGiven z.idp_issuer
          × IsNonempty z.idp_cert_pems
          × All (λ pem. IsTrusted now (parse_cert pem)) z.idp_cert_pems)
        (ok-injective made)
        (
          (assert_safe_federation_url_iff parse_url id entry "entryPoint" insecure).0 b,
          required-IsGiven id raw_name "IDP_ISSUER" idp c,
          some_cert,
          trusted,
        )

  policy-reliable :
      (id raw_name : String) (policy : SamlPolicy)
      → saml_policy parse_url parse_cert now env id raw_name ≡ ok policy
      → SafeIfGiven (trimmed env (saml_variable raw_name "LOGOUT_URL"))
        × IsNonempty policy.allowed_domains
        × All IsGiven policy.allowed_domains
        × All Named policy.permission_map
  unfolding saml_policy
  policy-reliable id raw_name policy h =
      let logout = trimmed env (saml_variable raw_name "LOGOUT_URL") in
      let text = domains_text parse_url parse_cert now env raw_name in
      let algorithm = signature_text parse_url parse_cert now env raw_name in
      let raw_map = get env (saml_variable raw_name "PERMISSION_MAP") in
      let (safe, a, r1) =
        bind-inv (check_logout_url parse_url parse_cert now env id logout) _ policy h in
      let (signature, b, r2) =
        bind-inv (signature_algorithm_of id raw_name algorithm) _ policy r1 in
      let (domains, c, r3) = bind-inv (some_domain id raw_name (parse_domains text)) _ policy r2 in
      let (ms, d, made) = bind-inv (parse_permission_map id raw_map) _ policy r3 in
      let (nonempty, same) = some_domain-inv id raw_name (parse_domains text) domains c in
      subst
        (λ z.
          SafeIfGiven logout
          × IsNonempty z.allowed_domains
          × All IsGiven z.allowed_domains
          × All Named z.permission_map)
        (ok-injective made)
        (
          logout-safe id logout a,
          nonempty,
          subst (All IsGiven) (sym same) (domains-IsGiven text),
          parse_permission_map-Named id raw_map ms d,
        )

  config-IsReliable :
      (oidc : JsMap SsoProviderConfig) (raw_name : String) (config : SamlProviderConfig)
      → saml_provider_config parse_url parse_cert now env oidc raw_name ≡ ok config
      → (has oidc config.id ≡ false) × IsReliable config
  unfolding saml_provider_config
  config-IsReliable oidc raw_name config h =
      let id = to_lower_case raw_name in
      let (unique, a, r1) = bind-inv (refuse_collision id (has oidc id)) _ config h in
      let (trust, b, r2) =
        bind-inv (saml_trust parse_url parse_cert now env id raw_name) _ config r1 in
      let (policy, c, made) =
        bind-inv (saml_policy parse_url parse_cert now env id raw_name) _ config r2 in
      let (entry, idp, some_cert, trusted) = trust-reliable id raw_name trust b in
      let (logout, some_domain, domains, named) = policy-reliable id raw_name policy c in
      subst (λ z. (has oidc z.id ≡ false) × IsReliable z) (ok-injective made)
        (
          collision-inv id (has oidc id) a,
          (
            entry,
            idp,
            some_cert,
            trusted,
            logout,
            some_domain,
            domains,
            or_else-IsGiven env (saml_variable raw_name "EMAIL_ATTRIBUTE") "email" refl,
            named,
          ),
        )

  -- An entry stands under the id of its provider, which is no id of an OIDC provider.
  abbrev pub IsSamlEntry : JsMap SsoProviderConfig → MapEntry SamlProviderConfig → Type 0
  IsSamlEntry oidc e = (e.key ≡ e.value.id) × (has oidc e.value.id ≡ false) × IsReliable e.value

  build_from-reliable :
      (oidc : JsMap SsoProviderConfig) (names : List String) (es built : JsMap SamlProviderConfig)
      → UniqueKeys es
      → All (IsSamlEntry oidc) es
      → build_saml_from parse_url parse_cert now env oidc names es ≡ ok built
      → UniqueKeys built × All (IsSamlEntry oidc) built
  unfolding build_saml_from
  build_from-reliable oidc [] es built unique entries h =
      subst (λ m. UniqueKeys m × All (IsSamlEntry oidc) m) (ok-injective h) (unique, entries)
  build_from-reliable oidc (raw_name ∷ names) es built unique entries h =
      let (config, made, rest) =
        bind-inv (saml_provider_config parse_url parse_cert now env oidc raw_name) _ built h in
      let (apart, reliable) = config-IsReliable oidc raw_name config made in
      build_from-reliable oidc names (set es config.id config) built
        (set-UniqueKeys es config.id config unique)
        (set-All (IsSamlEntry oidc) es config.id config entries (refl, apart, reliable)) rest

-- A SAML registry that is built comes with an OIDC registry that is built from the same environment,
-- and no provider of the one has the id of a provider of the other. Each SAML provider stands under
-- its own id, with a safe entry point and a safe logout URL if it has one, an issuer, at least one
-- certificate, all of them current and without short RSA keys, at least one allowed domain, none
-- blank, and mappings of groups that have a name: a provider without one of these stops the build.
pub build_saml_registry_from_env-IsReliable :
    (parse_url : String → Option Url) (parse_cert : String → Option X509Certificate) (now : ℕ)
    (env : ProcessEnv) (built : JsMap SamlProviderConfig)
    → build_saml_registry_from_env parse_url parse_cert now env ≡ ok built
    → (oidc : JsMap SsoProviderConfig) × (build_registry_from_env parse_url env ≡ ok oidc)
      × UniqueKeys built
      × All (IsSamlEntry parse_url parse_cert now env oidc) built
unfolding build_saml_registry_from_env
build_saml_registry_from_env-IsReliable parse_url parse_cert now env built h =
    let (oidc, first, rest) = bind-inv (build_registry_from_env parse_url env) _ built h in
    let (unique, entries) =
      build_from-reliable parse_url parse_cert now env oidc (declared_saml env) [] built tt tt
        rest in
    (oidc, first, unique, entries)
