-- ===== src/Gateway/SamlLogout/Harmless.antt =====
-- What an identity provider answers to a logout changes nothing.
use fullstack_starter.Prelude.{
  String, ◌≡◌, refl, sym, ap, subst, inl, inr, Bool-cases, Option, none, some, Option-cases, get,
  is_some,
}
use fullstack_starter.Async.{Async, Result, ok, Result-cases, and_then-ok, pure, try_catch}
use fullstack_starter.Gateway.SafeReturn.{IsSameSite, safe_return_to, safe_return_to-IsSameSite}
use fullstack_starter.Gateway.SamlConfig.{SamlProviderConfig}
use fullstack_starter.Gateway.SamlClient.{get_saml_client, saml_options, use_cache}
use fullstack_starter.Gateway.SamlController.{saml_provider_of}
use fullstack_starter.Gateway.SamlController.Consumer.{Untouched}
use fullstack_starter.Gateway.SamlLogout.{
  relay_state_of, validate_logout, try_validate, logout_callback,
}
use fullstack_starter.Gateway.SsoState.{redirect, SamlOptions, SsoPlatform, SsoExchange, SsoRequest}

-- It succeeds, and the response says nothing of a session.
abbrev IsHarmless : {W : Type 0} → SsoExchange W → Result (Unit {0}) × SsoExchange W → Type 0
IsHarmless x out = (out.0 ≡ ok (record {})) × Untouched x out.1

module _ {W : Type 0} (p : SsoPlatform W) where
  abbrev swallow : Async (SsoExchange W) (Unit {0}) → Async (SsoExchange W) (Unit {0})
  swallow m = try_catch m (λ e. pure (record {}))

  validate-IsHarmless :
      (saml : SamlOptions) (req : SsoRequest) (x : SsoExchange W)
      → IsHarmless x (swallow (validate_logout p saml req) x)
  validate-IsHarmless saml req x = elim (Bool-cases req.is_post) [
    | inl posted ↦
        rw posted
          (elim (Result-cases (p.validate_post_response saml req.params x.exchange.world).0) [
            | inl (response, valid) ↦ rw valid (refl, (refl, refl))
            | inr (e, invalid) ↦ rw invalid (refl, (refl, refl))
          ])
    | inr got ↦ rw got (elim (Bool-cases (is_some req.saml_response)) [
      | inl given ↦
          rw given
            (elim (Result-cases
              (p.validate_redirect saml req.params req.original_query x.exchange.world).0) [
                | inl (response, valid) ↦ rw valid (refl, (refl, refl))
                | inr (e, invalid) ↦ rw invalid (refl, (refl, refl))
              ])
      | inr absent ↦ rw absent (refl, (refl, refl))
    ])
  ]

  try_validate-IsHarmless :
      (config : Option SamlProviderConfig) (req : SsoRequest) (x : SsoExchange W)
      → IsHarmless x (try_validate p config req x)
  unfolding get_saml_client
  try_validate-IsHarmless none req x = (refl, (refl, refl))
  try_validate-IsHarmless (some config) req x =
      elim (Option-cases (get p.registries.saml config.id)) [
        | inl missing ↦ rw missing (refl, (refl, refl))
        | inr (pinned, found) ↦
            let saml = saml_options pinned config.id none in
            let (succeeds, (cookie, token)) =
              validate-IsHarmless saml req (use_cache p config.id x) in
            rw found (succeeds, (cookie, token))
      ]

  -- Whatever an identity provider sends to the logout callback, forged or not, and whether or not it
  -- can be validated, the browser is sent to a path on the same site, no refresh cookie and no access
  -- token is issued, and none is taken away.
  pub logout_callback-IsSameSite :
      (req : SsoRequest) (x : SsoExchange W)
      → let out = logout_callback p req x in
        (url : String) × (out.0 ≡ ok (redirect url)) × IsSameSite url × Untouched x out.1
  unfolding logout_callback
  logout_callback-IsSameSite req x =
      let tried = try_validate p (saml_provider_of p req.provider) req x in
      let landing = safe_return_to (some (relay_state_of req)) in
      let (succeeds, untouched) = try_validate-IsHarmless (saml_provider_of p req.provider) req x in
      let went_on = and_then-ok tried (λ validated. pure (redirect landing)) (record {}) succeeds in
      (
        landing,
        ap (λ r. r.0) went_on,
        safe_return_to-IsSameSite (some (relay_state_of req)),
        subst (λ r. Untouched x r.1) (sym went_on) untouched,
      )
