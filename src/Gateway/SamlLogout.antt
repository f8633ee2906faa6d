-- ===== src/Gateway/SamlLogout.antt =====
-- apps/gateway/src/controllers/saml.controller.ts: the metadata of the service, and the single logout
-- at the identity provider.
pub mod Harmless
use fullstack_starter.Prelude.{
  String, ◌≡◌, refl, inl, inr, Bool, true, false, Bool-cases, Option, none, some, Option-cases,
  or_else, if◌then◌else◌, present, is_some,
}
use fullstack_starter.Async.{
  Async, Result, ok, error, JsError, pure, lift, ◌>>=◌, ◌>>◌, and_then, try_catch, handle_with,
}
use fullstack_starter.Http.{error_json}
use fullstack_starter.Gateway.SafeReturn.{safe_return_to}
use fullstack_starter.Gateway.SignedCookie.{SamlLogoutHint}
use fullstack_starter.Gateway.FederatedRegistry.{get_federated_provider}
use fullstack_starter.Gateway.SamlConfig.{SamlProviderConfig}
use fullstack_starter.Gateway.SamlClient.{get_saml_client}
use fullstack_starter.Gateway.SamlProfile.{persistent_format}
use fullstack_starter.Gateway.SamlController.{unknown_provider, narrow_saml, saml_provider_of}
use fullstack_starter.Gateway.SsoState.{
  SsoAnswer, redirect, reply, document, LogoutProfile, SamlOptions, SsoPlatform, SsoExchange,
  SsoRequest, on_world, reading,
}

abbrev pub logout_profile : SamlProviderConfig → SamlLogoutHint → LogoutProfile
logout_profile config hint = record {
  issuer = config.idp_issuer;
  name_id = hint.name_id;
  name_id_format = or_else hint.name_id_format persistent_format;
  session_index = present hint.session_index;
}

-- the first of the two that is a text and not empty
abbrev pub relay_state_of : SsoRequest → String
relay_state_of req =
    or_else (present req.query_relay_state) (or_else (present req.body_relay_state) "/login")

module _ {W : Type 0} (p : SsoPlatform W) where
  unfoldable pub metadata_at : SamlProviderConfig → Async (SsoExchange W) SsoAnswer
  unfolding get_saml_client
  metadata_at config =
      try_catch
        (do
          saml ← get_saml_client p config.id none
          xml ← reading (p.service_metadata saml)
          pure (document "application/samlmetadata+xml" xml))
        (λ e. pure (reply (error_json "Metadata unavailable" 500)))

  abbrev pub metadata_if : Option SamlProviderConfig → Async (SsoExchange W) SsoAnswer
  metadata_if none = pure unknown_provider
  metadata_if (some config) = metadata_at config

  unfoldable pub metadata : SsoRequest → Async (SsoExchange W) SsoAnswer
  unfolding metadata_at saml_provider_of
  metadata req = metadata_if (saml_provider_of p req.provider)

  -- none where the provider is not known for SAML, has no logout URL, or fails
  abbrev pub slo_url_at :
      Option SamlProviderConfig → SamlLogoutHint → String → Async (SsoExchange W) (Option String)
  slo_url_at none hint relay_state = pure none
  slo_url_at (some config) hint relay_state =
      if is_some (present config.logout_url)
      then try_catch
          (do
            saml ← get_saml_client p hint.provider none
            url ←
                on_world (
                  p.logout_url saml (logout_profile config hint)
                    (safe_return_to (some relay_state)))
            pure (some url))
          (λ e. pure none)
      else pure none

  unfoldable pub slo_redirect_url : SamlLogoutHint → String → Async (SsoExchange W) (Option String)
  unfolding get_saml_client safe_return_to get_federated_provider
  slo_redirect_url hint relay_state =
      slo_url_at (narrow_saml (get_federated_provider hint.provider p.registries)) hint relay_state

  -- The answer of the identity provider is validated, and whatever comes of it is dropped.
  abbrev pub validate_logout : SamlOptions → SsoRequest → Async (SsoExchange W) (Unit {0})
  validate_logout saml req =
      if req.is_post
      then (do response ← on_world (p.validate_post_response saml req.params); pure (record {}))
      else (if is_some req.saml_response
          then (do
            response ← on_world (p.validate_redirect saml req.params req.original_query)
            pure (record {}))
          else pure (record {}))

  abbrev pub try_validate :
      Option SamlProviderConfig → SsoRequest → Async (SsoExchange W) (Unit {0})
  try_validate none req = pure (record {})
  try_validate (some config) req =
      try_catch (do saml ← get_saml_client p config.id none; validate_logout saml req)
        (λ e. pure (record {}))

  unfoldable pub logout_callback : SsoRequest → Async (SsoExchange W) SsoAnswer
  unfolding get_saml_client safe_return_to saml_provider_of
  logout_callback req = do
    validated ← try_validate (saml_provider_of p req.provider) req
    pure (redirect (safe_return_to (some (relay_state_of req))))
