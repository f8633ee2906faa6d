-- ===== src/Gateway/SsoLogout.antt =====
-- apps/gateway/src/controllers/sso.controller.ts: the logout.
pub mod Cleared
use fullstack_starter.Prelude.{
  String, Bool, true, false, Option, none, some, or_else, if◌then◌else◌, present, get, is_some,
  ◌==◌,
}
use fullstack_starter.Async.{
  Async, Result, ok, error, JsError, pure, lift, ◌>>=◌, ◌>>◌, and_then, try_catch, handle_with,
}
use fullstack_starter.Api.Federated.{ResolveInput}
use fullstack_starter.Gateway.ApiClient.{resolve_federated_user}
use fullstack_starter.Gateway.Session.{
  cleared, signed, set_refresh_cookie, respond_with_tokens, revoke_current_refresh_family,
}
use fullstack_starter.Gateway.SafeReturn.{safe_return_to}
use fullstack_starter.Gateway.PermissionMapper.{map_groups_to_permissions}
use fullstack_starter.Gateway.SsoTransaction.{
  SsoTransaction, TransactionCookie, set_transaction_cookie, read_transaction,
  clear_transaction_cookie,
}
use fullstack_starter.Gateway.SignedCookie.{
  SsoLogoutHint, SamlLogoutHint, set_logout_hint_cookie, read_logout_hint, clear_logout_hint_cookie,
  read_saml_logout_hint, clear_saml_logout_hint_cookie,
}
use fullstack_starter.Gateway.ProviderRegistry.{SsoProviderConfig}
use fullstack_starter.Gateway.FederatedRegistry.{
  FederatedProvider, oidc_provider, saml_provider, get_federated_provider, list_public_providers,
}
use fullstack_starter.Gateway.SamlClient.{get_client}
use fullstack_starter.Gateway.SamlController.{
  sso_error, unknown_provider, resolved_context, saml_login,
}
use fullstack_starter.Gateway.SamlLogout.{slo_redirect_url}
use fullstack_starter.Gateway.SsoController.{claims_input, checks_of, is_verified}
use fullstack_starter.Gateway.SsoState.{
  SsoAnswer, redirect, reply, providers_json, VerifiedClaim, flag, flag_text, no_flag, TokenSet,
  OidcClient, CallbackChecks, SsoPlatform, SsoExchange, SsoRequest, on_exchange, on_world, reading,
  draw, with_world, set_transaction,
}

module _ {W : Type 0} (p : SsoPlatform W) where
  -- an end point of the identity provider that ends the session there, if it can be had
  abbrev pub end_session_of :
      Bool → OidcClient → SsoProviderConfig → SsoLogoutHint → Async (SsoExchange W) (Option String)
  end_session_of false client config hint = pure none
  end_session_of true client config hint = do
    url ← reading (p.end_session_url client hint.id_token (present config.post_logout_redirect_uri))
    pure (some url)

  abbrev pub end_session_at :
      Option SsoProviderConfig → SsoLogoutHint → Async (SsoExchange W) (Option String)
  end_session_at none hint = pure none
  end_session_at (some config) hint =
      try_catch
        (do
          client ← get_client p hint.provider
          end_session_of (is_some (present client.issuer.end_session_endpoint)) client config hint)
        (λ e. pure none)

  abbrev pub end_session_for : Option SsoLogoutHint → Async (SsoExchange W) (Option String)
  end_session_for none = pure none
  end_session_for (some hint) = end_session_at (get p.registries.oidc hint.provider) hint

  abbrev pub slo_for : Option SamlLogoutHint → String → Async (SsoExchange W) (Option String)
  slo_for none fallback = pure none
  slo_for (some hint) fallback = slo_redirect_url p hint fallback

  abbrev pub or_slo :
      Option String → Option SamlLogoutHint → String → Async (SsoExchange W) SsoAnswer
  or_slo (some url) saml_hint fallback = pure (redirect url)
  or_slo none saml_hint fallback = do
    slo_url ← slo_for saml_hint fallback
    pure (redirect (or_else (present slo_url) fallback))

  unfoldable pub leave :
      Option SsoLogoutHint → Option SamlLogoutHint → String → Async (SsoExchange W) SsoAnswer
  unfolding get_client slo_redirect_url
  leave hint saml_hint fallback = do url ← end_session_for hint; or_slo url saml_hint fallback

  -- whatever comes of the revocation
  abbrev pub clear_cookies_of : SsoExchange W → SsoExchange W
  clear_cookies_of x = record x {
    exchange = record x.exchange { refresh_cookie = cleared };
    logout_hint = some (clear_logout_hint_cookie p.sso_env);
    saml_logout_hint = some (clear_saml_logout_hint_cookie p.sso_env);
  }

  -- the family is revoked and the cookies are cleared before anything is asked of the provider
  unfoldable pub clear_session : SsoRequest → SsoExchange W → SsoExchange W
  unfolding revoke_current_refresh_family clear_logout_hint_cookie clear_saml_logout_hint_cookie
  clear_session req x =
      let (request_id, w) = p.platform.random_uuid x.exchange.world in
      clear_cookies_of
        (with_world x (revoke_current_refresh_family p.platform req.refresh_token request_id w).1)

  unfoldable pub sso_logout : SsoRequest → Async (SsoExchange W) SsoAnswer
  unfolding clear_session leave read_logout_hint read_saml_logout_hint safe_return_to
  sso_logout req x =
      let after = clear_session req x in
      leave (read_logout_hint p.sso_env p.logout_hint_jwt req.logout_hint after.exchange.world)
        (read_saml_logout_hint p.sso_env p.saml_logout_hint_jwt req.saml_logout_hint
          after.exchange.world)
        (safe_return_to req.return_to) after
