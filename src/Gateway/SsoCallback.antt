-- ===== src/Gateway/SsoCallback.antt =====
-- apps/gateway/src/controllers/sso.controller.ts: the callback of OIDC.
pub mod Checked
use fullstack_starter.Prelude.{
  String, Bool, true, false, Option, none, some, or_else, if◌then◌else◌, present, get, is_some,
  ◌==◌,
}
use fullstack_starter.Async.{
  Async, Result, ok, error, JsError, pure, lift, ◌>>=◌, ◌>>◌, and_then, try_catch, handle_with,
}
use fullstack_starter.Api.Federated.{ResolveInput}
use fullstack_starter.Gateway.ApiClient.{resolve_federated_user}
use fullstack_starter.Gateway.Session.{
  cleared, signed, set_refresh_cookie, respond_with_tokens, revoke_current_refresh_family,
}
use fullstack_starter.Gateway.SafeReturn.{safe_return_to}
use fullstack_starter.Gateway.PermissionMapper.{map_groups_to_permissions}
use fullstack_starter.Gateway.SsoTransaction.{
  SsoTransaction, TransactionCookie, set_transaction_cookie, read_transaction,
  clear_transaction_cookie,
}
use fullstack_starter.Gateway.SignedCookie.{
  SsoLogoutHint, SamlLogoutHint, set_logout_hint_cookie, read_logout_hint, clear_logout_hint_cookie,
  read_saml_logout_hint, clear_saml_logout_hint_cookie,
}
use fullstack_starter.Gateway.ProviderRegistry.{SsoProviderConfig}
use fullstack_starter.Gateway.FederatedRegistry.{
  FederatedProvider, oidc_provider, saml_provider, get_federated_provider, list_public_providers,
}
use fullstack_starter.Gateway.SamlClient.{get_client}
use fullstack_starter.Gateway.SamlController.{
  sso_error, unknown_provider, resolved_context, saml_login,
}
use fullstack_starter.Gateway.SamlLogout.{slo_redirect_url}
use fullstack_starter.Gateway.SsoController.{claims_input, checks_of, is_verified}
use fullstack_starter.Gateway.SsoState.{
  SsoAnswer, redirect, reply, providers_json, VerifiedClaim, flag, flag_text, no_flag, TokenSet,
  OidcClient, CallbackChecks, SsoPlatform, SsoExchange, SsoRequest, on_exchange, on_world, reading,
  draw, with_world, set_transaction,
}

module _ {W : Type 0} (p : SsoPlatform W) where
  abbrev pub put_hint : Option TransactionCookie → Async (SsoExchange W) (Unit {0})
  put_hint none x = (ok (record {}), x)
  put_hint (some cookie) x = (ok (record {}), record x { logout_hint = some cookie })

  abbrev pub keep_id_token : String → Option String → Async (SsoExchange W) (Unit {0})
  keep_id_token provider_id none = pure (record {})
  keep_id_token provider_id (some id_token) = do
    hint ← on_world (
        set_logout_hint_cookie p.sso_env p.logout_hint_jwt
          (record { provider = provider_id; id_token = id_token }))
    put_hint hint

  -- the rest of the `try`, for tokens that openid-client has accepted
  unfoldable pub open_oidc_session :
      SsoProviderConfig
      → SsoTransaction
      → String
      → String
      → TokenSet
      → Async (SsoExchange W) SsoAnswer
  unfolding resolve_federated_user respond_with_tokens set_logout_hint_cookie safe_return_to
      map_groups_to_permissions is_verified
  open_oidc_session config tx provider_id request_id tokens = do
    resolved ← on_world (
        resolve_federated_user (signed p.platform) p.fetch_resolve
          (claims_input provider_id config tokens) request_id)
    on_exchange (respond_with_tokens p.platform (resolved_context resolved) none (some request_id))
    keep_id_token provider_id tokens.id_token
    pure (redirect (safe_return_to (some tx.return_to)))

  unfoldable pub exchange_with :
      SsoProviderConfig
      → SsoTransaction
      → SsoRequest
      → String
      → OidcClient
      → Async (SsoExchange W) SsoAnswer
  unfolding open_oidc_session
  exchange_with config tx req request_id client = do
    params ← reading (p.callback_params client req.params)
    tokens ← on_world (p.callback client config.redirect_uri params (checks_of tx))
    open_oidc_session config tx req.provider request_id tokens

  unfoldable pub exchange_code :
      SsoProviderConfig → SsoTransaction → SsoRequest → String → Async (SsoExchange W) SsoAnswer
  unfolding get_client exchange_with
  exchange_code config tx req request_id = do
    client ← get_client p req.provider
    exchange_with config tx req request_id client

  unfoldable pub callback_in :
      SsoProviderConfig → Option SsoTransaction → SsoRequest → Async (SsoExchange W) SsoAnswer
  unfolding exchange_code
  callback_in config none req = pure sso_error
  callback_in config (some tx) req =
      if tx.provider == req.provider
      then (do
        request_id ← draw p.platform.random_uuid
        try_catch (exchange_code config tx req request_id) (λ e. pure sso_error))
      else pure sso_error

  -- read, then cleared at once
  unfoldable pub oidc_callback_at : SsoProviderConfig → SsoRequest → Async (SsoExchange W) SsoAnswer
  unfolding callback_in read_transaction clear_transaction_cookie
  oidc_callback_at config req x =
      callback_in config
        (read_transaction p.transaction_jwt p.sso_env req.transaction x.exchange.world) req
        (record x { transaction = some (clear_transaction_cookie p.transaction_jwt p.sso_env) })

  abbrev pub oidc_callback_if :
      Option SsoProviderConfig → SsoRequest → Async (SsoExchange W) SsoAnswer
  oidc_callback_if none req = pure unknown_provider
  oidc_callback_if (some config) req = oidc_callback_at config req

  unfoldable pub oidc_callback : SsoRequest → Async (SsoExchange W) SsoAnswer
  unfolding oidc_callback_at
  oidc_callback req = oidc_callback_if (get p.registries.oidc req.provider) req
