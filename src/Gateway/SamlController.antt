-- ===== src/Gateway/SamlController.antt =====
-- apps/gateway/src/controllers/saml.controller.ts: login at a SAML identity provider, its assertion
-- consumer, its metadata and its logout. The log of a refused response is left out.
pub mod Consumer
use Prim.Native.String.{◌++◌}
use fullstack_starter.Prelude.{
  ℕ, String, Bool, true, false, Option, none, some, or_else, if◌then◌else◌, present, ◌==◌,
}
use fullstack_starter.Async.{
  Async, Result, ok, error, JsError, new_error, pure, throw, lift, ◌>>=◌, ◌>>◌, and_then, try_catch,
  handle_with,
}
use fullstack_starter.Http.{error_json}
use fullstack_starter.Api.Federated.{ResolveInput, ResolvedUser}
use fullstack_starter.Gateway.ApiClient.{resolve_federated_user}
use fullstack_starter.Gateway.Session.{UserContext, signed, respond_with_tokens}
use fullstack_starter.Gateway.SafeReturn.{safe_return_to}
use fullstack_starter.Gateway.PermissionMapper.{map_groups_to_permissions}
use fullstack_starter.Gateway.SsoTransaction.{TransactionCookie}
use fullstack_starter.Gateway.SignedCookie.{
  SamlTransaction, SamlLogoutHint, set_saml_transaction_cookie, read_saml_transaction,
  clear_saml_transaction_cookie, set_saml_logout_hint_cookie,
}
use fullstack_starter.Gateway.FederatedRegistry.{
  FederatedProvider, oidc_provider, saml_provider, get_federated_provider,
}
use fullstack_starter.Gateway.SamlConfig.{SamlProviderConfig}
use fullstack_starter.Gateway.SamlClient.{get_saml_client}
use fullstack_starter.Gateway.SamlProfile.{AssertedUser, persistent_format, check_profile}
use fullstack_starter.Gateway.SsoState.{
  SsoAnswer, redirect, reply, document, Profile, LogoutProfile, ValidatedResponse, SsoPlatform,
  SsoExchange, SsoRequest, on_exchange, on_world, reading, draw, set_saml_transaction,
}

abbrev pub sso_error : SsoAnswer
sso_error = redirect "/login?sso_error=1"

abbrev pub unknown_provider : SsoAnswer
unknown_provider = reply (error_json "Unknown provider" 404)

abbrev pub narrow_saml : Option FederatedProvider → Option SamlProviderConfig
narrow_saml none = none
narrow_saml (some (oidc_provider config)) = none
narrow_saml (some (saml_provider config)) = some config

abbrev pub present_profile : ValidatedResponse → Result Profile
present_profile response = elim response.logged_out [
  | true ↦ error (new_error "SAML: no profile in response")
  | false ↦ elim response.profile [
    | none ↦ error (new_error "SAML: no profile in response")
    | some profile ↦ ok profile
  ]
]

abbrev pub resolved_context : ResolvedUser → UserContext
resolved_context user = record { id = user.id; email = user.email; permissions = user.permissions }

-- what the api is asked: the address counts as verified
abbrev pub resolve_input : SamlProviderConfig → Profile → AssertedUser → ResolveInput
resolve_input config profile user = record {
  provider = config.id;
  subject = user.subject;
  email = user.email;
  email_verified = true;
  suggested_permissions =
      map_groups_to_permissions (profile.attribute config.groups_attribute) config.permission_map;
}

module _ {W : Type 0} (p : SsoPlatform W) where
  unfoldable pub saml_provider_of : String → Option SamlProviderConfig
  unfolding get_federated_provider
  saml_provider_of provider = narrow_saml (get_federated_provider provider p.registries)

  abbrev pub keep_hint : Option TransactionCookie → Async (SsoExchange W) (Unit {0})
  keep_hint none x = (ok (record {}), x)
  keep_hint (some cookie) x = (ok (record {}), record x { saml_logout_hint = some cookie })

  unfoldable pub generate_saml_request_id : Async (SsoExchange W) String
  generate_saml_request_id = do hex ← draw p.random_hex; pure ("_" ++ hex)

  unfoldable pub login_at : SamlProviderConfig → SsoRequest → Async (SsoExchange W) SsoAnswer
  unfolding generate_saml_request_id safe_return_to get_saml_client set_saml_transaction_cookie
  login_at config req =
      try_catch
        (do
          request_id ← generate_saml_request_id
          saml ← get_saml_client p config.id (some request_id)
          url ← on_world (p.authorize_url saml)
          cookie ← on_world (
              set_saml_transaction_cookie p.sso_env p.saml_transaction_jwt (record {
                provider = config.id;
                request_id = request_id;
                return_to = safe_return_to req.return_to;
              }))
          set_saml_transaction (some cookie)
          pure (redirect url))
        (λ e. pure sso_error)

  abbrev pub login_if : Option SamlProviderConfig → SsoRequest → Async (SsoExchange W) SsoAnswer
  login_if none req = pure unknown_provider
  login_if (some config) req = login_at config req

  unfoldable pub saml_login : SsoRequest → Async (SsoExchange W) SsoAnswer
  unfolding login_at saml_provider_of
  saml_login req = login_if (saml_provider_of req.provider) req

  -- the session of the user that the api has answered, and the hint for its logout
  unfoldable pub issue_and_hint :
      SamlProviderConfig
      → SamlTransaction
      → Profile
      → String
      → AssertedUser
      → ResolvedUser
      → Async (SsoExchange W) SsoAnswer
  unfolding respond_with_tokens set_saml_logout_hint_cookie safe_return_to
  issue_and_hint config tx profile request_id user resolved = do
    on_exchange (respond_with_tokens p.platform (resolved_context resolved) none (some request_id))
    hint ← on_world (
        set_saml_logout_hint_cookie p.sso_env p.saml_logout_hint_jwt (record {
          provider = config.id;
          name_id = user.subject;
          name_id_format = profile.name_id_format;
          session_index = profile.session_index;
        }))
    keep_hint hint
    pure (redirect (safe_return_to (some tx.return_to)))

  -- the rest of the `try`, for a profile that has been accepted
  unfoldable pub open_session :
      SamlProviderConfig
      → SamlTransaction
      → Profile
      → String
      → AssertedUser
      → Async (SsoExchange W) SsoAnswer
  unfolding resolve_federated_user issue_and_hint map_groups_to_permissions
  open_session config tx profile request_id user = do
    resolved ← on_world (
        resolve_federated_user (signed p.platform) p.fetch_resolve
          (resolve_input config profile user) request_id)
    issue_and_hint config tx profile request_id user resolved

  unfoldable pub accept_response :
      SamlProviderConfig → SamlTransaction → SsoRequest → String → Async (SsoExchange W) SsoAnswer
  unfolding get_saml_client check_profile open_session
  accept_response config tx req request_id = do
    saml ← get_saml_client p config.id none
    response ← on_world (p.validate_post_response saml req.params)
    profile ← lift (present_profile response)
    user ← lift (check_profile config tx profile)
    open_session config tx profile request_id user

  unfoldable pub consume :
      SamlProviderConfig → Option SamlTransaction → SsoRequest → Async (SsoExchange W) SsoAnswer
  unfolding accept_response
  consume config none req = pure sso_error
  consume config (some tx) req =
      if tx.provider == config.id
      then (do
        request_id ← draw p.platform.random_uuid
        try_catch (accept_response config tx req request_id) (λ e. pure sso_error))
      else pure sso_error

  -- read, then cleared at once
  unfoldable pub callback_at : SamlProviderConfig → SsoRequest → Async (SsoExchange W) SsoAnswer
  unfolding consume read_saml_transaction clear_saml_transaction_cookie
  callback_at config req x =
      consume config
        (read_saml_transaction p.sso_env p.saml_transaction_jwt req.saml_transaction
          x.exchange.world)
        req (record x { saml_transaction = some (clear_saml_transaction_cookie p.sso_env) })

  abbrev pub callback_if : Option SamlProviderConfig → SsoRequest → Async (SsoExchange W) SsoAnswer
  callback_if none req = pure unknown_provider
  callback_if (some config) req = callback_at config req

  unfoldable pub saml_callback : SsoRequest → Async (SsoExchange W) SsoAnswer
  unfolding callback_at saml_provider_of
  saml_callback req = callback_if (saml_provider_of req.provider) req
