-- ===== src/Gateway/SsoController.antt =====
-- apps/gateway/src/controllers/sso.controller.ts: the login of both protocols, the callback of OIDC,
-- and the logout.
use fullstack_starter.Prelude.{String, Bool, false, Option, none, some, or_else, ◌==◌}
use fullstack_starter.Async.{Async, pure, ◌>>=◌, ◌>>◌, try_catch}
use fullstack_starter.Api.Federated.{ResolveInput}
use fullstack_starter.Gateway.SafeReturn.{safe_return_to}
use fullstack_starter.Gateway.PermissionMapper.{map_groups_to_permissions}
use fullstack_starter.Gateway.SsoTransaction.{SsoTransaction, set_transaction_cookie}
use fullstack_starter.Gateway.ProviderRegistry.{SsoProviderConfig}
use fullstack_starter.Gateway.FederatedRegistry.{
  FederatedProvider, oidc_provider, saml_provider, get_federated_provider, list_public_providers,
}
use fullstack_starter.Gateway.SamlClient.{get_client}
use fullstack_starter.Gateway.SamlController.{sso_error, unknown_provider, saml_login}
use fullstack_starter.Gateway.SsoState.{
  SsoAnswer, redirect, providers_json, VerifiedClaim, flag, flag_text, no_flag, TokenSet,
  CallbackChecks, SsoPlatform, SsoExchange, SsoRequest, on_world, reading, draw, set_transaction,
}

-- `ev === true || ev === 'true'`
unfoldable pub is_verified : VerifiedClaim → Bool
is_verified (flag b) = b
is_verified (flag_text s) = s == "true"
is_verified no_flag = false

abbrev pub claims_input : String → SsoProviderConfig → TokenSet → ResolveInput
claims_input provider_id config tokens = record {
  provider = provider_id;
  subject = tokens.sub;
  email = or_else tokens.email "";
  email_verified = is_verified tokens.email_verified;
  suggested_permissions =
      map_groups_to_permissions (tokens.claim config.groups_claim) config.permission_map;
}

abbrev pub checks_of : SsoTransaction → CallbackChecks
checks_of tx = record { state = tx.state; nonce = tx.nonce; code_verifier = tx.code_verifier }

module _ {W : Type 0} (p : SsoPlatform W) where
  unfoldable pub providers : SsoRequest → Async (SsoExchange W) SsoAnswer
  unfolding list_public_providers
  providers req = pure (providers_json (list_public_providers p.sort_providers p.registries))

  unfoldable pub oidc_login : SsoProviderConfig → SsoRequest → Async (SsoExchange W) SsoAnswer
  unfolding get_client safe_return_to set_transaction_cookie
  oidc_login config req =
      try_catch
        (do
          client ← get_client p req.provider
          state ← draw p.random_state
          nonce ← draw p.random_nonce
          code_verifier ← draw p.random_verifier
          cookie ← on_world (
              set_transaction_cookie p.transaction_jwt p.sso_env (record {
                provider = req.provider;
                state = state;
                nonce = nonce;
                code_verifier = code_verifier;
                return_to = safe_return_to req.return_to;
              }))
          set_transaction (some cookie)
          url ← reading (
              p.authorization_url client (record {
                scope = config.scopes;
                state = state;
                nonce = nonce;
                code_challenge = p.code_challenge code_verifier;
                redirect_uri = config.redirect_uri;
              }))
          pure (redirect url))
        (λ e. pure sso_error)

  abbrev pub login_by : Option FederatedProvider → SsoRequest → Async (SsoExchange W) SsoAnswer
  login_by none req = pure unknown_provider
  login_by (some (saml_provider config)) req = saml_login p req
  login_by (some (oidc_provider config)) req = oidc_login config req

  unfoldable pub sso_login : SsoRequest → Async (SsoExchange W) SsoAnswer
  unfolding oidc_login saml_login get_federated_provider
  sso_login req = login_by (get_federated_provider req.provider p.registries) req
