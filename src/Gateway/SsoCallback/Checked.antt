-- ===== src/Gateway/SsoCallback/Checked.antt =====
-- What openid-client has checked where the callback of OIDC opens a session.
use fullstack_starter.Prelude.{◌≡◌, some, get}
use fullstack_starter.Async.{ok}
use fullstack_starter.Gateway.SsoTransaction.{SsoTransaction, read_transaction}
use fullstack_starter.Gateway.ProviderRegistry.{SsoProviderConfig}
use fullstack_starter.Gateway.SsoController.{checks_of}
use fullstack_starter.Gateway.SsoState.{
  TokenSet, OidcClient, CallbackParams, SsoPlatform, SsoRequest,
}

module _ {W : Type 0} (p : SsoPlatform W) where
  -- openid-client has accepted the parameters of the request against what the transaction holds.
  abbrev pub HasExchanged : SsoProviderConfig → SsoTransaction → SsoRequest → Type 0
  HasExchanged config tx req =
      (client : OidcClient) × (params : CallbackParams) × (tokens : TokenSet) × (w : W)
      × (p.callback_params client req.params w ≡ ok params)
      × ((p.callback client config.redirect_uri params (checks_of tx) w).0 ≡ ok tokens)

  -- A session is open only for accepted parameters, in the transaction of this browser with this
  -- provider.
  abbrev pub MayOpenOidc : SsoRequest → W → Type 0
  MayOpenOidc req w =
      (config : SsoProviderConfig) × (tx : SsoTransaction) × (get p.registries.oidc req.provider
        ≡ some config)
      × (read_transaction p.transaction_jwt p.sso_env req.transaction w ≡ some tx)
      × (tx.provider ≡ req.provider)
      × HasExchanged config tx req
