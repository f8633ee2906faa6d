-- ===== src/Gateway/SsoLogout/Cleared.antt =====
-- A logout ends the local session, whatever the identity provider does.
use fullstack_starter.Prelude.{
  String, ◌≡◌, refl, ap, ◌∙◌, ◌⊎◌, inl, inr, Bool, true, false, Bool-cases, Option, none, some,
  Option-cases, get, is_some, present, or_else,
}
use fullstack_starter.Async.{
  Async, Result, ok, error, Result-cases, handle_with, and_then, and_then-ok, pure,
}
use fullstack_starter.Gateway.Session.{CookieChange, cleared}
use fullstack_starter.Gateway.SafeReturn.{IsSameSite, safe_return_to, safe_return_to-IsSameSite}
use fullstack_starter.Gateway.SsoTransaction.{TransactionCookie}
use fullstack_starter.Gateway.SignedCookie.{
  SsoLogoutHint, SamlLogoutHint, read_logout_hint, read_saml_logout_hint, clear_logout_hint_cookie,
  clear_saml_logout_hint_cookie,
}
use fullstack_starter.Gateway.FederatedRegistry.{get_federated_provider}
use fullstack_starter.Gateway.ProviderRegistry.{SsoProviderConfig}
use fullstack_starter.Gateway.SamlConfig.{SamlProviderConfig}
use fullstack_starter.Gateway.SamlClient.{get_client, get_saml_client}
use fullstack_starter.Gateway.SamlController.{narrow_saml}
use fullstack_starter.Gateway.SamlLogout.{slo_url_at, slo_redirect_url, logout_profile}
use fullstack_starter.Gateway.SsoLogout.{
  end_session_of, end_session_for, slo_for, or_slo, leave, clear_session, sso_logout,
}
use fullstack_starter.Gateway.SsoState.{
  SsoAnswer, redirect, OidcClient, SamlOptions, SsoPlatform, SsoExchange, SsoRequest, on_world,
}

-- what the response does to the cookies of a session
abbrev pub cookies_of :
    {W : Type 0}
    → SsoExchange W
    → CookieChange × Option TransactionCookie × Option TransactionCookie
cookies_of x = (x.exchange.refresh_cookie, x.logout_hint, x.saml_logout_hint)

-- It succeeds, and leaves the cookies as they are.
abbrev Succeeds : {W A : Type 0} → SsoExchange W → Result A × SsoExchange W → Type 0
Succeeds {A} x out = (a : A) × (out.0 ≡ ok a) × (cookies_of out.1 ≡ cookies_of x)

module _ {W : Type 0} (p : SsoPlatform W) where
  get_client-cookies :
      (id : String) (x : SsoExchange W) → cookies_of (get_client p id x).1 ≡ cookies_of x
  unfolding get_client
  get_client-cookies id x = elim (Option-cases (get x.clients id)) [
    | inr (client, found) ↦ rw found refl
    | inl missing ↦ rw missing (elim (Option-cases (get p.registries.oidc id)) [
      | inl unknown ↦ rw unknown refl
      | inr (config, known) ↦
          rw known (elim (Result-cases (p.discover config.issuer x.exchange.world).0) [
            | inl (issuer, found) ↦ rw found refl
            | inr (e, failed) ↦ rw failed refl
          ])
    ])
  ]

  end_session_of-cookies :
      (b : Bool) (client : OidcClient) (config : SsoProviderConfig) (hint : SsoLogoutHint)
      (x : SsoExchange W)
      → cookies_of (end_session_of p b client config hint x).1 ≡ cookies_of x
  end_session_of-cookies false client config hint x = refl
  end_session_of-cookies true client config hint x =
      elim (Result-cases (
        p.end_session_url client hint.id_token (present config.post_logout_redirect_uri)
          x.exchange.world)) [ inl (url, made) ↦ rw made refl | inr (e, failed) ↦ rw failed refl ]

  -- A `try` that catches everything succeeds, and keeps the cookies if its body does.
  caught-Succeeds :
      {A : Type 0} (m : Result A × SsoExchange W) (fallback : A) (x : SsoExchange W)
      → cookies_of m.1 ≡ cookies_of x
      → Succeeds x (handle_with m (λ e. pure fallback))
  caught-Succeeds (ok a, y) fallback x h = (a, refl, h)
  caught-Succeeds (error e, y) fallback x h = (fallback, refl, h)

  chain-cookies :
      {A B : Type 0} (m : Result A × SsoExchange W) (k : A → Async (SsoExchange W) B)
      (x : SsoExchange W)
      → cookies_of m.1 ≡ cookies_of x
      → ((a : A) (y : SsoExchange W) → cookies_of (k a y).1 ≡ cookies_of y)
      → cookies_of (and_then m k).1 ≡ cookies_of x
  chain-cookies (ok a, y) k x h keeps = keeps a y ∙ h
  chain-cookies (error e, y) k x h keeps = h

  end_session_for-Succeeds :
      (hint : Option SsoLogoutHint) (x : SsoExchange W) → Succeeds x (end_session_for p hint x)
  end_session_for-Succeeds none x = (none, refl, refl)
  end_session_for-Succeeds (some hint) x =
      elim (Option-cases (get p.registries.oidc hint.provider)) [
        | inl unknown ↦ rw unknown (none, refl, refl)
        | inr (config, known) ↦
            let rest : OidcClient → Async (SsoExchange W) (Option String) = λ client.
              end_session_of p (is_some (present client.issuer.end_session_endpoint)) client config
                hint in
            rw known (
              caught-Succeeds (and_then (get_client p hint.provider x) rest) none x (
                chain-cookies (get_client p hint.provider x) rest x
                  (get_client-cookies hint.provider x)
                  (λ client y.
                    end_session_of-cookies (is_some (present client.issuer.end_session_endpoint))
                      client config hint y)))
      ]

  get_saml_client-cookies :
      (id : String) (request_id : Option String) (x : SsoExchange W)
      → cookies_of (get_saml_client p id request_id x).1 ≡ cookies_of x
  unfolding get_saml_client
  get_saml_client-cookies id request_id x = elim (Option-cases (get p.registries.saml id)) [
    | inl unknown ↦ rw unknown refl
    | inr (config, known) ↦ rw known refl
  ]

  slo_url_at-Succeeds :
      (config : Option SamlProviderConfig) (hint : SamlLogoutHint) (relay_state : String)
      (x : SsoExchange W)
      → Succeeds x (slo_url_at p config hint relay_state x)
  slo_url_at-Succeeds none hint relay_state x = (none, refl, refl)
  slo_url_at-Succeeds (some config) hint relay_state x =
      elim (Bool-cases (is_some (present config.logout_url))) [
        | inr absent ↦ rw absent (none, refl, refl)
        | inl given ↦
            let ask : SamlOptions → Async (SsoExchange W) String = λ saml. on_world (
              p.logout_url saml (logout_profile config hint) (safe_return_to (some relay_state))) in
            let rest : SamlOptions → Async (SsoExchange W) (Option String) =
              λ saml y. and_then (ask saml y) (λ url. pure (some url)) in
            rw given (
              caught-Succeeds (and_then (get_saml_client p hint.provider none x) rest) none x (
                chain-cookies (get_saml_client p hint.provider none x) rest x
                  (get_saml_client-cookies hint.provider none x)
                  (λ saml y.
                    chain-cookies (ask saml y) (λ url. pure (some url)) y refl (λ a z. refl))))
      ]

  slo_for-Succeeds :
      (hint : Option SamlLogoutHint) (fallback : String) (x : SsoExchange W)
      → Succeeds x (slo_for p hint fallback x)
  unfolding slo_redirect_url
  slo_for-Succeeds none fallback x = (none, refl, refl)
  slo_for-Succeeds (some hint) fallback x =
      slo_url_at-Succeeds (narrow_saml (get_federated_provider hint.provider p.registries)) hint
        fallback x

  -- It sends the browser somewhere, and leaves the cookies as they are.
  abbrev pub Redirects : SsoExchange W → Result SsoAnswer × SsoExchange W → Type 0
  Redirects x out = (url : String) × (out.0 ≡ ok (redirect url)) × (cookies_of out.1 ≡ cookies_of x)

  or_slo-Redirects :
      (url : Option String) (hint : Option SamlLogoutHint) (fallback : String) (x : SsoExchange W)
      → Redirects x (or_slo p url hint fallback x)
  or_slo-Redirects (some url) hint fallback x = (url, refl, refl)
  or_slo-Redirects none hint fallback x =
      let (slo_url, answered, kept) = slo_for-Succeeds hint fallback x in
      let landing = or_else (present slo_url) fallback in
      let rest : Option String → Async (SsoExchange W) SsoAnswer =
        λ u. pure (redirect (or_else (present u) fallback)) in
      let went_on = and_then-ok (slo_for p hint fallback x) rest slo_url answered in
      (landing, ap (λ r. r.0) went_on, ap (λ r. cookies_of r.1) went_on ∙ kept)

  leave-Redirects :
      (hint : Option SsoLogoutHint) (saml_hint : Option SamlLogoutHint) (fallback : String)
      (x : SsoExchange W)
      → Redirects x (leave p hint saml_hint fallback x)
  unfolding leave
  leave-Redirects hint saml_hint fallback x =
      let (url, answered, kept) = end_session_for-Succeeds hint x in
      let asked = end_session_for p hint x in
      let rest : Option String → Async (SsoExchange W) SsoAnswer =
        λ u. or_slo p u saml_hint fallback in
      let went_on = and_then-ok asked rest url answered in
      let (landing, sent, same) = or_slo-Redirects url saml_hint fallback asked.1 in
      (landing, ap (λ r. r.0) went_on ∙ sent, ap (λ r. cookies_of r.1) went_on ∙ same ∙ kept)

  clear_session-cookies :
      (req : SsoRequest) (x : SsoExchange W)
      → cookies_of (clear_session p req x) ≡ (
        cleared,
        some (clear_logout_hint_cookie p.sso_env),
        some (clear_saml_logout_hint_cookie p.sso_env),
      )
  unfolding clear_session
  clear_session-cookies req x = refl

  -- Elsewhere than to a path on the same site the browser is sent for a hint that verifies only.
  abbrev pub IsLanding : SsoRequest → W → String → Type 0
  IsLanding req w url =
      IsSameSite url
      ⊎ (((hint : SsoLogoutHint) × (read_logout_hint p.sso_env p.logout_hint_jwt req.logout_hint w
              ≡ some hint))
          ⊎ ((hint : SamlLogoutHint) × (read_saml_logout_hint p.sso_env p.saml_logout_hint_jwt
                  req.saml_logout_hint w
                ≡ some hint)))

  leave-IsLanding :
      (req : SsoRequest) (w : W) (x : SsoExchange W)
      → let hint = read_logout_hint p.sso_env p.logout_hint_jwt req.logout_hint w in
        let saml_hint =
          read_saml_logout_hint p.sso_env p.saml_logout_hint_jwt req.saml_logout_hint w in
        (url : String) × ((leave p hint saml_hint (safe_return_to req.return_to) x).0
          ≡ ok (redirect url))
        × IsLanding req w url
  unfolding leave
  leave-IsLanding req w x =
      let fallback = safe_return_to req.return_to in
      let hint = read_logout_hint p.sso_env p.logout_hint_jwt req.logout_hint w in
      let saml_hint =
        read_saml_logout_hint p.sso_env p.saml_logout_hint_jwt req.saml_logout_hint w in
      let (url, sent, same) = leave-Redirects hint saml_hint fallback x in
      elim (Option-cases hint) [
        | inr (given, found) ↦ (url, sent, inr (inl (given, found)))
        | inl absent ↦ elim (Option-cases saml_hint) [
          | inr (given, found) ↦ (url, sent, inr (inr (given, found)))
          | inl none_either ↦ (
            fallback,
            rw (absent, none_either) refl,
            inl (safe_return_to-IsSameSite req.return_to),
          )
        ]
      ]

  -- The logout of single sign-on never fails: whatever the api, the hints and the identity provider
  -- do, the browser is redirected, the refresh cookie is cleared, and so are the cookies with the
  -- hints of both protocols. It is redirected to a path on the same site, unless a cookie of the
  -- request holds a logout hint that verifies.
  pub sso_logout-IsLanding :
      (req : SsoRequest) (x : SsoExchange W)
      → let out = sso_logout p req x in
        (url : String) × (out.0 ≡ ok (redirect url))
        × IsLanding req (clear_session p req x).exchange.world url
        × (cookies_of out.1 ≡ (
          cleared,
          some (clear_logout_hint_cookie p.sso_env),
          some (clear_saml_logout_hint_cookie p.sso_env),
        ))
  unfolding sso_logout
  sso_logout-IsLanding req x =
      let after = clear_session p req x in
      let w = after.exchange.world in
      let hint = read_logout_hint p.sso_env p.logout_hint_jwt req.logout_hint w in
      let saml_hint =
        read_saml_logout_hint p.sso_env p.saml_logout_hint_jwt req.saml_logout_hint w in
      let (any_url, any_sent, same) =
        leave-Redirects hint saml_hint (safe_return_to req.return_to) after in
      let (url, sent, landing) = leave-IsLanding req w after in
      (url, sent, landing, same ∙ clear_session-cookies req x)
