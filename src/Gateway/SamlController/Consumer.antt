-- ===== src/Gateway/SamlController/Consumer.antt =====
-- What the assertion consumer has checked where it opens a session.
use Prim.Native.String.{◌++◌}
use fullstack_starter.Prelude.{
  String, ◌≡◌, refl, sym, subst, ◌⊎◌, inl, inr, Bool-cases, none, some, Option-cases, get, ◌==◌,
  eq_iff,
}
use fullstack_starter.Async.{
  new_error, ok, error, JsError, Result-cases, handle_with-error, handle_with-state, pure,
}
use fullstack_starter.Gateway.SignedCookie.{
  SamlTransaction, read_saml_transaction, clear_saml_transaction_cookie,
  set_saml_logout_hint_cookie,
}
use fullstack_starter.Gateway.SamlConfig.{SamlProviderConfig}
use fullstack_starter.Gateway.SamlClient.{use_cache, get_saml_client, saml_options}
use fullstack_starter.Gateway.SamlProfile.{AssertedUser, check_profile}
use fullstack_starter.Gateway.SamlProfile.Acceptable.{IsAcceptable, check_profile-IsAcceptable}
use fullstack_starter.Gateway.SsoState.{
  Profile, ValidatedResponse, SsoPlatform, SsoExchange, SsoRequest, with_world,
}
use fullstack_starter.Api.Federated.{ResolveInput, ResolvedUser}
use fullstack_starter.Gateway.ApiClient.{resolve_federated_user}
use fullstack_starter.Gateway.PermissionMapper.{map_groups_to_permissions}
use fullstack_starter.Gateway.Session.{UserContext, Exchange, signed, respond_with_tokens}
use fullstack_starter.Gateway.SamlController.{
  issue_and_hint, open_session, resolve_input, resolved_context, sso_error, unknown_provider,
  present_profile, saml_provider_of, accept_response, consume, callback_at, saml_callback,
}

-- The response says nothing of a session.
abbrev pub Untouched : {W : Type 0} → SsoExchange W → SsoExchange W → Type 0
Untouched x y =
    (y.exchange.refresh_cookie ≡ x.exchange.refresh_cookie)
    × (y.exchange.authorization ≡ x.exchange.authorization)

module _ {W : Type 0} (p : SsoPlatform W) where
  -- The session of an exchange is the one that is issued for a user and a request.
  abbrev pub IssuedFor : ResolvedUser → String → Exchange W → Exchange W → Type 0
  IssuedFor user request_id before after =
      let context : UserContext = record {
        id = user.id;
        email = user.email;
        permissions = user.permissions;
      } in
      let issued = (respond_with_tokens p.platform context none (some request_id) before).1 in
      (after.refresh_cookie ≡ issued.refresh_cookie) × (after.authorization ≡ issued.authorization)

  -- node-saml has validated the response against the configuration, its profile is acceptable, the
  -- api has been asked for the subject and the address of that profile, and the session is the one
  -- of the user that it has answered.
  pub record HasOpened (config : SamlProviderConfig) (tx : SamlTransaction) (req : SsoRequest)
      (out : Exchange W) : Type 0 where
    pub pinned : SamlProviderConfig
    pub world : W
    pub response : ValidatedResponse
    pub profile : Profile
    pub registered : get p.registries.saml config.id ≡ some pinned
    pub validated :
        (p.validate_post_response (saml_options pinned config.id none) req.params world).0
        ≡ ok response
    pub presented : present_profile response ≡ ok profile
    pub asked : ResolveInput
    pub of_provider : asked.provider ≡ config.id
    pub acceptable :
        IsAcceptable config tx profile (record { subject = asked.subject; email = asked.email })
    pub grouped :
        asked.suggested_permissions
        ≡ map_groups_to_permissions
            (profile.attribute config.groups_attribute)
            config.permission_map
    pub request_id : String
    pub before : Exchange W
    pub resolved : ResolvedUser
    pub answered :
        (resolve_federated_user (signed p.platform) p.fetch_resolve asked request_id before.world).0
        ≡ ok resolved
    pub issued :
        IssuedFor resolved request_id
          (record before {
            world =
                (resolve_federated_user
                  (signed p.platform)
                  p.fetch_resolve
                  asked
                  request_id
                  before.world).1;
          })
          out

  -- A session is open only for an accepted profile, in the transaction of this browser with this
  -- provider.
  abbrev pub MayOpen : SsoRequest → W → Exchange W → Type 0
  MayOpen req w out =
      (config : SamlProviderConfig) × (tx : SamlTransaction) × (saml_provider_of p req.provider
        ≡ some config)
      × (read_saml_transaction p.sso_env p.saml_transaction_jwt req.saml_transaction w ≡ some tx)
      × (tx.provider ≡ config.id)
      × HasOpened config tx req out

  -- what is issued stays issued, whatever becomes of the hint
  after_issue-kept :
      (config : SamlProviderConfig) (tx : SamlTransaction) (profile : Profile) (request_id : String)
      (user : AssertedUser) (resolved : ResolvedUser) (x : SsoExchange W)
      → IssuedFor resolved request_id x.exchange
          (issue_and_hint p config tx profile request_id user resolved x).1.exchange
  unfolding issue_and_hint
  after_issue-kept config tx profile request_id user resolved x =
      let issued =
        respond_with_tokens p.platform (resolved_context resolved) none (some request_id)
          x.exchange in
      let hint =
        set_saml_logout_hint_cookie p.sso_env p.saml_logout_hint_jwt
          (record {
            provider = config.id;
            name_id = user.subject;
            name_id_format = profile.name_id_format;
            session_index = profile.session_index;
          })
          issued.1.world in
      elim (Result-cases issued.0) [
        | inr (e, failed) ↦ rw failed (refl, refl)
        | inl (_, done) ↦ elim (Result-cases hint.0) [
          | inr (e, failed) ↦ rw (done, failed) (refl, refl)
          | inl (cookie, kept) ↦ elim (Option-cases cookie) [
            | inl unset ↦ rw (done, kept, unset) (refl, refl)
            | inr (c, given) ↦ rw (done, kept, given) (refl, refl)
          ]
        ]
      ]

  open_session-cases :
      (config : SamlProviderConfig) (tx : SamlTransaction) (profile : Profile) (request_id : String)
      (user : AssertedUser) (x : SsoExchange W)
      → let out = open_session p config tx profile request_id user x in
        let asked =
          resolve_federated_user
            (signed p.platform)
            p.fetch_resolve
            (resolve_input config profile user)
            request_id
            x.exchange.world in
        ((e : JsError) × (out.0 ≡ error e) × Untouched x out.1)
        ⊎ ((resolved : ResolvedUser) × (asked.0 ≡ ok resolved)
            × IssuedFor resolved request_id (record x.exchange { world = asked.1 }) out.1.exchange)
  unfolding open_session
  open_session-cases config tx profile request_id user x =
      let asked =
        resolve_federated_user (signed p.platform) p.fetch_resolve
          (resolve_input config profile user) request_id x.exchange.world in
      elim (Result-cases asked.0) [
        | inr (e, refused) ↦ inl (e, rw refused refl, rw refused (refl, refl))
        | inl (resolved, answered) ↦ inr (
          resolved,
          answered,
          rw answered
              (after_issue-kept config tx profile request_id user resolved (with_world x asked.1)),
        )
      ]

  accept_response-cases :
      (config : SamlProviderConfig) (tx : SamlTransaction) (req : SsoRequest) (request_id : String)
      (x : SsoExchange W)
      → let out = accept_response p config tx req request_id x in
        ((e : JsError) × (out.0 ≡ error e) × Untouched x out.1)
        ⊎ HasOpened config tx req out.1.exchange
  unfolding accept_response get_saml_client
  accept_response-cases config tx req request_id x =
      elim (Option-cases (get p.registries.saml config.id)) [
        | inl missing ↦ inl (
          new_error ("Unknown SAML provider: " ++ config.id),
          rw missing refl,
          rw missing (refl, refl),
        )
        | inr (pinned, found) ↦
            let saml = saml_options pinned config.id none in
            let validated = p.validate_post_response saml req.params x.exchange.world in
            elim (Result-cases validated.0) [
              | inr (e, refused) ↦
                  inl (e, rw (found, refused) refl, rw (found, refused) (refl, refl))
              | inl (response, valid) ↦ elim (Result-cases (present_profile response)) [
                | inr (e, absent) ↦
                    inl (e, rw (found, valid, absent) refl, rw (found, valid, absent) (refl, refl))
                | inl (profile, given) ↦ elim (Result-cases (check_profile config tx profile)) [
                  | inr (e, refused) ↦ inl (
                    e,
                    rw (found, valid, given, refused) refl,
                    rw (found, valid, given, refused) (refl, refl),
                  )
                  | inl (user, passed) ↦
                      let before = with_world (use_cache p config.id x) validated.1 in
                      elim (open_session-cases config tx profile request_id user before) [
                        | inl (e, failed, untouched) ↦ inl (
                          e,
                          rw (found, valid, given, passed) failed,
                          rw (found, valid, given, passed) untouched,
                        )
                        | inr (resolved, answered, issued) ↦ inr (record {
                          pinned = pinned;
                          world = x.exchange.world;
                          response = response;
                          profile = profile;
                          registered = found;
                          validated = valid;
                          presented = given;
                          asked = resolve_input config profile user;
                          of_provider = refl;
                          acceptable = check_profile-IsAcceptable config tx profile user passed;
                          grouped = refl;
                          request_id = request_id;
                          before = before.exchange;
                          resolved = resolved;
                          answered = answered;
                          issued = rw (found, valid, given, passed) issued;
                        })
                      ]
                ]
              ]
            ]
      ]

  consume-cases :
      (config : SamlProviderConfig) (tx : SamlTransaction) (req : SsoRequest) (x : SsoExchange W)
      → tx.provider ≡ config.id
      → let out = consume p config (some tx) req x in
        ((out.0 ≡ ok sso_error) × Untouched x out.1) ⊎ HasOpened config tx req out.1.exchange
  unfolding consume
  consume-cases config tx req x same =
      let (request_id, w) = p.platform.random_uuid x.exchange.world in
      let body = accept_response p config tx req request_id (with_world x w) in
      elim (accept_response-cases config tx req request_id (with_world x w)) [
        | inl (e, failed, untouched) ↦
            let caught = handle_with-error body (λ e. pure sso_error) e failed in
            inl (
              rw ((eq_iff tx.provider config.id).1 same, caught) refl,
              rw ((eq_iff tx.provider config.id).1 same, caught) untouched,
            )
        | inr opened ↦
            let still = handle_with-state body (λ e. pure sso_error) (λ e y. refl) in
            let whole =
              subst (λ (y : SsoExchange W). HasOpened config tx req y.exchange) (sym still)
                opened in
            inr (rw ((eq_iff tx.provider config.id).1 same) whole)
      ]

  -- The assertion consumer answers 404 for a provider that is not configured for SAML. For another
  -- one it sends the browser to the error page, with no refresh cookie and no access token issued,
  -- unless the signed transaction of this browser is with this same provider, node-saml has
  -- validated the response with the options of the registry, its profile is acceptable, and the api
  -- has answered a user for it, whose session it is then. The profile is issued by the configured
  -- provider, in response to the request of the transaction, with a stable subject, and the address
  -- that it asserts is plausible and in an allowed domain; the api is asked for this subject, this
  -- address and the permissions of the profile's groups, and for nothing else.
  pub saml_callback-MayOpen :
      (req : SsoRequest) (x : SsoExchange W)
      → let out = saml_callback p req x in
        ((saml_provider_of p req.provider ≡ none) × (out ≡ (ok unknown_provider, x)))
        ⊎ (((out.0 ≡ ok sso_error) × Untouched x out.1)
            ⊎ MayOpen req x.exchange.world out.1.exchange)
  unfolding saml_callback callback_at
  saml_callback-MayOpen req x = elim (Option-cases (saml_provider_of p req.provider)) [
    | inl unknown ↦ inl (unknown, rw unknown refl)
    | inr (config, known) ↦
        let w = x.exchange.world in
        let cleared : SsoExchange W = record x {
          saml_transaction = some (clear_saml_transaction_cookie p.sso_env);
        } in
        inr
          (elim (Option-cases
            (read_saml_transaction p.sso_env p.saml_transaction_jwt req.saml_transaction w)) [
              | inl absent ↦ inl (rw (known, absent) refl, rw (known, absent) (refl, refl))
              | inr (tx, found) ↦ elim (Bool-cases (tx.provider == config.id)) [
                | inr other ↦
                    inl (rw (known, found, other) refl, rw (known, found, other) (refl, refl))
                | inl same ↦
                    let matched = (eq_iff tx.provider config.id).0 same in
                    elim (consume-cases config tx req cleared matched) [
                      | inl (answered, untouched) ↦
                          inl (rw (known, found) answered, rw (known, found) untouched)
                      | inr opened ↦
                          inr (config, tx, known, found, matched, rw (known, found) opened)
                    ]
              ]
            ])
  ]
