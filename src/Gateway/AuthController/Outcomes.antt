-- ===== src/Gateway/AuthController/Outcomes.antt =====
-- What a login and a logout answer.
use fullstack_starter.Prelude.{
  String, ◌≡◌, refl, sym, ap, ◌∙◌, present-inv, Bool, true, Option, none, some, present, arith,
}
use fullstack_starter.Async.{pure, Result, ok, error, and_then-inv, handle_with, ok-injective}
use fullstack_starter.Http.{Response, success_empty, answer_with-ok}
use fullstack_starter.Gateway.ApiClient.{ValidateCredentialsResponse, validate_credentials_call}
use fullstack_starter.Gateway.Platform.{Platform}
use fullstack_starter.Gateway.Session.{
  Exchange, cleared, signed, outside, revoke_present, revoke_current_refresh_family,
}
use fullstack_starter.Gateway.AuthController.{
  LoginBody, invalid_credentials, login_given, login, logout,
}

module _ {W : Type 0} (p : Platform W) where
  swallowed :
      (x : Result (Unit {0}) × W) → (handle_with x (λ e. pure (record {}))).0 ≡ ok (record {})
  swallowed (ok u, w) = refl
  swallowed (error e, w) = refl

  revoke_present-ok :
      (token : Option String) (request_id : String) (w : W)
      → (revoke_present p token request_id w).0 ≡ ok (record {})
  unfolding revoke_present
  revoke_present-ok none request_id w = refl
  revoke_present-ok (some token) request_id w = swallowed _

  -- A logout always answers 200 and clears both cookies, whatever the token is and whether the api
  -- can be reached or not.
  pub logout_succeeds :
      (token : Option String) (x : Exchange W)
      → ((logout p token x).0 ≡ success_empty 200)
        × ((logout p token x).1.refresh_cookie ≡ cleared)
        × ((logout p token x).1.hint_cleared ≡ true)
  unfolding logout revoke_current_refresh_family
  logout_succeeds token x =
      rw (revoke_present-ok (present token) (p.random_uuid x.world).0 (p.random_uuid x.world).1)
        (refl, refl, refl)

  login_given-accepted :
      (email_given password_given : Option String) (remember : Bool) (request_id : String)
      (x : Exchange W) (r : Response (Unit {0}))
      → (login_given p email_given password_given remember request_id x).0 ≡ ok r
      → r.status ≡ 200
      → (email : String) × (password : String) × (user : ValidateCredentialsResponse) × (email_given
          ≡ some email)
        × (password_given ≡ some password)
        × ((validate_credentials_call
              (signed p)
              p.fetch_validate
              email
              password
              request_id
              x.world).0
            ≡ ok user)
  unfolding login_given
  login_given-accepted none y remember request_id x r h good =
      absurd (omega (arith, ap (λ q. q.status) (ok-injective h)))
  login_given-accepted (some email) none remember request_id x r h good =
      absurd (omega (arith, ap (λ q. q.status) (ok-injective h)))
  login_given-accepted (some email) (some password) remember request_id x r h good =
      let (user, valid, _, _) =
        and_then-inv
          (outside p
            (validate_credentials_call (signed p) p.fetch_validate email password request_id) x)
          _ r h in
      (email, password, user, refl, refl, valid)

  -- A login that answers 200 was given both fields of the body, and the api has accepted them.
  pub login-accepted :
      (body : LoginBody) (x : Exchange W)
      → (login p body x).0.status ≡ 200
      → (email : String) × (password : String) × (user : ValidateCredentialsResponse)
        × (request_id : String) × (body.email ≡ some email)
        × (body.password ≡ some password)
        × ((validate_credentials_call
              (signed p)
              p.fetch_validate
              email
              password
              request_id
              (p.random_uuid x.world).1).0
            ≡ ok user)
  unfolding login
  login-accepted body x h =
      let request_id = (p.random_uuid x.world).0 in
      let (r, ran, same) =
        answer_with-ok
          (login_given p (present body.email) (present body.password) body.remember request_id
            (record x { world = (p.random_uuid x.world).1 }))
          (λ e. invalid_credentials) 200 (λ e g. absurd (omega arith)) h in
      let (email, password, user, has_email, has_password, valid) =
        login_given-accepted (present body.email) (present body.password) body.remember request_id _
          r ran (ap (λ q. q.0.status) (sym same) ∙ h) in
      (
        email,
        password,
        user,
        request_id,
        present-inv body.email email has_email,
        present-inv body.password password has_password,
        valid,
      )
