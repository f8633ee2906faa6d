-- ===== src/Gateway/AuthController.antt =====
-- apps/gateway/src/controllers/auth.controller.ts: login and logout.
pub mod Outcomes
use fullstack_starter.Prelude.{
  String, Bool, true, false, Option, none, some, or_else, if◌then◌else◌, is_truthy, present,
}
use fullstack_starter.Async.{Async, Result, ok, error, pure, ◌>>=◌, ◌>>◌, handle_with, try_catch}
use fullstack_starter.Http.{Response, success_empty, error_json, answer_with, catching, error_500}
use fullstack_starter.Gateway.ApiClient.{ValidateCredentialsResponse, validate_credentials_call}
use fullstack_starter.Gateway.Platform.{Platform}
use fullstack_starter.Gateway.TokenService.{TokenInput}
use fullstack_starter.Gateway.Session.{
  UserContext, Exchange, cleared, signed, outside, fresh_uuid, set_refresh_cookie,
  respond_with_tokens, revoke_current_refresh_family,
}

-- `remember` is `req.body.remember === true`.
pub record LoginBody : Type 0 where
  pub email : Option String
  pub password : Option String
  pub remember : Bool

abbrev pub invalid_credentials : Response (Unit {0})
invalid_credentials = error_json "Invalid email or password" 401

abbrev pub missing_credentials : Response (Unit {0})
missing_credentials = error_json "Missing credentials" 400

abbrev pub validated_user : ValidateCredentialsResponse → UserContext
validated_user user = record { id = user.id; email = user.email; permissions = user.permissions }

module _ {W : Type 0} (p : Platform W) where
  unfoldable pub login_given :
      Option String → Option String → Bool → String → Async (Exchange W) (Response (Unit {0}))
  login_given (some email) (some password) remember request_id = do
    user ←
        outside p (validate_credentials_call (signed p) p.fetch_validate email password request_id)
    respond_with_tokens p (validated_user user) (some remember) (some request_id)
    pure (success_empty 200)
  login_given _ _ remember request_id = pure missing_credentials

  unfoldable pub login : LoginBody → Exchange W → Response (Unit {0}) × Exchange W
  unfolding login_given
  login body x =
      let (request_id, w) = p.random_uuid x.world in
      catching (login_given (present body.email) (present body.password) body.remember request_id)
        (λ e. invalid_credentials) (record x { world = w })

  abbrev pub clear_cookies : Exchange W → Exchange W
  clear_cookies x = record x { refresh_cookie = cleared; hint_cleared = true }

  -- both branches of the `try` clear the cookies
  abbrev pub logged_out : Result (Unit {0}) × Exchange W → Response (Unit {0}) × Exchange W
  logged_out (ok u, x) = (success_empty 200, clear_cookies x)
  logged_out (error e, x) = (error_500 e, clear_cookies x)

  unfoldable pub logout : Option String → Exchange W → Response (Unit {0}) × Exchange W
  logout refresh_token x =
      let (request_id, w) = p.random_uuid x.world in
      logged_out (
        outside p (revoke_current_refresh_family p refresh_token request_id)
          (record x { world = w }))
