-- ===== src/Front/Session.antt =====
-- apps/front: the session of the browser, in libs/auth/services/auth.service.ts, and the interceptor
-- of every request, libs/auth/interceptors/auth.interceptor.ts. A request stays in flight until the
-- browser delivers its answer or its error, in any order; `Effect` is what the caller does then.
-- `new URL(url, base).origin` is a parameter, and a request has no Authorization header of its own.
pub mod Runs
pub mod Tokens
pub mod Late
use Prim.Native.String.{◌++◌}
use fullstack_starter.Prelude.{
  ℕ, String, Bool, true, false, ◌&&◌, ◌||◌, Option, none, some, List, [], ◌∷◌, or_else,
  if◌then◌else◌, eqb, ◌==◌, is_truthy, present, starts_with, to_lower_case,
}
use fullstack_starter.Async.{Result, ok, error}

pub record AuthConfig : Type 0 where
  pub idp_server : String
  pub ping_url : Option String

-- what follows the answer to a request; `page` is a request of some other service
pub data Effect : Type 0 where
  sign_in initializing pinging page : Effect
  signing_out : Option String → Effect

pub record SentRequest : Type 0 where
  pub url : String
  pub authorization : Option String
  pub with_credentials : Bool
  pub effect : Effect

-- the signals of the service, where the router has gone, and the requests in flight
pub record FrontSession : Type 0 where
  pub token : String
  pub is_initialized : Bool
  pub visited : List String
  pub in_flight : List SentRequest

abbrev pub blank_session : FrontSession
blank_session = record { token = ""; is_initialized = false; visited = []; in_flight = [] }

-- the first list is the second one with the request taken in
pub data Picked (r : SentRequest) : List SentRequest → List SentRequest → Type 0 where
  here : {xs : List SentRequest} → Picked r (r ∷ xs) xs
  there : {x : SentRequest} {xs ys : List SentRequest} → Picked r xs ys → Picked r (x ∷ xs) (x ∷ ys)

abbrev pub set_token : String → FrontSession → FrontSession
set_token token f = record f { token = token }

abbrev pub clean_tokens : FrontSession → FrontSession
clean_tokens f = record f { token = ""; is_initialized = false }

-- `if (redirect) this.#router.navigateByUrl(redirect)`
abbrev pub navigate_if : Option String → FrontSession → FrontSession
navigate_if none f = f
navigate_if (some url) f = if is_truthy url then record f { visited = url ∷ f.visited } else f

-- `if (token) { this.setToken(token) }`
abbrev pub take_token : Option String → FrontSession → FrontSession
take_token none f = f
take_token (some token) f = if is_truthy token then set_token token f else f

abbrev pub take_initial : Option String → FrontSession → FrontSession
take_initial none f = f
take_initial (some token) f =
    if is_truthy token then record f { token = token; is_initialized = true } else f

-- The callbacks of the caller: on an answer with this Authorization header, and on an error.
unfoldable pub after_answer : Effect → Option String → FrontSession → FrontSession
after_answer sign_in header f = record f { token = or_else header ""; is_initialized = true }
after_answer initializing header f = take_initial header f
after_answer pinging header f = take_token header f
after_answer (signing_out redirect) header f = navigate_if redirect (clean_tokens f)
after_answer page header f = f

unfoldable pub after_error : Effect → FrontSession → FrontSession
after_error initializing f = record f { is_initialized = false }
after_error (signing_out redirect) f = navigate_if redirect (clean_tokens f)
after_error sign_in f = f
after_error pinging f = f
after_error page f = f

-- `/^https?:\/\//i.test(url)`
abbrev pub is_absolute : String → Bool
is_absolute url =
    starts_with (to_lower_case url) "http://" || starts_with (to_lower_case url) "https://"

module _ (url_origin : String → Option String → Result String) (app_origin : String)
    (config : AuthConfig) where
  abbrev pub same_origin : String → Result String → Bool
  same_origin target (ok origin) = target == origin
  same_origin target (error e) = false

  abbrev pub target_is_trusted : Result String → Bool
  target_is_trusted (error e) = false
  target_is_trusted (ok target) =
      if target == app_origin
      then true
      else (if is_truthy config.idp_server && is_absolute config.idp_server
          then same_origin target (url_origin config.idp_server none)
          else false)

  unfoldable pub is_trusted_origin : String → Bool
  is_trusted_origin url = target_is_trusted (url_origin url (some app_origin))

  -- `intercept` up to `next.handle`: the request as it is sent
  unfoldable pub intercept : String → Bool → Effect → FrontSession → SentRequest
  unfolding is_trusted_origin
  intercept url own_credentials effect f =
      if is_trusted_origin url
      then record {
        url = url;
        authorization = present (some f.token);
        with_credentials = true;
        effect = effect;
      }
      else record {
        url = url;
        authorization = none;
        with_credentials = own_credentials;
        effect = effect;
      }

  unfoldable pub send : String → Bool → Effect → FrontSession → FrontSession
  unfolding intercept
  send url own_credentials effect f = record f {
    in_flight = intercept url own_credentials effect f ∷ f.in_flight;
  }

  unfoldable pub login : FrontSession → FrontSession
  unfolding send
  login = send (config.idp_server ++ "/login") true sign_in

  unfoldable pub logout : Option String → FrontSession → FrontSession
  unfolding send
  logout redirect = send (config.idp_server ++ "/logout") true (signing_out redirect)

  -- the request of a ping, if its address is configured
  abbrev pub ping_for : Effect → Option String → FrontSession → FrontSession
  ping_for effect none f = f
  ping_for effect (some url) f = send url true effect f

  unfoldable pub initialize : FrontSession → FrontSession
  unfolding send
  initialize f = if f.is_initialized then f else ping_for initializing (present config.ping_url) f

  unfoldable pub do_ping : FrontSession → FrontSession
  unfolding send
  do_ping f = ping_for pinging (present config.ping_url) f

  -- the interceptor's `tap`, and then the caller's
  unfoldable pub deliver : SentRequest → Option String → FrontSession → FrontSession
  unfolding is_trusted_origin after_answer
  deliver r header f =
      after_answer r.effect header (if is_trusted_origin r.url then take_token header f else f)

  -- `#errorHandle`, and then the caller's `catchError`
  unfoldable pub fail : SentRequest → ℕ → FrontSession → FrontSession
  unfolding is_trusted_origin after_error logout
  fail r status f =
      after_error r.effect
        (if is_trusted_origin r.url && eqb status 401 then logout (some "/login") f else f)

  -- One step of the browser. What is in flight may come back in any order.
  pub data Step : FrontSession → FrontSession → Type 0 where
    calls_page :
        {f : FrontSession} (url : String) (with_credentials : Bool)
        → Step f (send url with_credentials page f)
    calls_login : {f : FrontSession} → Step f (login f)
    calls_logout : {f : FrontSession} (redirect : Option String) → Step f (logout redirect f)
    calls_initialize : {f : FrontSession} → Step f (initialize f)
    calls_ping : {f : FrontSession} → Step f (do_ping f)
    answers :
        {f : FrontSession} {r : SentRequest} {rest : List SentRequest} (header : Option String)
        → Picked r f.in_flight rest
        → Step f (deliver r header (record f { in_flight = rest }))
    fails :
        {f : FrontSession} {r : SentRequest} {rest : List SentRequest} (status : ℕ)
        → Picked r f.in_flight rest
        → Step f (fail r status (record f { in_flight = rest }))

  pub data Reachable : FrontSession → Type 0 where
    start : Reachable blank_session
    next : {f g : FrontSession} → Reachable f → Step f g → Reachable g
