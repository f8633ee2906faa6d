-- ===== src/Front/SessionExamples.antt =====
-- Runs of the session of the browser.
use fullstack_starter.Prelude.{
  String, ◌≡◌, refl, false, Option, none, some, [], ◌⊎◌, starts_with, to_lower_case, if◌then◌else◌,
}
use fullstack_starter.Async.{Result, ok}
use fullstack_starter.Front.Session.{
  AuthConfig, page, SentRequest, FrontSession, blank_session, here, send, deliver, intercept,
  is_trusted_origin, Reachable, start, next, Step, calls_page, answers,
}
use fullstack_starter.Front.Session.Runs.{AllClean, reachable-AllClean}
use fullstack_starter.Front.Session.Tokens.{IsTaken, step-token}

-- an address that begins with a slash is the application's
abbrev origin_of : String → Option String → Result String
origin_of url base = ok (if starts_with url "/" then "https://app.es" else url)

abbrev config : AuthConfig
config = record { idp_server = "/api"; ping_url = some "/api/health/secure" }

abbrev asked : FrontSession
asked = send origin_of "https://app.es" config "/api/users" false page blank_session

abbrev request : SentRequest
request = intercept origin_of "https://app.es" config "/api/users" false page blank_session

abbrev answered : FrontSession
answered =
    deliver origin_of "https://app.es" config request (some "token")
      (record asked { in_flight = [] })

run_asked : Reachable origin_of "https://app.es" config asked
run_asked = next start (calls_page "/api/users" false)

step_answered : Step origin_of "https://app.es" config asked answered
unfolding send
step_answered = answers {r = request} (some "token") here

-- a request to another host carries nothing
bare_elsewhere :
    intercept origin_of "https://app.es" config "https://cdn.es" false page
      (record blank_session { token = "token" })
    ≡ record {
      url = "https://cdn.es";
      authorization = none;
      with_credentials = false;
      effect = page;
    }
unfolding intercept is_trusted_origin starts_with to_lower_case
bare_elsewhere = refl

-- one to the server of the configuration carries the token
sent_to_server :
    (intercept origin_of "https://app.es"
      (record { idp_server = "HTTPS://id.es"; ping_url = none })
      "HTTPS://id.es"
      false
      page
      (record blank_session { token = "token" })).authorization
    ≡ some "token"
unfolding intercept is_trusted_origin starts_with to_lower_case
sent_to_server = refl

clean_example : AllClean origin_of "https://app.es" config asked
clean_example = reachable-AllClean origin_of "https://app.es" config asked run_asked

token_example :
    (answered.token ≡ asked.token)
    ⊎ ((answered.token ≡ "") ⊎ IsTaken origin_of "https://app.es" config asked answered)
token_example = step-token origin_of "https://app.es" config asked answered run_asked step_answered
