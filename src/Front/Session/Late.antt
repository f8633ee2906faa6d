-- ===== src/Front/Session/Late.antt =====
-- An answer that comes after the logout.
use fullstack_starter.Prelude.{String, ◌≡◌, Option}
use fullstack_starter.Async.{Result}
use fullstack_starter.Front.Session.{AuthConfig, FrontSession, Step}

module _ (url_origin : String → Option String → Result String) (app_origin : String)
    (config : AuthConfig) where
  abbrev Run : FrontSession → FrontSession → Type 0
  Run = Step url_origin app_origin config

  -- the session after a logout that was answered, and then an answer to the other request
  pub record IsRevived (f : FrontSession) (token : String) : Type 0 where
    pub sent : FrontSession
    pub signed_out : FrontSession
    pub revived : FrontSession
    pub leaves : Run f sent
    pub is_answered : Run sent signed_out
    pub without_token : signed_out.token ≡ ""
    pub comes_late : Run signed_out revived
    pub with_token : revived.token ≡ token
