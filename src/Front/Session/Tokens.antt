-- ===== src/Front/Session/Tokens.antt =====
-- Where the token of the browser's session comes from.
use fullstack_starter.Prelude.{
  ℕ, String, ◌≡◌, refl, sym, ap, ◌∙◌, ◌⊎◌, inl, inr, Bool, true, false, ◌&&◌, ◌||◌, Bool-cases,
  if_either, Option, none, some, List, present, eqb, is_truthy, arith,
}
use fullstack_starter.Async.{Result}
use fullstack_starter.Front.Session.{
  AuthConfig, Effect, sign_in, initializing, pinging, page, signing_out, SentRequest, FrontSession,
  Picked, navigate_if, take_token, take_initial, clean_tokens, after_answer, after_error,
  is_trusted_origin, send, login, logout, ping_for, initialize, do_ping, deliver, fail, Step,
  calls_page, calls_login, calls_logout, calls_initialize, calls_ping, answers, fails, Reachable,
}
use fullstack_starter.Front.Session.Runs.{IsClean, rest-IsClean, reachable-AllClean}

-- the service reads the answer itself: the one to a login, to its initialisation or to its ping
abbrev pub is_own : Effect → Bool
is_own sign_in = true
is_own initializing = true
is_own pinging = true
is_own (signing_out redirect) = false
is_own page = false

-- a token is kept, dropped, or read from the header of an answer to a request that is the service's
-- own, or whose address is trusted
abbrev pub Token : String → Option String → Bool → String → Type 0
Token old header readable new =
    (new ≡ old) ⊎ ((new ≡ "") ⊎ ((header ≡ some new) × (readable ≡ true)))

take_token-Token :
    (header : Option String) (f : FrontSession)
    → Token f.token header true (take_token header f).token
take_token-Token none f = inl refl
take_token-Token (some token) f =
    if_either (λ (z : FrontSession). Token f.token (some token) true z.token) (is_truthy token)
      (inr (inr (refl, refl))) (inl refl)

navigate_if-token :
    (redirect : Option String) (f : FrontSession) → (navigate_if redirect f).token ≡ f.token
navigate_if-token none f = refl
navigate_if-token (some url) f = ground arith

take_initial-Token :
    (header : Option String) (f : FrontSession)
    → Token f.token header true (take_initial header f).token
take_initial-Token none f = inl refl
take_initial-Token (some token) f =
    if_either (λ (z : FrontSession). Token f.token (some token) true z.token) (is_truthy token)
      (inr (inr (refl, refl))) (inl refl)

after_answer-Token :
    (effect : Effect) (header : Option String) (f : FrontSession)
    → Token f.token header (is_own effect) (after_answer effect header f).token
unfolding after_answer
after_answer-Token sign_in none f = inr (inl refl)
after_answer-Token sign_in (some token) f = inr (inr (refl, refl))
after_answer-Token initializing header f = take_initial-Token header f
after_answer-Token pinging header f = take_token-Token header f
after_answer-Token (signing_out redirect) header f =
    inr (inl (navigate_if-token redirect (clean_tokens f)))
after_answer-Token page header f = inl refl

after_error-token :
    (effect : Effect) (f : FrontSession)
    → ((after_error effect f).token ≡ f.token) ⊎ ((after_error effect f).token ≡ "")
unfolding after_error
after_error-token sign_in f = inl refl
after_error-token initializing f = inl refl
after_error-token pinging f = inl refl
after_error-token (signing_out redirect) f = inr (navigate_if-token redirect (clean_tokens f))
after_error-token page f = inl refl

-- a change of the token that was already made, and then one of the caller
after_take :
    (old mid new : String) (header : Option String) (trusted own : Bool)
    → Token old header trusted mid
    → Token mid header own new
    → Token old header (trusted || own) new
after_take old mid new header trusted own (inl kept) (inl same) = inl (same ∙ kept)
after_take old mid new header trusted own (inr (inl dropped)) (inl same) =
    inr (inl (same ∙ dropped))
after_take old mid new header trusted own (inr (inr (read, held))) (inl same) =
    inr (inr (read ∙ ap some (sym same), rw held))
after_take old mid new header trusted own first (inr (inl dropped)) = inr (inl dropped)
after_take old mid new header trusted own first (inr (inr (read, held))) =
    inr (inr (read, ground (arith, held)))

module _ (url_origin : String → Option String → Result String) (app_origin : String)
    (config : AuthConfig) where
  abbrev trusted : String → Bool
  trusted = is_trusted_origin url_origin app_origin config

  deliver-Token :
      (r : SentRequest) (header : Option String) (f : FrontSession)
      → Token f.token header
          (trusted r.url || is_own r.effect)
          (deliver url_origin app_origin config r header f).token
  unfolding deliver
  deliver-Token r header f = elim (Bool-cases (trusted r.url)) [
    | inl near ↦ rw near (
        after_take f.token (take_token header f).token _ header true (is_own r.effect)
          (take_token-Token header f) (after_answer-Token r.effect header (take_token header f)))
    | inr foreign ↦ rw foreign (
        after_take f.token f.token _ header false (is_own r.effect) (inl refl)
          (after_answer-Token r.effect header f))
  ]

  fail-token :
      (r : SentRequest) (status : ℕ) (f : FrontSession)
      → ((fail url_origin app_origin config r status f).token ≡ f.token)
        ⊎ ((fail url_origin app_origin config r status f).token ≡ "")
  unfolding fail logout send
  fail-token r status f =
      if_either
        (λ (z : FrontSession).
          ((after_error r.effect z).token ≡ f.token) ⊎ ((after_error r.effect z).token ≡ ""))
        (trusted r.url && eqb status 401)
        (after_error-token r.effect (logout url_origin app_origin config (some "/login") f))
        (after_error-token r.effect f)

  ping_for-token :
      (effect : Effect) (x : Option String) (f : FrontSession)
      → (ping_for url_origin app_origin config effect x f).token ≡ f.token
  unfolding send
  ping_for-token effect none f = refl
  ping_for-token effect (some url) f = refl

  -- the step is the answer to one of the requests in flight, and the new token is its header
  pub record IsTaken (f g : FrontSession) : Type 0 where
    pub request : SentRequest
    pub rest : List SentRequest
    pub header : Option String
    pub flown : Picked request f.in_flight rest
    pub came :
        g ≡ deliver url_origin app_origin config request header (record f { in_flight = rest })
    pub read : header ≡ some g.token
    pub readable : (trusted request.url || is_own request.effect) ≡ true
    pub clean : IsClean url_origin app_origin config request

  -- A step of the browser from a state that it reaches keeps the token of the session, drops it, or
  -- is the answer to one of the requests in flight whose header is the new token: the origin of this
  -- request is trusted, or it is a request of the service itself, which went to the address of the
  -- login or of the ping.
  pub step-token :
      (f g : FrontSession)
      → Reachable url_origin app_origin config f
      → Step url_origin app_origin config f g
      → (g.token ≡ f.token) ⊎ ((g.token ≡ "") ⊎ IsTaken f g)
  unfolding send login logout initialize do_ping
  step-token f _ run (calls_page url own) = inl refl
  step-token f _ run calls_login = inl refl
  step-token f _ run (calls_logout redirect) = inl refl
  step-token f _ run calls_initialize = inl (
      if_either (λ (z : FrontSession). z.token ≡ f.token) f.is_initialized refl
        (ping_for-token initializing (present config.ping_url) f))
  step-token f _ run calls_ping = inl (ping_for-token pinging (present config.ping_url) f)
  step-token f _ run (answers {r} {rest} header p) =
      elim (deliver-Token r header (record f { in_flight = rest })) [
        | inl kept ↦ inl kept
        | inr (inl dropped) ↦ inr (inl dropped)
        | inr (inr (read, held)) ↦ inr (
            inr (record {
              request = r;
              rest = rest;
              header = header;
              flown = p;
              came = refl;
              read = read;
              readable = held;
              clean =
                  (rest-IsClean url_origin app_origin config r f.in_flight rest p
                    (reachable-AllClean url_origin app_origin config f run)).1;
            }))
      ]
  step-token f _ run (fails {r} {rest} status p) =
      elim (fail-token r status (record f { in_flight = rest })) [
        | inl kept ↦ inl kept
        | inr dropped ↦ inr (inl dropped)
      ]
