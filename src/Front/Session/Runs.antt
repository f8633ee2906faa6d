-- ===== src/Front/Session/Runs.antt =====
-- What holds of the session of the browser in each state that its steps reach.
use Prim.Native.String.{◌++◌}
use fullstack_starter.Prelude.{
  ℕ, String, ◌≡◌, refl, sym, ◌∙◌, subst, inl, inr, Bool, true, ◌&&◌, Bool-cases, if_either, Option,
  none, some, List, All, present, present-inv, eqb, arith,
}
use fullstack_starter.Async.{Result}
use fullstack_starter.Front.Session.{
  AuthConfig, Effect, sign_in, initializing, pinging, page, signing_out, SentRequest, FrontSession,
  clean_tokens, Picked, here, there, navigate_if, take_token, after_answer, after_error,
  is_trusted_origin, intercept, send, login, logout, ping_for, initialize, do_ping, deliver, fail,
  Step, calls_page, calls_login, calls_logout, calls_initialize, calls_ping, answers, fails,
  Reachable, start, next,
}

take_token-in_flight :
    (header : Option String) (f : FrontSession) → (take_token header f).in_flight ≡ f.in_flight
take_token-in_flight none f = refl
take_token-in_flight (some token) f = ground arith

navigate_if-in_flight :
    (redirect : Option String) (f : FrontSession) → (navigate_if redirect f).in_flight ≡ f.in_flight
navigate_if-in_flight none f = refl
navigate_if-in_flight (some url) f = ground arith

after_answer-in_flight :
    (effect : Effect) (header : Option String) (f : FrontSession)
    → (after_answer effect header f).in_flight ≡ f.in_flight
unfolding after_answer
after_answer-in_flight sign_in header f = refl
after_answer-in_flight initializing none f = refl
after_answer-in_flight initializing (some token) f = ground arith
after_answer-in_flight pinging header f = take_token-in_flight header f
after_answer-in_flight (signing_out redirect) header f =
    navigate_if-in_flight redirect (clean_tokens f)
after_answer-in_flight page header f = refl

after_error-in_flight :
    (effect : Effect) (f : FrontSession) → (after_error effect f).in_flight ≡ f.in_flight
unfolding after_error
after_error-in_flight sign_in f = refl
after_error-in_flight initializing f = refl
after_error-in_flight pinging f = refl
after_error-in_flight (signing_out redirect) f = navigate_if-in_flight redirect (clean_tokens f)
after_error-in_flight page f = refl

module _ (url_origin : String → Option String → Result String) (app_origin : String)
    (config : AuthConfig) where
  abbrev pub trusts : String → Bool
  trusts = is_trusted_origin url_origin app_origin config

  -- where the requests of the service go
  abbrev pub Addressed : Effect → String → Type 0
  Addressed sign_in url = url ≡ config.idp_server ++ "/login"
  Addressed (signing_out redirect) url = url ≡ config.idp_server ++ "/logout"
  Addressed initializing url = config.ping_url ≡ some url
  Addressed pinging url = config.ping_url ≡ some url
  Addressed page url = Unit

  -- A request in flight carries a token to a trusted origin only, and a request of the service goes
  -- to its address.
  pub record IsClean (r : SentRequest) : Type 0 where
    pub guarded : (token : String) → r.authorization ≡ some token → trusts r.url ≡ true
    pub addressed : Addressed r.effect r.url

  abbrev pub AllClean : FrontSession → Type 0
  AllClean f = All IsClean f.in_flight

  intercept-IsClean :
      (url : String) (own : Bool) (effect : Effect) (f : FrontSession)
      → Addressed effect url
      → IsClean (intercept url_origin app_origin config url own effect f)
  unfolding intercept
  intercept-IsClean url own effect f addressed = elim (Bool-cases (trusts url)) [
    | inl trusted ↦ rw trusted (record { guarded = λ token h. trusted; addressed = addressed })
    | inr foreign ↦ rw foreign (record { guarded = λ token h. cc; addressed = addressed })
  ]

  pub rest-IsClean :
      (r : SentRequest) (xs ys : List SentRequest)
      → Picked r xs ys
      → All IsClean xs
      → All IsClean ys × IsClean r
  rest-IsClean r _ _ here (first, rest) = (rest, first)
  rest-IsClean r _ _ (there p) (first, rest) =
      let (others, this) = rest-IsClean r _ _ p rest in ((first, others), this)

  pub answered-in_flight :
      (r : SentRequest) (header : Option String) (f : FrontSession)
      → (deliver url_origin app_origin config r header f).in_flight ≡ f.in_flight
  unfolding deliver
  answered-in_flight r header f = elim (Bool-cases (trusts r.url)) [
    | inl trusted ↦ rw trusted (
        after_answer-in_flight r.effect header (take_token header f)
        ∙ take_token-in_flight header f)
    | inr foreign ↦ rw foreign (after_answer-in_flight r.effect header f)
  ]

  logout-AllClean :
      (redirect : Option String) (f : FrontSession)
      → AllClean f
      → AllClean (logout url_origin app_origin config redirect f)
  unfolding logout send
  logout-AllClean redirect f h = (intercept-IsClean _ true (signing_out redirect) f refl, h)

  fail-AllClean :
      (r : SentRequest) (status : ℕ) (f : FrontSession)
      → AllClean f
      → AllClean (fail url_origin app_origin config r status f)
  unfolding fail
  fail-AllClean r status f h = elim (Bool-cases (trusts r.url && eqb status 401)) [
    | inl ended ↦ rw ended (
        subst (All IsClean) (sym (after_error-in_flight r.effect _))
          (logout-AllClean (some "/login") f h))
    | inr kept ↦ rw kept (subst (All IsClean) (sym (after_error-in_flight r.effect f)) h)
  ]

  ping_for-AllClean :
      (effect : Effect) (x : Option String) (f : FrontSession)
      → ((url : String) → x ≡ some url → Addressed effect url)
      → AllClean f
      → AllClean (ping_for url_origin app_origin config effect x f)
  unfolding send
  ping_for-AllClean effect none f addressed h = h
  ping_for-AllClean effect (some url) f addressed h =
      (intercept-IsClean url true effect f (addressed url refl), h)

  initialize-AllClean :
      (f : FrontSession) → AllClean f → AllClean (initialize url_origin app_origin config f)
  unfolding initialize
  initialize-AllClean f h = if_either AllClean f.is_initialized h (
      ping_for-AllClean initializing (present config.ping_url) f
        (λ url e. present-inv config.ping_url url e) h)

  step-AllClean :
      (f g : FrontSession) → Step url_origin app_origin config f g → AllClean f → AllClean g
  unfolding send login do_ping
  step-AllClean f _ (calls_page url own) h = (intercept-IsClean url own page f tt, h)
  step-AllClean f _ calls_login h = (intercept-IsClean _ true sign_in f refl, h)
  step-AllClean f _ (calls_logout redirect) h = logout-AllClean redirect f h
  step-AllClean f _ calls_initialize h = initialize-AllClean f h
  step-AllClean f _ calls_ping h =
      ping_for-AllClean pinging (present config.ping_url) f
        (λ url e. present-inv config.ping_url url e) h
  step-AllClean f _ (answers {r} {rest} header p) h =
      subst (All IsClean) (sym (answered-in_flight r header _)) (rest-IsClean r _ rest p h).0
  step-AllClean f _ (fails {r} {rest} status p) h =
      fail-AllClean r status _ (rest-IsClean r _ rest p h).0

  -- In every state that the browser reaches, each request in flight that carries the token of the
  -- session goes to an origin that is trusted, and each request of the service to its own address.
  pub reachable-AllClean :
      (f : FrontSession) → Reachable url_origin app_origin config f → AllClean f
  reachable-AllClean _ start = tt
  reachable-AllClean _ (next {f} {g} run step) = step-AllClean f g step (reachable-AllClean f run)
