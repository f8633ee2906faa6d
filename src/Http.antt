-- ===== src/Http.antt =====
-- HttpResponser, in apps/api/src/adapters/http/http.responser.ts and, with the same text, in
-- apps/gateway/src/adapters/http/http.responser.ts: the answers of the handlers.
use fullstack_starter.Prelude.{ℕ, String, ◌≡◌, ◌≢◌, refl}
use fullstack_starter.Async.{Async, Result, ok, error, JsError}

-- what a handler sends: a value as JSON, `null`, or the message of an error
pub data Body (A : Type 0) : Type 0 where
  json : A → Body A
  empty : Body A
  error_message : String → Body A

pub record Response (A : Type 0) : Type 0 where
  pub status : ℕ
  pub body : Body A

module _ {A : Type 0} where
  abbrev pub success_json : A → ℕ → Response A
  success_json value status = record { status = status; body = json value }

  abbrev pub success_empty : ℕ → Response A
  success_empty status = record { status = status; body = empty }

  abbrev pub error_json : String → ℕ → Response A
  error_json message status = record { status = status; body = error_message message }

  -- `errorJson(res, err as Error)`
  abbrev pub error_500 : JsError → Response A
  error_500 e = error_json e.message 500

-- the `try { … } catch (err) { … }` around a whole handler
abbrev pub Handler : Type 0 → Type 0 → Type 0
Handler S A = S → Response A × S

module _ {S A : Type 0} where
  abbrev pub answer_with : Result (Response A) × S → (JsError → Response A) → Response A × S
  answer_with (ok r, s) on_error = (r, s)
  answer_with (error e, s) on_error = (on_error e, s)

  abbrev pub catching : Async S (Response A) → (JsError → Response A) → Handler S A
  catching m on_error s = answer_with (m s) on_error

  -- A handler whose errors do not answer 200 has run to its end where it does.
  pub answer_with-ok :
      (x : Result (Response A) × S) (on_error : JsError → Response A) (n : ℕ)
      → ((e : JsError) → (on_error e).status ≢ n)
      → (answer_with x on_error).0.status ≡ n
      → (r : Response A) × (x.0 ≡ ok r) × (answer_with x on_error ≡ (r, x.1))
  answer_with-ok (ok r, s) on_error n apart h = (r, refl, refl)
  answer_with-ok (error e, s) on_error n apart h = absurd (apart e h)

  pub answer_with-state :
      (x : Result (Response A) × S) (on_error : JsError → Response A)
      → (answer_with x on_error).1 ≡ x.1
  answer_with-state (ok r, s) on_error = refl
  answer_with-state (error e, s) on_error = refl
