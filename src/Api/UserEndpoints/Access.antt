-- ===== src/Api/UserEndpoints/Access.antt =====
-- Who reaches the endpoints of accounts, and what a request leaves of the database.
use fullstack_starter.Prelude.{
  ℕ, String, ◌≡◌, refl, ◌⊎◌, inl, inr, true, Option, none, some, [], ◌∷◌, arith, present,
}
use fullstack_starter.Async.{and_then, handle_with, Result, ok, error}
use fullstack_starter.Dto.{admin, includes, UserDto}
use fullstack_starter.Http.{Handler}
use fullstack_starter.Api.Model.{Model, ModelLaws}
use fullstack_starter.Api.AuthService.{Bcrypt, user_id}
use fullstack_starter.Api.UserCrud.{UserPayload}
use fullstack_starter.Api.UserCrud.LastAdmin.{HasAdminLeft}
use fullstack_starter.Api.UserReads.{Reader}
use fullstack_starter.Api.UserEndpoints.Admins.{route_handler-HasAdminLeft}
use fullstack_starter.Api.UserEndpoints.{
  CrudData, UserRequest, RouteAnswer, refused, answered, route_handler, require_admin, user_router,
}
use fullstack_starter.Gateway.InternalAuth.{
  InternalScope, user_request, InternalClaims, VerifyOptions, Jose, Guarded, denied, passed,
  invalid, check_claims, guard_token, require_internal_auth, verify_internal_auth, scope_allowed,
}
use fullstack_starter.Gateway.InternalAuth.Guard.{require_internal_auth-passed}

-- a token that verifies, for a request of a user who is an administrator
pub record IsAdminCall {W : Type 0} (jose : Jose W) (options : VerifyOptions)
    (header : Option String) (w : W) : Type 0 where
  pub token : String
  pub claims : InternalClaims
  pub given : header ≡ some token
  pub token_verified : (verify_internal_auth jose token options w).0 ≡ ok claims
  pub for_user : claims.scope ≡ user_request
  pub by_admin : includes claims.permissions admin ≡ true

only_user_request :
    (scope : InternalScope)
    → scope_allowed (some (user_request ∷ [])) scope ≡ true
    → scope ≡ user_request
only_user_request scope h = ground arith

module _ {S : Type 0} (users : Model S UserDto) (reader : Reader S UserDto) (bcrypt : Bcrypt)
    (rounds : Option ℕ) (create_schema update_schema : UserPayload → Result UserPayload) where
  abbrev router :
      {W : Type 0}
      → Jose W
      → VerifyOptions
      → ℕ
      → UserRequest
      → Option String
      → W
      → S
      → RouteAnswer × S
  router = user_router users reader bcrypt rounds create_schema update_schema

  abbrev handler : ℕ → UserRequest → Handler S CrudData
  handler = route_handler users reader bcrypt rounds create_schema update_schema

  -- what a request under `/v1/user` does: it is refused and changes nothing, or it is the call of
  -- an administrator and the handler of its route has run
  abbrev pub Outcome :
      {W : Type 0} → Jose W → VerifyOptions → ℕ → UserRequest → Option String → W → S → Type 0
  Outcome jose options now req header w s =
      ((status : ℕ) × (code : String) × (router jose options now req header w s
          ≡ (refused status code, s)))
      ⊎ (IsAdminCall jose options header w
          × (router jose options now req header w s
              ≡ (answered (handler now req s).0, (handler now req s).1)))

module _ {W : Type 0} (jose : Jose W) (options : VerifyOptions) where
  caught_answers :
      (y : Result InternalClaims × W)
      → (g : Guarded) × ((handle_with
            (and_then y
              (λ d w. (ok (check_claims (some (user_request ∷ [])) (some (admin ∷ [])) d), w)))
            (λ e w. (ok invalid, w))).0
          ≡ ok g)
  caught_answers (ok d, w) = (_, refl)
  caught_answers (error e, w) = (_, refl)

  guarded_answers :
      (x : Option String) (w : W)
      → (g : Guarded) × ((guard_token jose options
            (some (user_request ∷ []))
            (some (admin ∷ []))
            x
            w).0
          ≡ ok g)
  unfolding guard_token
  guarded_answers none w = (_, refl)
  guarded_answers (some token) w = caught_answers (verify_internal_auth jose token options w)

  guard_answers :
      (header : Option String) (w : W)
      → (g : Guarded) × ((require_admin jose options header w).0 ≡ ok g)
  unfolding require_admin require_internal_auth
  guard_answers header w = guarded_answers (present header) w

  admin_call :
      (header : Option String) (w : W) (c : InternalClaims)
      → (require_admin jose options header w).0 ≡ ok (passed c)
      → IsAdminCall jose options header w
  unfolding require_admin
  admin_call header w c h =
      let (token, given, token_verified, scope, held) =
        require_internal_auth-passed jose options (some (user_request ∷ [])) (some (admin ∷ []))
          header w c h in
      record {
        token = token;
        claims = c;
        given = given;
        token_verified = token_verified;
        for_user = only_user_request c.scope scope;
        by_admin = ground (arith, held);
      }

module _ {S : Type 0} (users : Model S UserDto) (reader : Reader S UserDto) (bcrypt : Bcrypt)
    (rounds : Option ℕ) (create_schema update_schema : UserPayload → Result UserPayload) where
  routed :
      {W : Type 0} (jose : Jose W) (options : VerifyOptions) (now : ℕ) (req : UserRequest)
      (header : Option String) (w : W) (s : S) (g : Guarded)
      → (require_admin jose options header w).0 ≡ ok g
      → Outcome users reader bcrypt rounds create_schema update_schema jose options now req header w
          s
  unfolding user_router
  routed jose options now req header w s (denied status code) h = inl (status, code, rw h)
  routed jose options now req header w s (passed c) h =
      inr (admin_call jose options header w c h, rw h)

  -- A request under `/v1/user` is refused and leaves the database as it is, or its token verifies
  -- as one for the request of a user who is an administrator, and the answer and the database are
  -- those of the handler of its route.
  pub user_router-Outcome :
      {W : Type 0} (jose : Jose W) (options : VerifyOptions) (now : ℕ) (req : UserRequest)
      (header : Option String) (w : W) (s : S)
      → Outcome users reader bcrypt rounds create_schema update_schema jose options now req header w
          s
  user_router-Outcome jose options now req header w s =
      let (g, h) = guard_answers jose options header w in routed jose options now req header w s g h

  -- In a database that keeps the laws of a model, whatever is sent under `/v1/user`, by whom and
  -- however it ends, a live administrator is left where there was one.
  pub user_router-HasAdminLeft :
      {W : Type 0} (jose : Jose W) (options : VerifyOptions) (now : ℕ) (req : UserRequest)
      (header : Option String) (w : W) (s : S)
      → ModelLaws user_id users
      → HasAdminLeft users s
      → HasAdminLeft users
          (user_router users reader bcrypt rounds create_schema update_schema jose options now req
            header w s).1
  user_router-HasAdminLeft jose options now req header w s laws h =
      elim (user_router-Outcome jose options now req header w s) [
        | inl (status, code, same) ↦ rw same h
        | inr (call, same) ↦ rw same (
            route_handler-HasAdminLeft reader laws bcrypt rounds create_schema update_schema now req
              s h)
      ]
