-- ===== src/Api/InternalControllers.antt =====
-- apps/api/src/controllers/internal-auth.controller.ts and federated-identity.controller.ts: the
-- endpoints by which the gateway checks a password and resolves an identity.
use fullstack_starter.Prelude.{
  ℕ, String, ◌≡◌, refl, sym, ap, ◌∙◌, ◌⊎◌, inl, inr, Option, none, some, List, present, present-inv,
  arith,
}
use fullstack_starter.Async.{
  Async, ok, Result-cases, ok-injective, and_then-inv, and_then-ok, and_then-error, pure, ◌>>=◌,
}
use fullstack_starter.Http.{
  Response, Handler, success_json, error_json, json, catching, answer_with, answer_with-ok,
}
use fullstack_starter.Dto.{Permission, UserDto}
use fullstack_starter.Api.Model.{Model, ModelLaws}
use fullstack_starter.Api.AuthService.{Bcrypt, user_id, validate_credentials}
use fullstack_starter.Api.AuthService.Laws.{IsAuthentic, validate_credentials-IsAuthentic}
use fullstack_starter.Api.Federated.{
  IdentityRow, ResolveInput, ResolvedUser, Transaction, resolve_or_provision,
}
use fullstack_starter.Api.Federated.Origin.{TransactionLaws, Origin, TablesApart, identity_id}
use fullstack_starter.Api.Federated.Resolution.{resolve-Origin}

pub record ValidatedUser : Type 0 where
  pub id : ℕ
  pub email : String
  pub permissions : List Permission

abbrev pub validated : UserDto → ValidatedUser
validated user = record { id = user.id; email = user.email; permissions = user.permissions }

abbrev pub not_resolved_400 : Response ResolvedUser
not_resolved_400 = error_json "Federated identity could not be resolved." 400

module _ {S : Type 0} (users : Model S UserDto) (bcrypt : Bcrypt) where
  unfoldable pub validate_given : Option String → Option String → Async S (Response ValidatedUser)
  validate_given (some email) (some password) = do
    user ← validate_credentials users bcrypt email password
    pure (success_json (validated user) 200)
  validate_given _ _ = pure (error_json "Missing credentials" 400)

  unfoldable pub validate : Option String → Option String → Handler S ValidatedUser
  unfolding validate_given
  validate email password =
      catching (validate_given (present email) (present password)) (λ e. error_json e.message 401)

module _ {S : Type 0} (users : Model S UserDto) (identities : Model S IdentityRow) where
  unfoldable pub resolve : Transaction S → ResolveInput → Handler S ResolvedUser
  resolve transaction input =
      catching
        (do
          result ← resolve_or_provision users identities transaction input
          pure (success_json result 200))
        (λ e. not_resolved_400)

-- The answer describes a user of the table who may log in with the given password.
pub record IsValidated {S : Type 0} (users : Model S UserDto) (bcrypt : Bcrypt) (s : S)
    (email password : Option String) (r : Response ValidatedUser) : Type 0 where
  pub given_email : String
  pub given_password : String
  pub user : UserDto
  pub same_email : email ≡ some given_email
  pub same_password : password ≡ some given_password
  pub authentic : IsAuthentic users bcrypt s given_email given_password user
  pub described : r.body ≡ json (validated user)

module _ {S : Type 0} (users : Model S UserDto) (bcrypt : Bcrypt) where
  validate_given-200 :
      (email password : Option String) (s : S) (r : Response ValidatedUser)
      → ModelLaws user_id users
      → (validate_given users bcrypt email password s).0 ≡ ok r
      → r.status ≡ 200
      → IsValidated users bcrypt s email password r
  unfolding validate_given
  validate_given-200 none password s r laws h good =
      absurd (omega (arith, ap (λ q. q.status) (ok-injective h)))
  validate_given-200 (some email) none s r laws h good =
      absurd (omega (arith, ap (λ q. q.status) (ok-injective h)))
  validate_given-200 (some email) (some password) s r laws h good =
      let (user, valid, _, rest) =
        and_then-inv (validate_credentials users bcrypt email password s) _ r h in
      record {
        given_email = email;
        given_password = password;
        user = user;
        same_email = refl;
        same_password = refl;
        authentic =
            (validate_credentials-IsAuthentic users bcrypt email password s user laws valid).0;
        described = ap (λ q. q.body) (sym (ok-injective rest));
      }

  -- The endpoint that checks a password answers 200 only for an email and a password that are both
  -- given, and then describes a live local user of the table whose stored hash the password matches.
  pub validate-IsValidated :
      (email password : Option String) (s : S)
      → ModelLaws user_id users
      → (validate users bcrypt email password s).0.status ≡ 200
      → IsValidated users bcrypt s email password (validate users bcrypt email password s).0
  unfolding validate
  validate-IsValidated email password s laws h =
      let (r, ran, same) =
        answer_with-ok (validate_given users bcrypt (present email) (present password) s)
          (λ e. error_json e.message 401) 200 (λ e g. absurd (omega (arith, g))) h in
      let valid =
        validate_given-200 (present email) (present password) s r laws ran
          (ap (λ q. q.0.status) (sym same) ∙ h) in
      record {
        given_email = valid.given_email;
        given_password = valid.given_password;
        user = valid.user;
        same_email = present-inv email valid.given_email valid.same_email;
        same_password = present-inv password valid.given_password valid.same_password;
        authentic = valid.authentic;
        described = ap (λ q. q.0.body) same ∙ valid.described;
      }

-- The endpoint that resolves an identity answers a user with the origin that the service promises, or
-- one refusal, the same whatever has failed.
pub resolve-answers :
    {S : Type 0} {users : Model S UserDto} {identities : Model S IdentityRow}
    → ModelLaws user_id users
    → ModelLaws identity_id identities
    → TablesApart users identities
    → (transaction : Transaction S) (input : ResolveInput) (s : S) → TransactionLaws transaction
    → ((r : ResolvedUser) × Origin users identities transaction input s
          (resolve_or_provision users identities transaction input s).1
          r
        × ((resolve users identities transaction input s).0 ≡ success_json r 200))
      ⊎ ((resolve users identities transaction input s).0 ≡ not_resolved_400)
unfolding resolve
resolve-answers {users} {identities} laws links tables transaction input s t =
    let run = resolve_or_provision users identities transaction input s in
    elim (Result-cases run.0) [
      | inl (r, resolved) ↦ inl (
        r,
        resolve-Origin laws links tables transaction input s r t resolved,
        ap (λ z. (answer_with z (λ e. not_resolved_400)).0)
            (and_then-ok run (λ q w. (ok (success_json q 200), w)) r resolved),
      )
      | inr (e, failed) ↦ inr (
          ap (λ z. (answer_with z (λ e. not_resolved_400)).0)
            (and_then-error run (λ q w. (ok (success_json q 200), w)) e failed))
    ]
