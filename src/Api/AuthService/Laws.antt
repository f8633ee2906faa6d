-- ===== src/Api/AuthService/Laws.antt =====
-- Who logs in with a password, and what a refusal shows.
use fullstack_starter.Prelude.{
  ℕ, String, ◌≡◌, refl, sym, ◌∙◌, ap, inl, inr, Bool, true, false, Bool-cases, Option, none, some,
  ◌==◌, ◌||◌, not, arith, eq_iff, is_truthy, ◌≤◌,
}
use fullstack_starter.Async.{
  ok, error, JsError, new_error, and_then-inv, and_then-ok, error-injective,
}
use fullstack_starter.Dto.{UserDto}
use fullstack_starter.Api.Model.{Model, ModelLaws}
use fullstack_starter.Api.AuthService.{
  Bcrypt, user_id, has_email, bad_credentials, check_stored, check_password, validate_credentials,
  salt_rounds, hash_password,
}

-- The user may log in with the password: a live account of the table with that email, of local
-- origin, whose stored hash is a text that bcrypt matches.
pub record IsAuthentic {S : Type 0} (users : Model S UserDto) (bcrypt : Bcrypt) (s : S)
    (email password : String) (user : UserDto) : Type 0 where
  pub stored : users.view s user.id ≡ some user
  pub same_email : user.email ≡ email
  pub live : user.deleted ≡ false
  pub local : user.auth_source ≡ "local"
  pub hash : String
  pub hashed : user.password ≡ some hash
  pub nonempty : is_truthy hash ≡ true
  pub matches : bcrypt.compare password hash ≡ ok true

module _ {S : Type 0} (users : Model S UserDto) (bcrypt : Bcrypt) where
  check_stored-accepts :
      (password : String) (u : UserDto) (x : Option String) (s : S) (user : UserDto)
      → (check_stored users bcrypt password u x s).0 ≡ ok user
      → (hash : String) × (x ≡ some hash)
        × (u ≡ user)
        × (u.auth_source ≡ "local")
        × (is_truthy hash ≡ true)
        × (bcrypt.compare password hash ≡ ok true)
        × ((check_stored users bcrypt password u x s).1 ≡ s)
  unfolding check_stored
  check_stored-accepts password u none s user h = cc
  check_stored-accepts password u (some hash) s user h = (
    hash,
    refl,
    ground arith,
    ground (arith, eq_iff u.auth_source "local"),
    ground arith,
    ground arith,
    ground arith,
  )

  check_password-accepts :
      (password : String) (x : Option UserDto) (s : S) (user : UserDto)
      → (check_password users bcrypt password x s).0 ≡ ok user
      → (hash : String) × (x ≡ some user)
        × (user.password ≡ some hash)
        × (user.auth_source ≡ "local")
        × (is_truthy hash ≡ true)
        × (bcrypt.compare password hash ≡ ok true)
        × ((check_password users bcrypt password x s).1 ≡ s)
  unfolding check_password
  check_password-accepts password none s user h = cc
  check_password-accepts password (some u) s user h =
      let (hash, hashed, same, local, nonempty, matches, state) =
        check_stored-accepts password u u.password s user h in
      (
        hash,
        ap some same,
        sym (ap (λ v. v.password) same) ∙ hashed,
        sym (ap (λ v. v.auth_source) same) ∙ local,
        nonempty,
        matches,
        state,
      )

  -- A user that is answered may log in with the password, and the query changed nothing.
  pub validate_credentials-IsAuthentic :
      (email password : String) (s : S) (user : UserDto)
      → ModelLaws user_id users
      → (validate_credentials users bcrypt email password s).0 ≡ ok user
      → IsAuthentic users bcrypt s email password user
        × ((validate_credentials users bcrypt email password s).1 ≡ s)
  unfolding validate_credentials
  validate_credentials-IsAuthentic email password s user laws h =
      let (x, answered, after, same) =
        and_then-inv (users.find_one (has_email email) s, s) (check_password users bcrypt password)
          _ h in
      let (hash, found, hashed, local, nonempty, matches, state) =
        check_password-accepts password x s user same in
      let (stored, matched) = laws.find_some (has_email email) s user (answered ∙ ap ok found) in
      (
        record {
          stored = stored;
          same_email = ground (arith, eq_iff user.email email);
          live = ground arith;
          local = local;
          hash = hash;
          hashed = hashed;
          nonempty = nonempty;
          matches = matches;
        },
        ap (λ z. z.1) after ∙ state,
      )

  check_stored-refuses :
      (password : String) (u : UserDto) (x : Option String) (s : S) (e : JsError)
      → ((hash : String) → (b : Bool) × (bcrypt.compare password hash ≡ ok b))
      → (check_stored users bcrypt password u x s).0 ≡ error e
      → new_error bad_credentials ≡ e
  unfolding check_stored
  check_stored-refuses password u none s e answers h = error-injective h
  check_stored-refuses password u (some hash) s e answers h =
      let (b, compared) = answers hash in
      elim (Bool-cases (not (is_truthy hash) || not (u.auth_source == "local"))) [
        | inl refused ↦ error-injective (rw (refused, check_stored) at h)
        | inr passed ↦ elim (Bool-cases b) [ inl right ↦ ground arith | inr wrong ↦ ground arith ]
      ]

  check_password-refuses :
      (password : String) (x : Option UserDto) (s : S) (e : JsError)
      → ((hash : String) → (b : Bool) × (bcrypt.compare password hash ≡ ok b))
      → (check_password users bcrypt password x s).0 ≡ error e
      → new_error bad_credentials ≡ e
  unfolding check_password
  check_password-refuses password none s e answers h = error-injective h
  check_password-refuses password (some u) s e answers h =
      check_stored-refuses password u u.password s e answers h

  -- Where the table and bcrypt answer, every refusal is the same error: it does not show whether the
  -- account exists, is federated, or has another password.
  pub validate_credentials-uniform :
      (email password : String) (s : S) (x : Option UserDto) (e : JsError)
      → users.find_one (has_email email) s ≡ ok x
      → ((hash : String) → (b : Bool) × (bcrypt.compare password hash ≡ ok b))
      → (validate_credentials users bcrypt email password s).0 ≡ error e
      → e ≡ new_error bad_credentials
  unfolding validate_credentials
  validate_credentials-uniform email password s x e answered answers h =
      let step =
        and_then-ok (users.find_one (has_email email) s, s) (check_password users bcrypt password) x
          answered in
      sym (check_password-refuses password x s e answers (sym (ap (λ z. z.0) step) ∙ h))

-- A password is hashed with a cost of 12 at least, and with the configured one where that is more.
pub hash_password_cost :
    {S : Type 0} (bcrypt : Bcrypt) (env : Option ℕ) (password : String) (s : S)
    → (cost : ℕ) × (12 ≤ cost)
      × (hash_password bcrypt env password s ≡ (bcrypt.hash password cost, s))
unfolding hash_password
hash_password_cost bcrypt none password s = (12, omega arith, refl)
hash_password_cost bcrypt (some n) password s = (salt_rounds (some n), ground arith, refl)
