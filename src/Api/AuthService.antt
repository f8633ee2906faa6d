-- ===== src/Api/AuthService.antt =====
-- apps/api/src/services/auth.service.ts: credentials against the user table. bcrypt is a parameter.
pub mod Laws
use fullstack_starter.Prelude.{
  ℕ, String, Bool, true, false, ◌&&◌, ◌||◌, not, Option, none, some, if◌then◌else◌, eqb, leb, ◌==◌,
  is_truthy,
}
use fullstack_starter.Async.{Async, Result, new_error, pure, throw, reads, lift, ◌>>=◌}
use fullstack_starter.Dto.{UserDto}
use fullstack_starter.Api.Model.{Model}

-- What the service calls of bcrypt: `compare(password, hash)` and `hash(password, rounds)`.
pub record Bcrypt : Type 0 where
  pub compare : String → String → Result Bool
  pub hash : String → ℕ → Result String

abbrev pub user_id : UserDto → ℕ
user_id u = u.id

-- `where: { email, deleted: false }`
abbrev pub has_email : String → UserDto → Bool
has_email email u = u.email == email && not u.deleted

-- `where: { id, deleted: false }`
abbrev pub is_live : ℕ → UserDto → Bool
is_live id u = eqb u.id id && not u.deleted

abbrev pub bad_credentials : String
bad_credentials = "Email or password incorrect."

-- the minimum cost, and the parsed environment variable if it is a number
unfoldable pub salt_rounds : Option ℕ → ℕ
salt_rounds none = 12
salt_rounds (some parsed) = if leb 12 parsed then parsed else 12

module _ {S : Type 0} (users : Model S UserDto) (bcrypt : Bcrypt) where
  -- the tests on the stored password, and the comparison
  unfoldable pub check_stored : String → UserDto → Option String → Async S UserDto
  check_stored password user none = throw (new_error bad_credentials)
  check_stored password user (some stored) =
      if not (is_truthy stored) || not (user.auth_source == "local")
      then throw (new_error bad_credentials)
      else (do
        valid ← lift (bcrypt.compare password stored)
        if valid then pure user else throw (new_error bad_credentials))

  unfoldable pub check_password : String → Option UserDto → Async S UserDto
  unfolding check_stored
  check_password password none = throw (new_error bad_credentials)
  check_password password (some user) = check_stored password user user.password

  unfoldable pub validate_credentials : String → String → Async S UserDto
  unfolding check_password
  validate_credentials email password = do
    user ← reads (users.find_one (has_email email))
    check_password password user

module _ {S : Type 0} (users : Model S UserDto) where
  unfoldable pub get_user : ℕ → Async S (Option UserDto)
  get_user id = reads (users.find_one (is_live id))

unfoldable pub hash_password : {S : Type 0} → Bcrypt → Option ℕ → String → Async S String
unfolding salt_rounds
hash_password bcrypt env password = lift (bcrypt.hash password (salt_rounds env))
