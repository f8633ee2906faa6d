-- ===== src/Api/UserExamples.antt =====
-- Runs of the accounts of the api on tables in memory.
use fullstack_starter.Prelude.{
  ℕ, String, ◌≡◌, ◌≢◌, refl, Bool, true, false, ◌&&◌, Option, none, some, List, [], ◌∷◌, ◌==◌, ◌⊎◌,
  map_option, if◌then◌else◌, trim, to_lower_case,
}
use fullstack_starter.Async.{ok, error, Result, new_error}
use fullstack_starter.Dto.{
  Permission, admin, write_some_entity, read_some_entity, includes, UserDto,
}
use fullstack_starter.Api.Model.{Model, ModelLaws}
use fullstack_starter.Api.MemoryModel.{
  memory_model, memory_laws, lookup, scan, tally, next_id, rewrite_rows, insert_row,
}
use fullstack_starter.Api.SideBySide.{
  first_model, second_model, third_model, first_laws, second_laws, third_laws,
}
use fullstack_starter.Api.RefreshFamily.{RefreshRow, rotate, rotate_row, save_used}
use fullstack_starter.Api.RefreshFamily.Spent.{key}
use fullstack_starter.Api.AuthService.{
  Bcrypt, user_id, validate_credentials, check_password, check_stored, bad_credentials,
}
use fullstack_starter.Api.AuthService.Laws.{
  IsAuthentic, validate_credentials-IsAuthentic, validate_credentials-uniform,
}
use fullstack_starter.Api.UserCrud.{
  UserPayload, put, put_found, hash_unless_blank, hash_given, by_id,
}
use fullstack_starter.Api.UserCrud.Steps.{IsHashed}
use fullstack_starter.Api.UserCrud.LastAdmin.{HasAdminLeft}
use fullstack_starter.Api.UserCrud.Fields.{changed, put_effect}
use fullstack_starter.Api.RefreshLifecycle.{
  rotate_handler, rotate_given, rotate_outcome, rotation_for,
}
use fullstack_starter.Api.RefreshLifecycle.Answers.{IsFreshRotation, rotate_handler-200}
use fullstack_starter.Api.Federated.{
  Transaction, IdentityRow, ResolveInput, ResolvedUser, sanitize_permissions, resolve_or_provision,
  resolve_known, resolve_unknown, in_transaction, link_or_provision, find_user_by_identity,
  find_user_of,
}
use fullstack_starter.Api.DbErrors.{DbError}
use fullstack_starter.Api.Federated.Permissions.{NoRepeats, sanitize_permissions-grants}
use fullstack_starter.Api.Federated.Origin.{TransactionLaws, Origin, TablesApart, identity_id}
use fullstack_starter.Api.Federated.Resolution.{resolve-Origin}

abbrev pub users : Model (List UserDto) UserDto
users = memory_model user_id (λ q r. q.email == r.email)

abbrev pub user_laws : ModelLaws user_id users
user_laws = memory_laws user_id (λ q r. q.email == r.email)

-- a hash that is the password itself
abbrev pub bcrypt : Bcrypt
bcrypt = record {
  compare = λ password hash. ok (password == hash);
  hash = λ password cost. ok password;
}

abbrev pub ana : UserDto
ana = record {
  id = 7;
  email = "ana@x.es";
  name = "Ana";
  last_name = "";
  permissions = admin ∷ [];
  password = some "secret";
  auth_source = "local";
  deleted = false;
  deleted_at = none;
}

abbrev pub one_user : List UserDto
one_user = ana ∷ []

pub one_admin : HasAdminLeft users one_user
unfolding lookup
one_admin = record { index = 7; user = ana; stored = refl; admin = refl; live = refl }

validate_example :
    IsAuthentic users bcrypt one_user "ana@x.es" "secret" ana
    × ((validate_credentials users bcrypt "ana@x.es" "secret" one_user).1 ≡ one_user)
unfolding validate_credentials check_password check_stored lookup scan
validate_example =
    validate_credentials-IsAuthentic users bcrypt "ana@x.es" "secret" one_user ana user_laws refl

uniform_example : new_error bad_credentials ≡ new_error bad_credentials
unfolding validate_credentials check_password check_stored lookup scan
uniform_example =
    validate_credentials-uniform users bcrypt "ana@x.es" "wrong" one_user (some ana)
      (new_error bad_credentials) refl (λ hash. ("wrong" == hash, refl)) refl

abbrev pub empty_payload : UserPayload
empty_payload = record {
  id = none;
  email = none;
  name = none;
  last_name = none;
  permissions = none;
  password = none;
  auth_source = none;
  deleted = none;
  deleted_at = none;
}

abbrev demotion : UserPayload
demotion = record empty_payload { permissions = some (read_some_entity ∷ []) }

abbrev renaming : UserPayload
renaming = record empty_payload { name = some "Ann"; permissions = some (admin ∷ []) }

put_effect_example :
    (hashed : Option String) × IsHashed bcrypt none none hashed
    × ((i : ℕ)
        → users.view (put users bcrypt none 7 renaming one_user).1 i
          ≡ map_option
              (λ u. if by_id 7 u then changed renaming hashed u else u)
              (users.view one_user i))
unfolding put put_found hash_given hash_unless_blank lookup scan tally
put_effect_example = put_effect users bcrypt none user_laws 7 renaming one_user 1 refl

sanitize_example :
    (includes (sanitize_permissions (admin ∷ write_some_entity ∷ [])) admin ≡ false)
    × NoRepeats (sanitize_permissions (admin ∷ write_some_entity ∷ []))
    × ((p : Permission)
        → p ≢ admin
        → includes (admin ∷ write_some_entity ∷ []) p ≡ true
        → includes (sanitize_permissions (admin ∷ write_some_entity ∷ [])) p ≡ true)
    × ((p : Permission)
        → includes (sanitize_permissions (admin ∷ write_some_entity ∷ [])) p ≡ true
        → (includes (admin ∷ write_some_entity ∷ []) p ≡ true) ⊎ (p ≡ read_some_entity))
sanitize_example = sanitize_permissions-grants (admin ∷ write_some_entity ∷ [])

-- The tables of one database stand side by side.
abbrev Database : Type 0
Database = List RefreshRow × List UserDto × List IdentityRow

abbrev db_tokens : Model Database RefreshRow
db_tokens = first_model (memory_model key (λ q r. q.jti == r.jti))

abbrev db_users : Model Database UserDto
db_users = second_model (memory_model user_id (λ q r. q.email == r.email))

abbrev db_identities : Model Database IdentityRow
db_identities =
    third_model
      (memory_model (λ r. r.id) (λ q r. q.provider == r.provider && q.subject == r.subject))

abbrev db_user_laws : ModelLaws user_id db_users
db_user_laws = second_laws user_laws

abbrev db_token_laws : ModelLaws key db_tokens
db_token_laws = first_laws (memory_laws key (λ q r. q.jti == r.jti))

abbrev token_a : RefreshRow
token_a = record {
  id = 1;
  user_id = 7;
  family_id = "f";
  jti = "a";
  parent_jti = none;
  used = false;
  revoked_at = none;
}

abbrev ana_link : IdentityRow
ana_link = record {
  id = 1;
  user_id = 7;
  provider = "idp";
  subject = "s";
  email_at_link = none;
  deleted = false;
}

abbrev db : Database
db = (token_a ∷ [], one_user, ana_link ∷ [])

abbrev db_no_user : Database
db_no_user = (token_a ∷ [], [], ana_link ∷ [])

rotate_handler_example :
    IsFreshRotation db_tokens db_users 10 "a" db
      (rotate_handler db_tokens db_users 10 (some "a") db).0
unfolding rotate_handler rotate_given rotate_outcome rotation_for rotate rotate_row save_used lookup
    scan tally rewrite_rows
rotate_handler_example = rotate_handler-200 db_tokens db_users db_user_laws 10 "a" db refl refl

abbrev rolled_back_to : Database → Result ResolvedUser × Database → Result ResolvedUser × Database
rolled_back_to s (ok r, t) = (ok r, t)
rolled_back_to s (error e, t) = (error e, s)

abbrev atomic : Transaction Database
atomic m s = rolled_back_to s (m s)

rolled_back_to-ok :
    (s : Database) (x : Result ResolvedUser × Database) (r : ResolvedUser)
    → (rolled_back_to s x).0 ≡ ok r
    → rolled_back_to s x ≡ x
rolled_back_to-ok s (ok q, t) r h = refl
rolled_back_to-ok s (error e, t) r h = cc

transaction_laws : TransactionLaws atomic
transaction_laws = record { committed = λ m s r h. rolled_back_to-ok s (m s) r h }

db_identity_laws : ModelLaws identity_id db_identities
db_identity_laws =
    third_laws (memory_laws identity_id (λ q r. q.provider == r.provider && q.subject == r.subject))

tables_apart : TablesApart db_users db_identities
tables_apart = record { apart = λ mk s i. refl }

abbrev login_of : String → Bool → ResolveInput
login_of subject email_verified = record {
  provider = "idp";
  subject = subject;
  email = " Bea@X.es";
  email_verified = email_verified;
  suggested_permissions = admin ∷ [];
}

resolve-Origin_example :
    Origin db_users db_identities atomic
      (login_of "t" true)
      db
      (resolve_or_provision db_users db_identities atomic (login_of "t" true) db).1
      (record { id = 9; email = "bea@x.es"; permissions = read_some_entity ∷ [] })
unfolding resolve_or_provision resolve_known resolve_unknown in_transaction link_or_provision
    find_user_by_identity find_user_of sanitize_permissions trim to_lower_case lookup scan next_id
    insert_row
resolve-Origin_example =
    resolve-Origin db_user_laws db_identity_laws tables_apart atomic (login_of "t" true) db _
      transaction_laws refl

abbrev timeout : DbError
timeout = record { name = some "SequelizeTimeoutError"; message = ""; errors = none }
