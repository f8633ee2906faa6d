-- ===== src/Api/Federated.antt =====
-- apps/api/src/services/federated-identity.service.ts over the rows of
-- apps/api/src/models/federated-identity.model.ts: the local user of an identity that the gateway has
-- validated, linked or provisioned if there is none.
pub mod Permissions
pub mod Origin
pub mod Links
pub mod Resolution
use fullstack_starter.Prelude.{
  ℕ, String, Bool, true, false, ◌&&◌, not, Option, none, some, List, [], ◌∷◌, filter, if◌then◌else◌,
  eqb, ◌==◌, is_truthy, trim, to_lower_case, local_part,
}
use fullstack_starter.Async.{
  Async, JsError, ErrorKind, plain, token_expired, unique_constraint, new_error, pure, throw, reads,
  try_catch, ◌>>=◌, ◌>>◌,
}
use fullstack_starter.Dto.{Permission, admin, read_some_entity, same_permission, includes, UserDto}
use fullstack_starter.Api.Model.{Model}
use fullstack_starter.Api.AuthService.{has_email, is_live}

pub record IdentityRow : Type 0 where
  pub id : ℕ
  pub user_id : ℕ
  pub provider : String
  pub subject : String
  pub email_at_link : Option String
  pub deleted : Bool

-- `ResolveFederatedUserRequestDTO`
pub record ResolveInput : Type 0 where
  pub provider : String
  pub subject : String
  pub email : String
  pub email_verified : Bool
  pub suggested_permissions : List Permission

-- `ResolveFederatedUserResponseDTO`
pub record ResolvedUser : Type 0 where
  pub id : ℕ
  pub email : String
  pub permissions : List Permission

abbrev pub to_response : UserDto → ResolvedUser
to_response user = record { id = user.id; email = user.email; permissions = user.permissions }

-- `Array.from(new Set(values))`: the first of each value, in order
unfoldable pub distinct : List Permission → List Permission
distinct [] = []
distinct (p ∷ ps) = p ∷ filter (λ q. not (same_permission p q)) (distinct ps)

-- Every value of the type is allowed; ADMIN is dropped.
abbrev pub without_admin : List Permission → List Permission
without_admin = filter (λ p. not (same_permission p admin))

abbrev pub or_least : List Permission → List Permission
or_least [] = read_some_entity ∷ []
or_least (p ∷ ps) = p ∷ ps

-- The two branches of the source are one: the distinct values of an empty list are none.
unfoldable pub sanitize_permissions : List Permission → List Permission
unfolding distinct
sanitize_permissions suggested = or_least (distinct (without_admin suggested))

abbrev pub is_identity : String → String → IdentityRow → Bool
is_identity provider subject r = r.provider == provider && r.subject == subject && not r.deleted

abbrev pub identity_attrs : ℕ → String → String → String → ℕ → IdentityRow
identity_attrs user_id provider subject email i = record {
  id = i;
  user_id = user_id;
  provider = provider;
  subject = subject;
  email_at_link = some email;
  deleted = false;
}

abbrev pub or_email : String → String → String
or_email name email = if is_truthy name then name else email

-- the row of a user that is provisioned
abbrev pub provisioned : String → List Permission → ℕ → UserDto
provisioned email permissions i = record {
  id = i;
  email = email;
  name = or_email (local_part email) email;
  last_name = "";
  permissions = permissions;
  password = none;
  auth_source = "federated";
  deleted = false;
  deleted_at = none;
}

abbrev pub not_resolved : JsError
not_resolved = new_error "Federated identity could not be resolved."

abbrev pub is_unique_constraint : ErrorKind → Bool
is_unique_constraint unique_constraint = true
is_unique_constraint plain = false
is_unique_constraint token_expired = false

-- `db.transaction(callback)` at the type that the service uses.
abbrev pub Transaction : Type 0 → Type 0
Transaction S = Async S ResolvedUser → Async S ResolvedUser

module _ {S : Type 0} (users : Model S UserDto) (identities : Model S IdentityRow) where
  unfoldable pub find_user_of : Option IdentityRow → Async S (Option UserDto)
  find_user_of none = pure none
  find_user_of (some identity) = reads (users.find_one (is_live identity.user_id))

  unfoldable pub find_user_by_identity : String → String → Async S (Option UserDto)
  unfolding find_user_of
  find_user_by_identity provider subject = do
    identity ← reads (identities.find_one (is_identity provider subject))
    find_user_of identity

  -- 2a and 2b: the local user with the verified email, or a new one
  unfoldable pub link_or_provision : ResolveInput → String → Option UserDto → Async S ResolvedUser
  unfolding sanitize_permissions
  link_or_provision input email (some local_user) = do
    identities.create (identity_attrs local_user.id input.provider input.subject email)
    pure (to_response local_user)
  link_or_provision input email none = do
    created ← users.create (provisioned email (sanitize_permissions input.suggested_permissions))
    identities.create (identity_attrs created.id input.provider input.subject email)
    pure (to_response created)

  unfoldable pub in_transaction : ResolveInput → String → Async S ResolvedUser
  unfolding link_or_provision
  in_transaction input email = do
    local_user ← reads (users.find_one (has_email email))
    link_or_provision input email local_user

  unfoldable pub raced_user : JsError → Option UserDto → Async S ResolvedUser
  raced_user e none = throw e
  raced_user e (some raced) = pure (to_response raced)

  -- the winner of a race, after a violation of a UNIQUE constraint
  unfoldable pub on_error : String → String → JsError → Async S ResolvedUser
  unfolding find_user_by_identity raced_user
  on_error provider subject e =
      if is_unique_constraint e.kind
      then (do raced ← find_user_by_identity provider subject; raced_user e raced)
      else throw e

  unfoldable pub resolve_unknown : Transaction S → ResolveInput → String → Async S ResolvedUser
  unfolding in_transaction on_error
  resolve_unknown transaction input email =
      if input.email_verified
      then try_catch (transaction (in_transaction input email))
          (on_error input.provider input.subject)
      else throw not_resolved

  unfoldable pub resolve_known :
      Transaction S → ResolveInput → String → Option UserDto → Async S ResolvedUser
  unfolding resolve_unknown
  resolve_known transaction input email (some existing) = pure (to_response existing)
  resolve_known transaction input email none = resolve_unknown transaction input email

  unfoldable pub resolve_or_provision : Transaction S → ResolveInput → Async S ResolvedUser
  unfolding resolve_known trim to_lower_case
  resolve_or_provision transaction input = do
    existing ← find_user_by_identity input.provider input.subject
    resolve_known transaction input (to_lower_case (trim input.email)) existing
