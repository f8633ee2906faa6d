-- ===== src/Api/UserReads.antt =====
-- apps/api/src/services/abstract-crud.service.ts: the reads of accounts, by pages, all of them or by
-- id. The statements `findAll` and `findAndCountAll` stand behind an interface, as the others do.
pub mod Pages
use fullstack_starter.Prelude.{
  ℕ, ◌-◌, ◌*◌, String, Bool, true, false, ◌&&◌, Option, none, some, List, [], ◌∷◌, map, any,
  if◌then◌else◌, or_else, map_option, eqb, ◌==◌,
}
use fullstack_starter.Async.{Async, Result, ok, error, pure, reads, ◌>>=◌}
use fullstack_starter.Dto.{Permission, UserDto}
use fullstack_starter.Api.Model.{Model}

-- The rows of a page, and how many rows there are in all.
pub record Counted (Row : Type 0) : Type 0 where
  pub count : ℕ
  pub rows : List Row

-- `find_and_count_all where limit offset` and `find_all where`
pub record Reader (S Row : Type 0) : Type 0 where
  pub find_and_count_all : (Row → Bool) → ℕ → ℕ → S → Result (Counted Row)
  pub find_all : (Row → Bool) → S → Result (List Row)

-- a column that is excluded is missing from the answer
pub record UserColumns : Type 0 where
  pub id : Option ℕ
  pub email : Option String
  pub name : Option String
  pub last_name : Option String
  pub permissions : Option (List Permission)
  pub password : Option (Option String)
  pub auth_source : Option String
  pub deleted : Option Bool
  pub deleted_at : Option (Option ℕ)

abbrev pub column {ℓ} : {A : Type ℓ} → List String → String → A → Option A
column excluded name value = if any (λ c. c == name) excluded then none else some value

-- `attributes: { exclude }`
unfoldable pub project : List String → UserDto → UserColumns
project excluded u = record {
  id = column excluded "id" u.id;
  email = column excluded "email" u.email;
  name = column excluded "name" u.name;
  last_name = column excluded "lastName" u.last_name;
  permissions = column excluded "permissions" u.permissions;
  password = column excluded "password" u.password;
  auth_source = column excluded "authSource" u.auth_source;
  deleted = column excluded "deleted" u.deleted;
  deleted_at = column excluded "deletedAt" u.deleted_at;
}

-- the two columns that the program selects by
pub record Where : Type 0 where
  pub id : Option ℕ
  pub deleted : Option Bool

abbrev pub not_deleted : Where
not_deleted = record { id = none; deleted = some false }

abbrev pub is_bool : Bool → Bool → Bool
is_bool true b = b
is_bool false true = false
is_bool false false = true

abbrev pub has_value {ℓ} : {A : Type ℓ} → (A → A → Bool) → Option A → A → Bool
has_value same none value = true
has_value same (some wanted) value = same wanted value

abbrev pub meets : Where → UserDto → Bool
meets query u = has_value eqb query.id u.id && has_value is_bool query.deleted u.deleted

abbrev pub exclude_columns : Bool → List String
exclude_columns show_deleted =
    if show_deleted then "password" ∷ [] else "password" ∷ "deleted" ∷ "deletedAt" ∷ []

abbrev pub excluded_for : Where → Option (List String) → List String
excluded_for query columns = or_else columns (exclude_columns (or_else query.deleted false))

module _ {S : Type 0} (reader : Reader S UserDto) where
  -- The offset of page 0 is negative in the source and 0 here: the controller asks for page 1 at least.
  unfoldable pub get_all_paged :
      ℕ → ℕ → Where → Option (List String) → Async S (Counted UserColumns)
  unfolding project
  get_all_paged page limit query columns = do
    found ← reads (reader.find_and_count_all (meets query) limit ((page - 1) * limit))
    pure (record {
      count = found.count;
      rows = map (project (excluded_for query columns)) found.rows;
    })

  unfoldable pub get_all : Where → Option (List String) → Async S (List UserColumns)
  unfolding project
  get_all query columns = do
    rows ← reads (reader.find_all (meets query))
    pure (map (project (excluded_for query columns)) rows)

unfoldable pub get_by_id :
    {S : Type 0} → Model S UserDto → Where → Option (List String) → Async S (Option UserColumns)
unfolding project
get_by_id users query columns = do
  row ← reads (users.find_one (meets query))
  pure (map_option (project (excluded_for query columns)) row)
