-- ===== src/Api/UserCrud.antt =====
-- apps/api/src/services/user-crud.service.ts, with the writes of
-- apps/api/src/services/abstract-crud.service.ts that it replaces: users are created, changed and
-- soft-deleted, and the last administrator is kept. `now` is the date of the call.
pub mod Steps
pub mod LastAdmin
pub mod Fields
use fullstack_starter.Prelude.{
  ℕ, String, Bool, true, false, ◌&&◌, not, Option, none, some, List, [], ◌∷◌, any, if◌then◌else◌,
  eqb, ◌==◌, or_else, map_option, is_truthy, is_blank,
}
use fullstack_starter.Async.{Async, Result, ok, new_error, pure, throw, reads, lift, ◌>>=◌, ◌>>◌}
use fullstack_starter.Dto.{Permission, admin, read_some_entity, includes, UserDto}
use fullstack_starter.Api.Model.{Model}
use fullstack_starter.Api.AuthService.{Bcrypt, hash_password}

-- The body of a request: any column may be given, also those that no client may write.
pub record UserPayload : Type 0 where
  pub id : Option ℕ
  pub email : Option String
  pub name : Option String
  pub last_name : Option String
  pub permissions : Option (List Permission)
  pub password : Option String
  pub auth_source : Option String
  pub deleted : Option Bool
  pub deleted_at : Option ℕ

abbrev pub user_writable_fields : List String
user_writable_fields = "email" ∷ "name" ∷ "lastName" ∷ "permissions" ∷ "password" ∷ []

-- the given value, if the field is in the `fields` option
abbrev pub given {ℓ} : {A : Type ℓ} → List String → String → Option A → A → A
given fields field value old = if any (λ f. f == field) fields then or_else value old else old

-- `update({ ...data }, { where, fields })` on one row
pub write_fields : List String → UserPayload → UserDto → UserDto
write_fields fields p u = record {
  id = given fields "id" p.id u.id;
  email = given fields "email" p.email u.email;
  name = given fields "name" p.name u.name;
  last_name = given fields "lastName" p.last_name u.last_name;
  permissions = given fields "permissions" p.permissions u.permissions;
  password = given fields "password" (map_option some p.password) u.password;
  auth_source = given fields "authSource" p.auth_source u.auth_source;
  deleted = given fields "deleted" p.deleted u.deleted;
  deleted_at = given fields "deletedAt" (map_option some p.deleted_at) u.deleted_at;
}

-- a new row with the default values of the columns, before the given ones are written
abbrev pub blank_user : String → ℕ → UserDto
blank_user email i = record {
  id = i;
  email = email;
  name = "";
  last_name = "";
  permissions = read_some_entity ∷ [];
  password = none;
  auth_source = "local";
  deleted = false;
  deleted_at = none;
}

abbrev pub by_id : ℕ → UserDto → Bool
by_id id u = eqb u.id id

abbrev pub has_admin : UserDto → Bool
has_admin u = includes u.permissions admin

-- `where: { permissions: { [Op.contains]: [ADMIN] }, id: { [Op.ne]: id }, deleted: false }`
abbrev pub is_other_admin : ℕ → UserDto → Bool
is_other_admin id u = has_admin u && not (eqb u.id id) && not u.deleted

-- `userData.permissions?.includes(Permission.ADMIN)`
abbrev pub keeps_admin : UserPayload → Bool
keeps_admin p = or_else (map_option (λ ps. includes ps admin) p.permissions) false

-- The two refusals, as the source words them.
abbrev pub last_admin_demoted : String
last_admin_demoted =
    "No se puede quitar el permiso de ADMIN. Debe existir al menos un usuario con permisos de administrador en el sistema."

abbrev pub last_admin_deleted : String
last_admin_deleted =
    "No se puede eliminar el usuario. Debe existir al menos un usuario con permisos de administrador en el sistema."

abbrev pub soft_delete : ℕ → UserDto → UserDto
soft_delete now u = record u { deleted = true; deleted_at = some now }

module _ {S : Type 0} (bcrypt : Bcrypt) (rounds : Option ℕ) where
  -- `if (userData.password && userData.password.trim() !== '')`
  unfoldable pub hash_unless_blank : UserPayload → Option String → Async S UserPayload
  unfolding hash_password is_blank
  hash_unless_blank p none = pure p
  hash_unless_blank p (some password) =
      if is_truthy password && not (is_blank password)
      then (do
        hashed ← hash_password bcrypt rounds password
        pure (record p { password = some hashed }))
      else pure (record p { password = none })

  -- a password that is given and not blank is hashed, any other is dropped from the payload
  unfoldable pub hash_given : UserPayload → Async S UserPayload
  unfolding hash_unless_blank
  hash_given p = hash_unless_blank p p.password

  -- `if (userData.password)`
  unfoldable pub hash_if_given : UserPayload → Option String → Async S UserPayload
  unfolding hash_password
  hash_if_given p none = pure p
  hash_if_given p (some password) =
      if is_truthy password
      then (do
        hashed ← hash_password bcrypt rounds password
        pure (record p { password = some hashed }))
      else pure p

  -- a truthy password of a new user is hashed
  unfoldable pub hash_new : UserPayload → Async S UserPayload
  unfolding hash_if_given
  hash_new p = hash_if_given p p.password

module _ {S : Type 0} (users : Model S UserDto) where
  -- the row must not be the last live administrator
  unfoldable pub keep_one_admin : String → ℕ → Async S (Unit {0})
  keep_one_admin message id = do
    others ← reads (users.count (is_other_admin id))
    if eqb others 0 then throw (new_error message) else pure tt

  unfoldable pub delete_found : ℕ → ℕ → Option UserDto → Async S ℕ
  unfolding keep_one_admin
  delete_found now id none = throw (new_error "Usuario no encontrado")
  delete_found now id (some user) = do
    if has_admin user then keep_one_admin last_admin_deleted id else pure tt
    users.update (by_id id) (soft_delete now)

  unfoldable pub delete : ℕ → ℕ → Async S ℕ
  unfolding delete_found
  delete now id = do user ← reads (users.find_one (by_id id)); delete_found now id user

  -- a row needs an email: the column is not null
  unfoldable pub create_with : UserPayload → Option String → Async S UserDto
  unfolding write_fields
  create_with p none = throw (new_error "notNull Violation: User.email cannot be null")
  create_with p (some email) =
      users.create (λ i. write_fields user_writable_fields p (blank_user email i))

  unfoldable pub create_user : UserPayload → Async S UserDto
  unfolding create_with
  create_user p = create_with p p.email

module _ {S : Type 0} (users : Model S UserDto) (bcrypt : Bcrypt) (rounds : Option ℕ) where
  unfoldable pub put_found : ℕ → UserPayload → Option UserDto → Async S ℕ
  unfolding hash_given keep_one_admin write_fields
  put_found id p none = throw (new_error "Usuario no encontrado")
  put_found id p (some current) = do
    if has_admin current && not (keeps_admin p)
        then keep_one_admin users last_admin_demoted id
        else pure tt
    p' ← hash_given bcrypt rounds p
    users.update (by_id id) (write_fields user_writable_fields p')

  unfoldable pub put : ℕ → UserPayload → Async S ℕ
  unfolding put_found
  put id p = do current ← reads (users.find_one (by_id id)); put_found id p current

  unfoldable pub post : UserPayload → Async S UserDto
  unfolding hash_new create_user
  post p = do p' ← hash_new bcrypt rounds p; create_user users p'
