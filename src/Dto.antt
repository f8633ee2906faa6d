-- ===== src/Dto.antt =====
-- libs/rest-dto: the permissions and the rows that the services exchange.
use fullstack_starter.Prelude.{
  ℕ, String, ◌≡◌, refl, ◌↔◌, Bool, true, false, Option, List, any, Any, any_sound, any_complete,
}

pub data Permission : Type 0 where
  admin write_some_entity read_some_entity : Permission

-- `===` on permissions
abbrev pub same_permission : Permission → Permission → Bool
same_permission admin admin = true
same_permission write_some_entity write_some_entity = true
same_permission read_some_entity read_some_entity = true
same_permission _ _ = false

pub same_permission_iff : (p q : Permission) → (same_permission p q ≡ true) ↔ (p ≡ q)
same_permission_iff admin admin = (λ _. refl, λ _. refl)
same_permission_iff admin write_some_entity = (λ h. cc, λ h. cc)
same_permission_iff admin read_some_entity = (λ h. cc, λ h. cc)
same_permission_iff write_some_entity admin = (λ h. cc, λ h. cc)
same_permission_iff write_some_entity write_some_entity = (λ _. refl, λ _. refl)
same_permission_iff write_some_entity read_some_entity = (λ h. cc, λ h. cc)
same_permission_iff read_some_entity admin = (λ h. cc, λ h. cc)
same_permission_iff read_some_entity write_some_entity = (λ h. cc, λ h. cc)
same_permission_iff read_some_entity read_some_entity = (λ _. refl, λ _. refl)

-- `permissions.includes(p)`
abbrev pub includes : List Permission → Permission → Bool
includes ps p = any (same_permission p) ps

-- The user holds the permission.
abbrev pub Has : List Permission → Permission → Type 0
Has ps p = Any (λ q. p ≡ q) ps

pub includes_iff : (ps : List Permission) (p : Permission) → (includes ps p ≡ true) ↔ Has ps p
includes_iff ps p = (
  any_sound _ _ (λ q. (same_permission_iff p q).0) ps,
  any_complete _ _ (λ q. (same_permission_iff p q).1) ps,
)

-- `required.some((p) => permissions.includes(p))`
abbrev pub includes_any : List Permission → List Permission → Bool
includes_any ps required = any (includes ps) required

-- The user holds one of the required permissions.
abbrev pub HasAny : List Permission → List Permission → Type 0
HasAny ps required = Any (Has ps) required

pub includes_any_iff :
    (ps required : List Permission) → (includes_any ps required ≡ true) ↔ HasAny ps required
includes_any_iff ps required = (
  any_sound _ _ (λ q. (includes_iff ps q).0) required,
  any_complete _ _ (λ q. (includes_iff ps q).1) required,
)

-- A row of the user table; the time stamps of creation and update are left to the database.
-- The columns `name` and `lastName` may be null: here a missing one is the empty text.
pub record UserDto : Type 0 where
  pub id : ℕ
  pub email : String
  pub name : String
  pub last_name : String
  pub permissions : List Permission
  pub password : Option String
  pub auth_source : String
  pub deleted : Bool
  pub deleted_at : Option ℕ
