-- ===== src/Front/Guards.antt =====
-- apps/front/src/app/libs/auth/guards and the tests on permissions of
-- apps/front/src/app/libs/auth/services/auth.service.ts: which pages a user may open. The token is the
-- one that `initialize` has left; reading its claims (`atob`, `JSON.parse`) is a parameter.
use fullstack_starter.Prelude.{
  String, ◌≡◌, ap, ◌↔◌, Bool, true, false, not, Option, some, List, [], ◌∷◌, all, or_else,
  if◌then◌else◌, is_truthy, arith,
}
use fullstack_starter.Async.{Result, ok, error}
use fullstack_starter.Dto.{Permission, includes, includes_any, includes_any_iff, HasAny}
use fullstack_starter.Gateway.Session.{has_any_permission, is_denied}

-- A guard lets the page open, or sends the browser to another one.
pub data GuardResult : Type 0 where
  activate to_login to_unauthorized : GuardResult

-- the permissions of a decoded token; a token that is malformed has none
abbrev pub claimed : Result (Option (List Permission)) → List Permission
claimed (ok permissions) = or_else permissions []
claimed (error e) = []

module _ (decode : String → Result (Option (List Permission))) where
  -- `tokenDecoded.permissions || []`
  unfoldable pub token_permissions : String → List Permission
  token_permissions token = if is_truthy token then claimed (decode token) else []

  unfoldable pub has_permission : String → Permission → Bool
  unfolding token_permissions
  has_permission token required = includes (token_permissions token) required

  unfoldable pub has_any : String → List Permission → Bool
  unfolding token_permissions
  has_any token required = includes_any (token_permissions token) required

  unfoldable pub has_all : String → List Permission → Bool
  unfolding token_permissions
  has_all token required = all (includes (token_permissions token)) required

  abbrev pub guard : String → Bool → GuardResult
  guard token allowed =
      if not (is_truthy token)
      then to_login
      else (if not allowed then to_unauthorized else activate)

  unfoldable pub can_activate : String → GuardResult
  can_activate token = if is_truthy token then activate else to_login

  unfoldable pub can_activate_with_permission : Permission → String → GuardResult
  unfolding has_permission
  can_activate_with_permission required token = guard token (has_permission token required)

  unfoldable pub can_activate_with_any_permission : List Permission → String → GuardResult
  unfolding has_any
  can_activate_with_any_permission required token = guard token (has_any token required)

  unfoldable pub can_activate_with_all_permissions : List Permission → String → GuardResult
  unfolding has_all
  can_activate_with_all_permissions required token = guard token (has_all token required)

  guard-activate :
      (token : String) (allowed : Bool)
      → (guard token allowed ≡ activate) ↔ ((is_truthy token ≡ true) × (allowed ≡ true))
  guard-activate token allowed = (λ h. (ground arith, ground arith), λ h. ground (arith, h.0, h.1))

  -- The guard of a page opens it exactly for a user who is logged in and holds one of the
  -- permissions by the token's claims, and then the gateway does not deny those claims either.
  pub can_activate_with_any_permission_iff :
      (required : List Permission) (token : String)
      → ((can_activate_with_any_permission required token ≡ activate)
          ↔ ((is_truthy token ≡ true) × HasAny (token_permissions token) required))
        × (can_activate_with_any_permission required token ≡ activate
            → is_denied (some required) (some (token_permissions token)) ≡ false)
  unfolding can_activate_with_any_permission is_denied has_any_permission
  can_activate_with_any_permission_iff required token =
      let both = guard-activate token (has_any token required) in
      let held = includes_any_iff (token_permissions token) required in
      (
        (λ h. ((both.0 h).0, held.0 ((both.0 h).1)), λ h. both.1 (h.0, held.1 h.1)),
        λ h. ap not ((both.0 h).1),
      )

  -- The guards for one permission, for any of a list with one and for all of a list with one agree.
  pub guards_agree :
      (required : Permission) (token : String)
      → (can_activate_with_any_permission (required ∷ []) token
          ≡ can_activate_with_permission required token)
        × (can_activate_with_all_permissions (required ∷ []) token
            ≡ can_activate_with_permission required token)
  unfolding can_activate_with_any_permission can_activate_with_permission
      can_activate_with_all_permissions
  guards_agree required token = (ground arith, ground arith)
