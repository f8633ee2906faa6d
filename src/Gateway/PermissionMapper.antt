-- ===== src/Gateway/PermissionMapper.antt =====
-- apps/gateway/src/sso/permission-mapper.ts: the permissions that the groups of an identity suggest.
use fullstack_starter.Prelude.{
  String, ◌≡◌, refl, ◌∙◌, Bool, Bool-cases, inl, inr, ◌&&◌, ◌||◌, Option, none, some, List, [], ◌∷◌,
  ◌++◌, any, arith, if◌then◌else◌, ◌==◌,
}
use fullstack_starter.Dto.{Permission, includes}
use fullstack_starter.Api.Federated.{distinct}
use fullstack_starter.Api.Federated.Permissions.{NoRepeats, includes-distinct, distinct-NoRepeats}

-- The claim, of an unknown type: an array, whose entries are `none` if they are no text, a text, or
-- anything else.
pub data GroupsClaim : Type 0 where
  array : List (Option String) → GroupsClaim
  text : String → GroupsClaim
  other : GroupsClaim

pub record ClaimPermissionMapping : Type 0 where
  pub claim : String
  pub permissions : List Permission

-- `groupsClaim.filter((g) => typeof g === 'string')`
abbrev pub texts : List (Option String) → List String
texts [] = []
texts (none ∷ gs) = texts gs
texts (some g ∷ gs) = g ∷ texts gs

abbrev pub groups_of : GroupsClaim → List String
groups_of (array gs) = texts gs
groups_of (text g) = g ∷ []
groups_of other = []

abbrev pub has_group : List String → String → Bool
has_group groups claim = any (λ g. g == claim) groups

-- the values that are added to the set, in order
unfoldable pub granted : List String → List ClaimPermissionMapping → List Permission
granted groups [] = []
granted groups (m ∷ ms) =
    let rest = granted groups ms in if has_group groups m.claim then m.permissions ++ rest else rest

unfoldable pub map_groups_to_permissions :
    GroupsClaim → List ClaimPermissionMapping → List Permission
unfolding granted distinct
map_groups_to_permissions claim mappings = distinct (granted (groups_of claim) mappings)

includes-append :
    (ps qs : List Permission) (p : Permission)
    → includes (ps ++ qs) p ≡ (includes ps p || includes qs p)
includes-append [] qs p = refl
includes-append (q ∷ ps) qs p = ground (arith, includes-append ps qs p)

includes-granted :
    (groups : List String) (ms : List ClaimPermissionMapping) (p : Permission)
    → includes (granted groups ms) p
      ≡ any (λ m. has_group groups m.claim && includes m.permissions p) ms
unfolding granted
includes-granted groups [] p = refl
includes-granted groups (m ∷ ms) p = elim (Bool-cases (has_group groups m.claim)) [
  | inl member ↦ rw member (
      includes-append m.permissions (granted groups ms) p
      ∙ ground (arith, includes-granted groups ms p))
  | inr stranger ↦ rw stranger (includes-granted groups ms p)
]

-- The suggested permissions are those of the mappings whose claim is one of the groups, each once:
-- no group that the configuration does not map suggests anything.
pub map_groups_to_permissions-grants :
    (claim : GroupsClaim) (ms : List ClaimPermissionMapping)
    → NoRepeats (map_groups_to_permissions claim ms)
      × ((p : Permission)
          → includes (map_groups_to_permissions claim ms) p
            ≡ any (λ m. has_group (groups_of claim) m.claim && includes m.permissions p) ms)
unfolding map_groups_to_permissions
map_groups_to_permissions-grants claim ms = (
  distinct-NoRepeats (granted (groups_of claim) ms),
  λ p. includes-distinct (granted (groups_of claim) ms) p ∙ includes-granted (groups_of claim) ms p,
)
