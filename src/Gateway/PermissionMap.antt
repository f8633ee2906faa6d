-- ===== src/Gateway/PermissionMap.antt =====
-- `parsePermissionMap` of apps/gateway/src/sso/provider-registry.ts: the groups of a provider that
-- the environment maps to permissions, written `claim:PERM1,PERM2;…`.
use Prim.Native.String.{◌++◌}
use fullstack_starter.Prelude.{
  ℕ, String, ◌≡◌, refl, sym, ap, ◌∙◌, subst, inl, inr, true, Bool-cases, ◌||◌, not, Option, none,
  some, List, [], ◌∷◌, map, filter, All, arith, if◌then◌else◌, is_truthy, trim, ◌==◌, break_at,
  split_on,
}
use fullstack_starter.Async.{Result, ok, error, new_error, ok-injective}
use fullstack_starter.Throwing.{◌>>=◌, bind-inv, map_throwing, map_throwing-All}
use fullstack_starter.Dto.{Permission, admin, write_some_entity, read_some_entity}
use fullstack_starter.Gateway.PermissionMapper.{ClaimPermissionMapping}

-- the member of `Object.values(Permission)` that the text is
unfoldable pub permission_of : String → Option Permission
permission_of p =
    if p == "ADMIN"
    then some admin
    else (if p == "WRITE_SOME_ENTITY"
        then some write_some_entity
        else (if p == "READ_SOME_ENTITY" then some read_some_entity else none))

-- `.split(separator).map((s) => s.trim()).filter(Boolean)`
unfoldable pub trimmed_parts : ℕ → String → List String
unfolding split_on trim
trimmed_parts separator raw = filter is_truthy (map trim (split_on separator raw))

abbrev pub known_permission : String → String → Option Permission → Result Permission
known_permission provider_id p none = error (
    new_error ("SSO provider \"" ++ provider_id ++ "\" maps to unknown permission \"" ++ p ++ "\""))
known_permission provider_id p (some permission) = ok permission

unfoldable pub parse_permissions : String → String → Result (List Permission)
unfolding trimmed_parts permission_of
parse_permissions provider_id raw =
    map_throwing (λ p. known_permission provider_id p (permission_of p)) (trimmed_parts b',' raw)

-- the claim and the permissions of an entry, both empty without a separator
abbrev pub entry_parts : Option (String × String) → String × String
entry_parts none = ("", "")
entry_parts (some (claim, permissions)) = (trim claim, trim permissions)

unfoldable pub parse_entry : String → String → Result ClaimPermissionMapping
unfolding break_at parse_permissions trim
parse_entry provider_id entry =
    let (claim, raw) = entry_parts (break_at b':' entry) in
    if not (is_truthy claim) || not (is_truthy raw)
    then error (
        new_error (
          "SSO provider \"" ++ provider_id ++ "\" has an invalid permission map entry: \"" ++ entry
          ++ "\""))
    else (do
      permissions ← parse_permissions provider_id raw
      ok (record { claim = claim; permissions = permissions }))

unfoldable pub parse_present : String → Option String → Result (List ClaimPermissionMapping)
unfolding parse_entry trimmed_parts
parse_present provider_id none = ok []
parse_present provider_id (some raw) =
    map_throwing (parse_entry provider_id) (trimmed_parts b';' raw)

-- `raw` where neither it nor its trimmed text is empty
abbrev pub not_blank : Option String → Option String
not_blank none = none
not_blank (some raw) = if is_truthy (trim raw) then some raw else none

unfoldable pub parse_permission_map : String → Option String → Result (List ClaimPermissionMapping)
unfolding parse_present trim
parse_permission_map provider_id raw = parse_present provider_id (not_blank raw)

parses :
    parse_permission_map "okta" (some " staff : READ_SOME_ENTITY , ADMIN ;; b:ADMIN")
    ≡ ok (
        record { claim = "staff"; permissions = read_some_entity ∷ admin ∷ [] }
        ∷ record { claim = "b"; permissions = admin ∷ [] }
        ∷ [])
unfolding parse_permission_map parse_permissions
parses = refl

-- A mapping for a group that has a name.
abbrev pub Named : ClaimPermissionMapping → Type 0
Named m = is_truthy m.claim ≡ true

parse_entry-Named :
    (provider_id entry : String) (m : ClaimPermissionMapping)
    → parse_entry provider_id entry ≡ ok m
    → Named m
unfolding parse_entry
parse_entry-Named provider_id entry m h =
    let parts = entry_parts (break_at b':' entry) in
    elim (Bool-cases (not (is_truthy parts.0) || not (is_truthy parts.1))) [
      | inl missing ↦ cc (rw missing at h)
      | inr given ↦
          let (permissions, parsed, made) =
            bind-inv (parse_permissions provider_id parts.1) _ m (rw given at h) in
          sym (ap (λ x. is_truthy x.claim) (ok-injective made)) ∙ ground arith
    ]

parse_present-Named :
    (provider_id : String) (raw : Option String) (ms : List ClaimPermissionMapping)
    → parse_present provider_id raw ≡ ok ms
    → All Named ms
unfolding parse_present
parse_present-Named provider_id none ms h = subst (All Named) (ok-injective h) tt
parse_present-Named provider_id (some raw) ms h =
    map_throwing-All Named (parse_entry provider_id) (trimmed_parts b';' raw) ms
      (parse_entry-Named provider_id) h

-- Every mapping that is read names its group.
pub parse_permission_map-Named :
    (provider_id : String) (raw : Option String) (ms : List ClaimPermissionMapping)
    → parse_permission_map provider_id raw ≡ ok ms
    → All Named ms
unfolding parse_permission_map
parse_permission_map-Named provider_id raw ms h =
    parse_present-Named provider_id (not_blank raw) ms h
