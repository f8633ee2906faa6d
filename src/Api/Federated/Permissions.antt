-- ===== src/Api/Federated/Permissions.antt =====
-- What a provisioned account is granted.
use fullstack_starter.Prelude.{
  ◌≡◌, ◌≢◌, refl, ◌∙◌, ◌⊎◌, inl, inr, Bool, true, false, Bool-cases, ◌&&◌, not, List, [], ◌∷◌,
  filter, arith,
}
use fullstack_starter.Dto.{
  Permission, admin, read_some_entity, same_permission, same_permission_iff, includes,
}
use fullstack_starter.Api.Federated.{distinct, without_admin, or_least, sanitize_permissions}

-- A filter by a test keeps a permission exactly where it passes.
includes-filter :
    (test : Permission → Bool) (ps : List Permission) (p : Permission)
    → includes (filter test ps) p ≡ (includes ps p && test p)
includes-filter test [] p = refl
includes-filter test (q ∷ ps) p = ground (arith, includes-filter test ps p, same_permission_iff p q)

pub includes-distinct :
    (ps : List Permission) (p : Permission) → includes (distinct ps) p ≡ includes ps p
unfolding distinct
includes-distinct [] p = refl
includes-distinct (q ∷ ps) p = ground (
  arith,
  includes-filter (λ r. not (same_permission q r)) (distinct ps) p,
  includes-distinct ps p,
  same_permission_iff p q,
  same_permission_iff q p,
)

-- No value stands twice.
abbrev pub NoRepeats : List Permission → Type 0
NoRepeats [] = Unit
NoRepeats (p ∷ ps) = (includes ps p ≡ false) × NoRepeats ps

filter-NoRepeats :
    (test : Permission → Bool) (ps : List Permission) → NoRepeats ps → NoRepeats (filter test ps)
filter-NoRepeats test [] h = tt
filter-NoRepeats test (p ∷ ps) (apart, h) = elim (Bool-cases (test p)) [
  | inl kept ↦ rw kept (includes-filter test ps p ∙ rw apart, filter-NoRepeats test ps h)
  | inr dropped ↦ rw dropped (filter-NoRepeats test ps h)
]

pub distinct-NoRepeats : (ps : List Permission) → NoRepeats (distinct ps)
unfolding distinct
distinct-NoRepeats [] = tt
distinct-NoRepeats (p ∷ ps) = (
  includes-filter (λ q. not (same_permission p q)) (distinct ps) p
      ∙ ground (arith, same_permission_iff p p),
  filter-NoRepeats (λ q. not (same_permission p q)) (distinct ps) (distinct-NoRepeats ps),
)

or_least-NoRepeats : (ps : List Permission) → NoRepeats ps → NoRepeats (or_least ps)
or_least-NoRepeats [] h = (refl, tt)
or_least-NoRepeats (p ∷ ps) h = h

includes-valid :
    (ps : List Permission) (p : Permission)
    → includes (distinct (without_admin ps)) p ≡ (includes ps p && not (same_permission p admin))
includes-valid ps p =
    includes-distinct (without_admin ps) p
    ∙ includes-filter (λ q. not (same_permission q admin)) ps p

-- The fallback grants nothing but the right to read.
or_least-only :
    (ps : List Permission) (p : Permission)
    → includes (or_least ps) p ≡ true
    → (includes ps p ≡ true) ⊎ (p ≡ read_some_entity)
or_least-only [] p h = inr ((same_permission_iff p read_some_entity).0 (ground arith))
or_least-only (q ∷ ps) p h = inl h

or_least-keeps :
    (ps : List Permission) (p : Permission) → includes ps p ≡ true → includes (or_least ps) p ≡ true
or_least-keeps [] p h = cc
or_least-keeps (q ∷ ps) p h = h

never_admin :
    (ps : List Permission) → includes (or_least (distinct (without_admin ps))) admin ≡ false
never_admin ps = elim (Bool-cases (includes (or_least (distinct (without_admin ps))) admin)) [
  | inl granted ↦ elim (or_least-only (distinct (without_admin ps)) admin granted) [
    | inl valid ↦ ground (arith, includes-valid ps admin, valid)
    | inr reads ↦ cc
  ]
  | inr denied ↦ denied
]

-- A provisioned account is never given ADMIN, whatever was suggested; it is given every other
-- suggested permission once, and nothing that was not suggested but the right to read.
pub sanitize_permissions-grants :
    (ps : List Permission)
    → (includes (sanitize_permissions ps) admin ≡ false)
      × NoRepeats (sanitize_permissions ps)
      × ((p : Permission)
          → p ≢ admin
          → includes ps p ≡ true
          → includes (sanitize_permissions ps) p ≡ true)
      × ((p : Permission)
          → includes (sanitize_permissions ps) p ≡ true
          → (includes ps p ≡ true) ⊎ (p ≡ read_some_entity))
unfolding sanitize_permissions
sanitize_permissions-grants ps =
    let valid = distinct (without_admin ps) in
    (
      never_admin ps,
      or_least-NoRepeats valid (distinct-NoRepeats (without_admin ps)),
      λ p other asked.
          or_least-keeps valid p
            (includes-valid ps p ∙ ground (arith, same_permission_iff p admin)),
      λ p granted. elim (or_least-only valid p granted) [
        | inl valid_one ↦ inl (ground (arith, includes-valid ps p))
        | inr reads ↦ inr reads
      ],
    )
