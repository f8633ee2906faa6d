-- ===== src/Api/UserCrud/Steps.antt =====
-- What the steps of a change leave alone, and what hashing makes of a payload.
use fullstack_starter.Prelude.{
  ℕ, String, ◌≡◌, refl, sym, ◌∙◌, ap, ◌⊎◌, inl, inr, true, false, Bool-cases, ◌&&◌, not, Option,
  none, some, List, arith, or_else, map_option, is_truthy, is_blank,
}
use fullstack_starter.Async.{Async, and_then, ok, ok-injective, Result-cases}
use fullstack_starter.Dto.{Permission, UserDto, admin, includes}
use fullstack_starter.Api.Model.{Model}
use fullstack_starter.Api.AuthService.{Bcrypt, user_id, hash_password, salt_rounds}
use fullstack_starter.Api.UserCrud.{
  UserPayload, user_writable_fields, write_fields, by_id, has_admin, keeps_admin, hash_given,
  hash_new, hash_unless_blank, keep_one_admin,
}

pub keep_one_admin-state :
    {S : Type 0} (users : Model S UserDto) (m : String) (id : ℕ) (s : S)
    → (keep_one_admin users m id s).1 ≡ s
unfolding keep_one_admin
keep_one_admin-state users m id s = ground arith

module _ {S : Type 0} (bcrypt : Bcrypt) (rounds : Option ℕ) where
  pub hash_new-state : (p : UserPayload) (s : S) → (hash_new bcrypt rounds p s).1 ≡ s
  unfolding hash_new
  hash_new-state p s = ground arith

  pub hash_given-state : (p : UserPayload) (s : S) → (hash_given bcrypt rounds p s).1 ≡ s
  unfolding hash_given
  hash_given-state p s = ground arith

  pub hash_given-permissions :
      (p p' : UserPayload) (s : S)
      → (hash_given bcrypt rounds p s).0 ≡ ok p'
      → p'.permissions ≡ p.permissions
  unfolding hash_given
  hash_given-permissions p p' s h = ground arith

payload_admin :
    (given : Option (List Permission)) (old : List Permission)
    → or_else (map_option (λ ps. includes ps admin) given) false ≡ true
    → includes (or_else given old) admin ≡ true
payload_admin none old keeps = cc
payload_admin (some ps) old keeps = keeps

pub write_fields-id :
    (p : UserPayload) (u : UserDto) → user_id (write_fields user_writable_fields p u) ≡ user_id u
unfolding write_fields
write_fields-id p u = refl

pub write_fields-live :
    (p : UserPayload) (u : UserDto) → (write_fields user_writable_fields p u).deleted ≡ u.deleted
unfolding write_fields
write_fields-live p u = refl

-- A payload that names ADMIN leaves an administrator.
pub write_fields-admin :
    (p p' : UserPayload) (u : UserDto)
    → p'.permissions ≡ p.permissions
    → keeps_admin p ≡ true
    → has_admin (write_fields user_writable_fields p' u) ≡ true
unfolding write_fields
write_fields-admin p p' u same keeps = rw same (payload_admin p.permissions u.permissions keeps)

pub current_keeps :
    (current : UserDto) (p : UserPayload)
    → has_admin current ≡ true
    → (has_admin current && not (keeps_admin p)) ≡ false
    → keeps_admin p ≡ true
current_keeps current p is_admin kept = ground arith

-- A password that is written comes from bcrypt, at the configured cost; a missing or blank one is
-- not written.
abbrev pub IsHashed : Bcrypt → Option ℕ → Option String → Option String → Type 0
IsHashed bcrypt rounds none written = written ≡ none
IsHashed bcrypt rounds (some password) written =
    ((is_blank password ≡ true) × (written ≡ none))
    ⊎ ((stored : String) × (is_blank password ≡ false)
        × (bcrypt.hash password (salt_rounds rounds) ≡ ok stored)
        × (written ≡ some stored))

blank_or_truthy : (s : String) → is_blank s ≡ false → is_truthy s ≡ true
unfolding is_blank
blank_or_truthy String.[] h = cc
blank_or_truthy (String.◌∷◌ c s) h = refl

module _ {S : Type 0} (bcrypt : Bcrypt) (rounds : Option ℕ) where
  hash_unless_blank-IsHashed :
      (p p' : UserPayload) (x : Option String) (s : S)
      → p.password ≡ x
      → (hash_unless_blank bcrypt rounds p x s).0 ≡ ok p'
      → IsHashed bcrypt rounds x p'.password
  unfolding hash_unless_blank hash_password
  hash_unless_blank-IsHashed p p' none s at_x h = sym (ap (λ q. q.password) (ok-injective h)) ∙ at_x
  hash_unless_blank-IsHashed p p' (some password) s at_x h = elim (Bool-cases (is_blank password)) [
    | inl blank ↦ inl (blank, ground arith)
    | inr filled ↦
        let truthy = blank_or_truthy password filled in
        elim (Result-cases (bcrypt.hash password (salt_rounds rounds))) [
          | inl (stored, hashed) ↦ inr (stored, filled, hashed, ground arith)
          | inr (e, failed) ↦ absurd (ground arith)
        ]
  ]

  -- The payload that is written: its password is hashed or dropped, and the rest is as given.
  pub hash_given-fields :
      (p p' : UserPayload) (s : S)
      → (hash_given bcrypt rounds p s).0 ≡ ok p'
      → (p'.email ≡ p.email)
        × (p'.name ≡ p.name)
        × (p'.last_name ≡ p.last_name)
        × (p'.permissions ≡ p.permissions)
        × IsHashed bcrypt rounds p.password p'.password
  unfolding hash_given
  hash_given-fields p p' s h = (
    ground arith,
    ground arith,
    ground arith,
    ground arith,
    hash_unless_blank-IsHashed p p' p.password s refl h,
  )

-- The end of a change, once the checks have passed.
module _ {S : Type 0} (users : Model S UserDto) (bcrypt : Bcrypt) (rounds : Option ℕ) where
  abbrev pub write_hashed : ℕ → UserPayload → Async S ℕ
  write_hashed id p s =
      and_then (hash_given bcrypt rounds p s)
        (λ p'. users.update (by_id id) (write_fields user_writable_fields p'))
