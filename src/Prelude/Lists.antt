-- ===== src/Prelude/Lists.antt =====
-- Array methods of the program (`some`, `every`, `includes`, `filter`, `length`) as functions that
-- run, and predicates on lists by recursion.
use Prim.Native.Nat.{ℕ, zero, suc, ◌+◌}
use mathlib.Core.Path.{◌≡◌}
use mathlib.Core.Logic.{◌⊎◌, inl, inr}
use mathlib.Core.Bool.{Bool, true, false, ◌&&◌, ◌||◌}
use mathlib.Core.List.{List, [], ◌∷◌, ◌++◌}
use native.Mathlib.Omega.{arith}
use fullstack_starter.Prelude.Tests.{if◌then◌else◌, Bool-cases}

module _ {ℓ} {A : Type ℓ} where
  abbrev pub length : List A → ℕ
  length [] = 0
  length (x ∷ xs) = suc (length xs)

  abbrev pub any : (A → Bool) → List A → Bool
  any p [] = false
  any p (x ∷ xs) = p x || any p xs

  abbrev pub all : (A → Bool) → List A → Bool
  all p [] = true
  all p (x ∷ xs) = p x && all p xs

  -- one structural call
  abbrev pub filter : (A → Bool) → List A → List A
  filter p [] = []
  filter p (x ∷ xs) = let rest = filter p xs in if p x then x ∷ rest else rest

  abbrev pub take : ℕ → List A → List A
  take zero xs = []
  take (suc n) [] = []
  take (suc n) (x ∷ xs) = x ∷ take n xs

  abbrev pub drop : ℕ → List A → List A
  drop zero xs = xs
  drop (suc n) [] = []
  drop (suc n) (x ∷ xs) = drop n xs

  pub length-append : (xs ys : List A) → length (xs ++ ys) ≡ length xs + length ys
  length-append [] ys = omega arith
  length-append (x ∷ xs) ys = omega (arith, length-append xs ys)

module _ {ℓ κ} {A : Type ℓ} (P : A → Type κ) where
  -- every element has the property
  abbrev pub All : List A → Type κ
  All [] = Unit
  All (x ∷ xs) = P x × All xs

module _ {ℓ} {A : Type ℓ} (P : A → Type 0) where
  -- an element with the property, and where it stands
  abbrev pub Any : List A → Type 0
  Any [] = ⊥
  Any (x ∷ xs) = P x ⊎ Any xs

module _ {ℓ} {A : Type ℓ} (P : A → Type 0) (p : A → Bool) where
  -- `some` finds an element exactly when there is one.
  pub any_sound : ((x : A) → p x ≡ true → P x) → (xs : List A) → any p xs ≡ true → Any P xs
  any_sound h [] e = cc
  any_sound h (x ∷ xs) e = elim (Bool-cases (p x)) [
    | inl here ↦ inl (h x here)
    | inr missed ↦ inr (any_sound h xs (rw missed at e))
  ]

  pub any_complete : ((x : A) → P x → p x ≡ true) → (xs : List A) → Any P xs → any p xs ≡ true
  any_complete h [] e = elim e [ ]
  any_complete h (x ∷ xs) (inl here) = rw (h x here)
  any_complete h (x ∷ xs) (inr there) = elim (Bool-cases (p x)) [
    | inl found ↦ rw found
    | inr missed ↦ rw missed (any_complete h xs there)
  ]
