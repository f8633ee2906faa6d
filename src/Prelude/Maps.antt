-- ===== src/Prelude/Maps.antt =====
-- A JavaScript `Map` with texts as keys: its entries in the order in which their keys were first set.
use Prim.Native.Nat.{suc, ◌≤◌}
use Prim.Native.String.{String}
use mathlib.Core.Path.{◌≡◌, refl, sym, ap, ◌∙◌, subst}
use mathlib.Core.Logic.{inl, inr}
use mathlib.Core.Bool.{Bool, true, false, ◌||◌, not}
use mathlib.Core.Option.{Option, none, some}
use mathlib.Core.List.{List, [], ◌∷◌}
use native.Mathlib.Omega.{arith}
use text.Mathlib.Text.{◌==◌}
use text.Mathlib.TextEquality.{eq_iff}
use fullstack_starter.Prelude.Tests.{if◌then◌else◌, Bool-cases, some_cancel}
use fullstack_starter.Prelude.Lists.{length, any, filter, All}

pub record MapEntry {ℓ} (V : Type ℓ) : Type ℓ where
  pub key : String
  pub value : V

abbrev pub JsMap {ℓ} : Type ℓ → Type ℓ
JsMap V = List (MapEntry V)

sym_test : (j k : String) → (k == j) ≡ false → (j == k) ≡ false
sym_test j k h = elim (Bool-cases (j == k)) [
  | inl same ↦ cc (rw ((eq_iff _ _).0 same, (eq_iff k k).1 refl) at h)
  | inr apart ↦ apart
]

module _ {ℓ} {V : Type ℓ} where
  abbrev pub get : JsMap V → String → Option V
  get [] k = none
  get (e ∷ es) k = let rest = get es k in if e.key == k then some e.value else rest

  abbrev pub values : JsMap V → List V
  values [] = []
  values (e ∷ es) = e.value ∷ values es

  abbrev pub has : JsMap V → String → Bool
  has es k = any (λ e. e.key == k) es

  -- a key that is there keeps its place
  abbrev pub set : JsMap V → String → V → JsMap V
  set [] k v = record { key = k; value = v } ∷ []
  set (e ∷ es) k v =
      let rest = set es k v in if e.key == k then record { key = k; value = v } ∷ es else e ∷ rest

  abbrev pub delete : JsMap V → String → JsMap V
  delete es k = filter (λ e. not (e.key == k)) es

  -- No key stands twice.
  abbrev pub UniqueKeys : JsMap V → Type 0
  UniqueKeys [] = Unit
  UniqueKeys (e ∷ es) = (has es e.key ≡ false) × UniqueKeys es

  pub get-set : (es : JsMap V) (k : String) (v : V) → get (set es k v) k ≡ some v
  get-set [] k v = rw ((eq_iff k k).1 refl) refl
  get-set (e ∷ es) k v = elim (Bool-cases (e.key == k)) [
    | inl here ↦ rw here (rw ((eq_iff k k).1 refl) refl)
    | inr missed ↦ rw missed (rw missed (get-set es k v))
  ]

  -- Another key is read as before.
  pub get-set_other :
      (es : JsMap V) (j k : String) (v : V) → (j == k) ≡ false → get (set es j v) k ≡ get es k
  get-set_other [] j k v h = rw h refl
  get-set_other (e ∷ es) j k v h = elim (Bool-cases (e.key == j)) [
    | inl here ↦ rw here (rw ((eq_iff _ _).0 here) (rw h refl))
    | inr missed ↦ rw missed (elim (Bool-cases (e.key == k)) [
      | inl found ↦ rw found refl
      | inr apart ↦ rw apart (get-set_other es j k v h)
    ])
  ]

  pub get-has : (es : JsMap V) (k : String) → has es k ≡ false → get es k ≡ none
  get-has [] k h = refl
  get-has (e ∷ es) k h = ground (arith, get-has es k)

  pub get-delete : (es : JsMap V) (k : String) → get (delete es k) k ≡ none
  get-delete [] k = refl
  get-delete (e ∷ es) k = ground (arith, get-delete es k)

  pub has-delete : (es : JsMap V) (k : String) → has (delete es k) k ≡ false
  has-delete [] k = refl
  has-delete (e ∷ es) k = ground (arith, has-delete es k)

  pub get-delete_other :
      (es : JsMap V) (j k : String) → (j == k) ≡ false → get (delete es j) k ≡ get es k
  get-delete_other [] j k h = refl
  get-delete_other (e ∷ es) j k h = elim (Bool-cases (e.key == j)) [
    | inl here ↦ rw here (get-delete_other es j k h ∙ rw ((eq_iff _ _).0 here) (rw h refl))
    | inr missed ↦ rw missed (ground (arith, get-delete_other es j k h))
  ]

  has-filter :
      (test : MapEntry V → Bool) (es : JsMap V) (k : String)
      → has es k ≡ false
      → has (filter test es) k ≡ false
  has-filter test [] k h = refl
  has-filter test (e ∷ es) k h = ground (arith, has-filter test es k)

  MapEntry-path :
      {e : MapEntry V} {k : String} {v : V}
      → e.key ≡ k
      → e.value ≡ v
      → e ≡ record { key = k; value = v }
  MapEntry-path a b i = record { key = a i; value = b i }

  -- What a filter of a map with unique keys still reads was read before, and has passed the test.
  pub get-filter_inv :
      (test : MapEntry V → Bool) (es : JsMap V) (k : String) (v : V)
      → UniqueKeys es
      → get (filter test es) k ≡ some v
      → (get es k ≡ some v) × (test (record { key = k; value = v }) ≡ true)
  get-filter_inv test [] k v unique h = cc
  get-filter_inv test (e ∷ es) k v (apart, unique) h = elim (Bool-cases (test e)) [
    | inl kept ↦ elim (Bool-cases (e.key == k)) [
      | inl here ↦
          let same = (eq_iff _ _).0 here in
          let value : e.value ≡ v = some_cancel (rw (kept, here) at h) in
          (rw here (ap some value), sym (ap test (MapEntry-path same value)) ∙ kept)
      | inr missed ↦ rw missed (get-filter_inv test es k v unique (rw (kept, missed) at h))
    ]
    | inr dropped ↦ elim (Bool-cases (e.key == k)) [
      | inl here ↦
          let gone = get-has (filter test es) e.key (has-filter test es e.key apart) in
          cc (gone, (eq_iff _ _).0 here, rw dropped at h)
      | inr missed ↦ rw missed (get-filter_inv test es k v unique (rw dropped at h))
    ]
  ]

  pub filter-UniqueKeys :
      (test : MapEntry V → Bool) (es : JsMap V) → UniqueKeys es → UniqueKeys (filter test es)
  filter-UniqueKeys test [] h = tt
  filter-UniqueKeys test (e ∷ es) (apart, h) = elim (Bool-cases (test e)) [
    | inl kept ↦ rw kept (has-filter test es e.key apart, filter-UniqueKeys test es h)
    | inr dropped ↦ rw dropped (filter-UniqueKeys test es h)
  ]

  pub has-set : (es : JsMap V) (k j : String) (v : V) → has (set es k v) j ≡ ((k == j) || has es j)
  has-set [] k j v = refl
  has-set (e ∷ es) k j v = elim (Bool-cases (e.key == k)) [
    | inl here ↦ rw here (rw ((eq_iff _ _).0 here) (ground arith))
    | inr missed ↦ rw missed (ground (arith, has-set es k j v))
  ]

  pub set-UniqueKeys : (es : JsMap V) (k : String) (v : V) → UniqueKeys es → UniqueKeys (set es k v)
  set-UniqueKeys [] k v h = (refl, tt)
  set-UniqueKeys (e ∷ es) k v (apart, h) = elim (Bool-cases (e.key == k)) [
    | inl here ↦ rw here (rw ((eq_iff _ _).0 here) at apart, h)
    | inr missed ↦
        rw missed
          (has-set es k e.key v ∙ rw (sym_test k e.key missed) apart, set-UniqueKeys es k v h)
  ]

  pub length-filter :
      (test : MapEntry V → Bool) (es : JsMap V) → length (filter test es) ≤ length es
  length-filter test [] = omega arith
  length-filter test (e ∷ es) = ground (arith, length-filter test es)

  pub length-set : (es : JsMap V) (k : String) (v : V) → length (set es k v) ≤ suc (length es)
  length-set [] k v = omega arith
  length-set (e ∷ es) k v = ground (arith, length-set es k v)

module _ {ℓ} {V : Type ℓ} (P : MapEntry V → Type 0) where
  pub set-All :
      (es : JsMap V) (k : String) (v : V)
      → All P es
      → P (record { key = k; value = v })
      → All P (set es k v)
  set-All [] k v h new = (new, tt)
  set-All (e ∷ es) k v (first, h) new = elim (Bool-cases (e.key == k)) [
    | inl here ↦ rw here (new, h)
    | inr missed ↦ rw missed (first, set-All es k v h new)
  ]

  pub get-All :
      (es : JsMap V) (k : String) (v : V)
      → All P es
      → get es k ≡ some v
      → P (record { key = k; value = v })
  get-All [] k v h found = cc
  get-All (e ∷ es) k v (first, h) found = elim (Bool-cases (e.key == k)) [
    | inl here ↦
        let value : e.value ≡ v = some_cancel (rw here at found) in
        subst P (MapEntry-path ((eq_iff _ _).0 here) value) first
    | inr missed ↦ get-All es k v h (rw missed at found)
  ]
