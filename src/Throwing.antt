-- ===== src/Throwing.antt =====
-- Synchronous functions that may throw: a `Result` without a state.
use fullstack_starter.Prelude.{suc, ◌≡◌, refl, sym, ap, ◌∙◌, subst, length, List, [], ◌∷◌, All}
use fullstack_starter.Async.{Result, ok, error, ok-injective}

module _ {ℓ κ} {A : Type ℓ} {B : Type κ} where
  infixl 5 ◌>>=◌
  abbrev pub ◌>>=◌ : Result A → (A → Result B) → Result B
  ◌>>=◌ (ok a) k = k a
  ◌>>=◌ (error e) k = error e

  -- A chain that returned has passed its first call.
  pub bind-inv :
      (r : Result A) (k : A → Result B) (b : B)
      → (r >>= k) ≡ ok b
      → (a : A) × (r ≡ ok a) × (k a ≡ ok b)
  bind-inv (ok a) k b h = (a, refl, h)
  bind-inv (error e) k b h = cc

module _ {A B : Type 0} where
  -- `xs.map(f)`, which the first call that throws ends
  abbrev pub map_throwing : (A → Result B) → List A → Result (List B)
  map_throwing f [] = ok []
  map_throwing f (x ∷ xs) = do y ← f x; ys ← map_throwing f xs; ok (y ∷ ys)

  -- What every call answers where it does not throw, the whole list has.
  pub map_throwing-All :
      (P : B → Type 0) (f : A → Result B) (xs : List A) (ys : List B)
      → ((x : A) (y : B) → f x ≡ ok y → P y)
      → map_throwing f xs ≡ ok ys
      → All P ys
  map_throwing-All P f [] ys each h = subst (All P) (ok-injective h) tt
  map_throwing-All P f (x ∷ xs) ys each h =
      let (y, first, rest) = bind-inv (f x) _ ys h in
      let (zs, others, whole) = bind-inv (map_throwing f xs) _ ys rest in
      subst (All P) (ok-injective whole) (each x y first, map_throwing-All P f xs zs each others)

  pub map_throwing-length :
      (f : A → Result B) (xs : List A) (ys : List B)
      → map_throwing f xs ≡ ok ys
      → length ys ≡ length xs
  map_throwing-length f [] ys h = ap length (sym (ok-injective h))
  map_throwing-length f (x ∷ xs) ys h =
      let (y, first, rest) = bind-inv (f x) _ ys h in
      let (zs, others, whole) = bind-inv (map_throwing f xs) _ ys rest in
      ap length (sym (ok-injective whole)) ∙ ap suc (map_throwing-length f xs zs others)
