-- ===== src/Async.antt =====
-- Asynchronous methods as actions: an `await` that throws ends the method, and what was written
-- before stays written, so the state comes back beside the error too.
use fullstack_starter.Prelude.{ℕ, String, ◌≡◌, refl, ap, arith, ◌⊎◌, inl, inr, Option, none}

-- The classes of error that the program tells apart, by `instanceof` or by name.
pub data ErrorKind : Type 0 where
  plain token_expired unique_constraint : ErrorKind

-- A thrown value: `message`, and the `statusCode` that the gateway's client attaches.
pub record JsError : Type 0 where
  pub kind : ErrorKind
  pub message : String
  pub status_code : Option ℕ

-- `new Error(message)`
abbrev pub new_error : String → JsError
new_error m = record { kind = plain; message = m; status_code = none }

pub data Result {ℓ} (A : Type ℓ) : Type ℓ where
  ok : A → Result A
  error : JsError → Result A

abbrev pub Async : Type 0 → Type 0 → Type 0
Async S A = S → Result A × S

module _ {S A : Type 0} where
  abbrev pub pure : A → Async S A
  pure a s = (ok a, s)

  abbrev pub throw : JsError → Async S A
  throw e s = (error e, s)

  -- a call that reads the state and may throw
  abbrev pub reads : (S → Result A) → Async S A
  reads f s = (f s, s)

  abbrev pub lift : Result A → Async S A
  lift r s = (r, s)

  abbrev pub handle_with : Result A × S → (JsError → Async S A) → Result A × S
  handle_with (ok a, s) h = (ok a, s)
  handle_with (error e, s) h = h e s

  -- `try { m } catch (e) { h(e) }`: the state that `m` left is the one that `h` finds
  abbrev pub try_catch : Async S A → (JsError → Async S A) → Async S A
  try_catch m h s = handle_with (m s) h

module _ {S A B : Type 0} where
  abbrev pub and_then : Result A × S → (A → Async S B) → Result B × S
  and_then (ok a, s) k = k a s
  and_then (error e, s) k = (error e, s)

  infixl 5 ◌>>=◌ ◌>>◌
  abbrev pub ◌>>=◌ : Async S A → (A → Async S B) → Async S B
  ◌>>=◌ m k s = and_then (m s) k

  abbrev pub ◌>>◌ : Async S A → Async S B → Async S B
  ◌>>◌ m n s = and_then (m s) (λ _. n)

ok_value : {A : Type 0} → Result A → A → A
ok_value (ok a) d = a
ok_value (error e) d = d

pub ok-injective : {A : Type 0} {a b : A} → ok a ≡ ok b → a ≡ b
unfolding ok_value
ok-injective {a} h = ap (λ r. ok_value r a) h

error_value : {A : Type 0} → Result A → JsError → JsError
error_value (ok a) d = d
error_value (error e) d = e

pub error-injective : {A : Type 0} {d e : JsError} → ◌≡◌ {A = Result A} (error d) (error e) → d ≡ e
unfolding error_value
error-injective {d} h = ap (λ r. error_value r d) h

pub Result-cases {ℓ} :
    {A : Type ℓ} (r : Result A) → ((a : A) × (r ≡ ok a)) ⊎ ((e : JsError) × (r ≡ error e))
Result-cases (ok a) = inl (a, refl)
Result-cases (error e) = inr (e, refl)

module _ {S A B : Type 0} where
  -- A chain that returned has passed its first call.
  pub and_then-inv :
      (x : Result A × S) (k : A → Async S B) (b : B)
      → (and_then x k).0 ≡ ok b
      → (a : A) × (x.0 ≡ ok a) × (and_then x k ≡ k a x.1) × ((k a x.1).0 ≡ ok b)
  and_then-inv (ok a, s) k b h = (a, refl, refl, h)
  and_then-inv (error e, s) k b h = cc

  pub and_then-ok :
      (x : Result A × S) (k : A → Async S B) (a : A) → x.0 ≡ ok a → and_then x k ≡ k a x.1
  and_then-ok (ok b, s) k a h = ap (λ c. k c s) (ok-injective h)
  and_then-ok (error e, s) k a h = cc

  pub and_then-error :
      (x : Result A × S) (k : A → Async S B) (e : JsError)
      → x.0 ≡ error e
      → and_then x k ≡ (error e, x.1)
  and_then-error (ok b, s) k e h = cc
  and_then-error (error d, s) k e h = ground arith

-- A field of the state that both parts of a chain keep is kept by the chain.
pub and_then-keeps :
    {S A B : Type 0} {V : Type 0} (field : S → V) (v : V) (x : Result A × S) (k : A → Async S B)
    → field x.1 ≡ v
    → ((a : A) (s : S) → field s ≡ v → field (k a s).1 ≡ v)
    → field (and_then x k).1 ≡ v
and_then-keeps field v (ok a, s) k h keeps = keeps a s h
and_then-keeps field v (error e, s) k h keeps = h

-- What holds of the state before a chain and is kept by its calls holds of the state after it.
pub and_then-invariant :
    {S A B : Type 0} (P : S → Type 0) (x : Result A × S) (k : A → Async S B)
    → P x.1
    → ((a : A) (s : S) → P s → P (k a s).1)
    → P (and_then x k).1
and_then-invariant P (ok a, s) k h keeps = keeps a s h
and_then-invariant P (error e, s) k h keeps = h

pub handle_with-ok :
    {S A : Type 0} (x : Result A × S) (h : JsError → Async S A) (r : A)
    → x.0 ≡ ok r
    → handle_with x h ≡ x
handle_with-ok (ok a, s) h r e = refl
handle_with-ok (error d, s) h r e = cc

pub handle_with-error :
    {S A : Type 0} (x : Result A × S) (h : JsError → Async S A) (e : JsError)
    → x.0 ≡ error e
    → handle_with x h ≡ h e x.1
handle_with-error (ok a, s) h e f = cc
handle_with-error (error d, s) h e f = ap (λ c. h c s) (error-injective f)

-- A `try` that returned has returned from its body, or from its handler.
pub handle_with-inv :
    {S A : Type 0} (x : Result A × S) (h : JsError → Async S A) (r : A)
    → (handle_with x h).0 ≡ ok r
    → (x.0 ≡ ok r) ⊎ ((e : JsError) × (x.0 ≡ error e) × ((h e x.1).0 ≡ ok r))
handle_with-inv (ok a, s) h r e = inl e
handle_with-inv (error d, s) h r e = inr (d, refl, e)

-- A handler that writes nothing leaves what its body has left.
pub handle_with-state :
    {S A : Type 0} (x : Result A × S) (h : JsError → Async S A)
    → ((e : JsError) (s : S) → (h e s).1 ≡ s)
    → (handle_with x h).1 ≡ x.1
handle_with-state (ok a, s) h still = refl
handle_with-state (error e, s) h still = still e s
