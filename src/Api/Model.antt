-- ===== src/Api/Model.antt =====
-- What the api uses of a Sequelize model: a table whose rows have a numeric primary key. The table
-- stands behind an interface, as the database is no code of the repository. `S` is the state of the
-- database, and `view s i` the row with key `i`.
use fullstack_starter.Prelude.{
  ℕ, suc, ◌≡◌, Bool, true, false, Option, none, some, if◌then◌else◌, eqb, map_option,
}
use fullstack_starter.Async.{Result, ok, error, JsError}

-- The calls. A `where` clause is a test on rows, a set of new values a function on rows.
pub record Model (S Row : Type 0) : Type 0 where
  pub view : S → ℕ → Option Row
  pub find_one : (Row → Bool) → S → Result (Option Row)
  pub count : (Row → Bool) → S → Result ℕ
  pub create : (ℕ → Row) → S → Result Row × S
  pub update : (Row → Bool) → (Row → Row) → S → Result ℕ × S

-- What the program relies on: a query answers from the rows, a statement that fails changes none.
pub record ModelLaws {S Row : Type 0} (id_of : Row → ℕ) (m : Model S Row) : Type 0 where
  pub view_key : (s : S) (i : ℕ) (r : Row) → m.view s i ≡ some r → id_of r ≡ i
  pub find_none :
      (p : Row → Bool) (s : S) (i : ℕ) (r : Row)
      → m.find_one p s ≡ ok none
      → m.view s i ≡ some r
      → p r ≡ false
  pub find_some :
      (p : Row → Bool) (s : S) (r : Row)
      → m.find_one p s ≡ ok (some r)
      → (m.view s (id_of r) ≡ some r) × (p r ≡ true)
  pub count_zero :
      (p : Row → Bool) (s : S) (i : ℕ) (r : Row)
      → m.count p s ≡ ok 0
      → m.view s i ≡ some r
      → p r ≡ false
  pub count_suc :
      (p : Row → Bool) (s : S) (n : ℕ)
      → m.count p s ≡ ok (suc n)
      → (r : Row) × (m.view s (id_of r) ≡ some r) × (p r ≡ true)
  -- an insert takes a fresh key
  pub create_ok :
      (mk : ℕ → Row) (s : S) (r : Row)
      → ((i : ℕ) → id_of (mk i) ≡ i)
      → (m.create mk s).0 ≡ ok r
      → (r ≡ mk (id_of r)) × (m.view s (id_of r) ≡ none)
  pub create_view :
      (mk : ℕ → Row) (s : S) (r : Row) (i : ℕ)
      → ((k : ℕ) → id_of (mk k) ≡ k)
      → (m.create mk s).0 ≡ ok r
      → m.view (m.create mk s).1 i ≡ (if eqb i (id_of r) then some r else m.view s i)
  pub create_failed :
      (mk : ℕ → Row) (s : S) (e : JsError) (i : ℕ)
      → (m.create mk s).0 ≡ error e
      → m.view (m.create mk s).1 i ≡ m.view s i
  pub update_view :
      (p : Row → Bool) (f : Row → Row) (s : S) (n i : ℕ)
      → ((r : Row) → id_of (f r) ≡ id_of r)
      → (m.update p f s).0 ≡ ok n
      → m.view (m.update p f s).1 i ≡ map_option (λ r. if p r then f r else r) (m.view s i)
  pub update_failed :
      (p : Row → Bool) (f : Row → Row) (s : S) (e : JsError) (i : ℕ)
      → (m.update p f s).0 ≡ error e
      → m.view (m.update p f s).1 i ≡ m.view s i
