-- ===== src/Api/MemoryModel.antt =====
-- A table in memory, a list of rows with the newest first, which meets the laws of a model. It shows
-- that the laws can hold, and runs the examples.
use fullstack_starter.Prelude.{
  ℕ, suc, ◌+◌, ◌≤◌, ◌≡◌, refl, sym, ◌∙◌, ap, inl, inr, Bool, true, false, Bool-cases, Option, none,
  some, List, [], ◌∷◌, any, arith, if◌then◌else◌, eqb, eqb_iff, map_option, subst, some_cancel,
  Option-cases,
}
use fullstack_starter.Async.{Result, ok, error, JsError, unique_constraint, ok-injective}
use fullstack_starter.Api.Model.{Model, ModelLaws}

module _ {Row : Type 0} (id_of : Row → ℕ) where
  unfoldable pub lookup : List Row → ℕ → Option Row
  lookup [] i = none
  lookup (r ∷ rs) i = if eqb i (id_of r) then some r else lookup rs i

  -- above every key
  unfoldable pub next_id : List Row → ℕ
  next_id [] = 1
  next_id (r ∷ rs) = suc (id_of r + next_id rs)

  -- the rows of the second list, read in the first, that pass the test
  unfoldable pub scan : (Row → Bool) → List Row → List Row → Option Row
  scan p rows [] = none
  scan p rows (r ∷ rs) = elim (lookup rows (id_of r)) [
    | none ↦ scan p rows rs
    | some q ↦ if p q then some q else scan p rows rs
  ]

  unfoldable pub tally : (Row → Bool) → List Row → List Row → ℕ
  tally p rows [] = 0
  tally p rows (r ∷ rs) = elim (lookup rows (id_of r)) [
    | none ↦ tally p rows rs
    | some q ↦ if p q then suc (tally p rows rs) else tally p rows rs
  ]

  lookup-key : (rows : List Row) (i : ℕ) (r : Row) → lookup rows i ≡ some r → id_of r ≡ i
  unfolding lookup
  lookup-key [] i r h = cc
  lookup-key (q ∷ rs) i r h = elim (Bool-cases (eqb i (id_of q))) [
    | inl here ↦ ap id_of (some_cancel (sym (rw here at h))) ∙ sym ((eqb_iff _ _).0 here)
    | inr later ↦ lookup-key rs i r (rw later at h)
  ]

  lookup-next_id : (rows : List Row) (i : ℕ) → next_id rows ≤ i → lookup rows i ≡ none
  unfolding lookup next_id
  lookup-next_id [] i h = refl
  lookup-next_id (r ∷ rs) i h = ground (arith, lookup-next_id rs i, eqb_iff i (id_of r))

  scan-some :
      (p : Row → Bool) (rows l : List Row) (r : Row)
      → scan p rows l ≡ some r
      → (lookup rows (id_of r) ≡ some r) × (p r ≡ true)
  unfolding scan
  scan-some p rows [] r h = cc
  scan-some p rows (x ∷ l) r h = elim (Option-cases (lookup rows (id_of x))) [
    | inl gone ↦ scan-some p rows l r (rw (gone, scan) at h)
    | inr (q, found) ↦ elim (Bool-cases (p q)) [
      | inl hit ↦
          let one : q ≡ r = some_cancel (rw (found, scan, hit) at h) in
          subst (λ z. (lookup rows (id_of z) ≡ some z) × (p z ≡ true)) one
            (ap (lookup rows) (lookup-key rows (id_of x) q found) ∙ found, hit)
      | inr missed ↦ scan-some p rows l r (rw (found, scan, missed) at h)
    ]
  ]

  scan_tail :
      (p : Row → Bool) (rows : List Row) (x : Row) (l : List Row)
      → scan p rows (x ∷ l) ≡ none
      → scan p rows l ≡ none
  unfolding scan
  scan_tail p rows x l h = ground arith

  -- What a query that finds nothing tells of a row that stands in the list.
  scan-none :
      (p : Row → Bool) (rows l : List Row) (i : ℕ) (r q : Row)
      → scan p rows l ≡ none
      → lookup l i ≡ some q
      → lookup rows i ≡ some r
      → p r ≡ false
  unfolding scan lookup
  scan-none p rows [] i r q h there found = cc
  scan-none p rows (x ∷ l) i r q h there found = elim (Bool-cases (eqb i (id_of x))) [
    | inl here ↦
        let at_x : lookup rows (id_of x) ≡ some r =
          ap (lookup rows) (sym ((eqb_iff _ _).0 here)) ∙ found in
        elim (Bool-cases (p r)) [ inl hit ↦ cc (rw (at_x, scan, hit) at h) | inr missed ↦ missed ]
    | inr later ↦ scan-none p rows l i r q (scan_tail p rows x l h) (rw later at there) found
  ]

  -- The keys of the table are as many as its rows, or some rows are shadowed; a count is positive
  -- exactly where a query finds a row.
  tally_zero : (p : Row → Bool) (rows l : List Row) → tally p rows l ≡ 0 → scan p rows l ≡ none
  unfolding scan tally
  tally_zero p rows [] h = refl
  tally_zero p rows (x ∷ l) h = ground (arith, tally_zero p rows l)

  tally-suc :
      (p : Row → Bool) (rows l : List Row) (n : ℕ)
      → tally p rows l ≡ suc n
      → (r : Row) × (scan p rows l ≡ some r)
  unfolding scan tally
  tally-suc p rows [] n h = absurd (omega arith)
  tally-suc p rows (x ∷ l) n h = elim (Option-cases (lookup rows (id_of x))) [
    | inl gone ↦ rw (gone, scan) (tally-suc p rows l n (rw (gone, tally) at h))
    | inr (q, found) ↦ elim (Bool-cases (p q)) [
      | inl hit ↦ (q, rw (found, scan, hit))
      | inr missed ↦
          rw (found, scan, missed) (tally-suc p rows l n (rw (found, tally, missed) at h))
    ]
  ]

  unfoldable pub rewrite_rows : (Row → Bool) → (Row → Row) → List Row → List Row
  rewrite_rows p f [] = []
  rewrite_rows p f (r ∷ rs) = (if p r then f r else r) ∷ rewrite_rows p f rs

  lookup-rewrite_rows :
      (p : Row → Bool) (f : Row → Row) (rows : List Row) (i : ℕ)
      → ((r : Row) → id_of (f r) ≡ id_of r)
      → lookup (rewrite_rows p f rows) i ≡ map_option (λ r. if p r then f r else r) (lookup rows i)
  unfolding lookup rewrite_rows
  lookup-rewrite_rows p f [] i same = refl
  lookup-rewrite_rows p f (r ∷ rs) i same =
      ground (arith, lookup-rewrite_rows p f rs i same, same r)

  -- the error of a UNIQUE constraint
  abbrev duplicate : JsError
  duplicate = record { kind = unique_constraint; message = "Validation error"; status_code = none }

  -- `clash old new` is the UNIQUE constraint.
  unfoldable pub insert_row : (Row → Row → Bool) → Row → List Row → Result Row × List Row
  insert_row clash r rows =
      if any (λ q. clash q r) rows then (error duplicate, rows) else (ok r, r ∷ rows)

  abbrev pub memory_model : (Row → Row → Bool) → Model (List Row) Row
  memory_model clash = record {
    view = lookup;
    find_one = λ p rows. ok (scan p rows rows);
    count = λ p rows. ok (tally p rows rows);
    create = λ mk rows. insert_row clash (mk (next_id rows)) rows;
    update = λ p f rows. (ok (tally p rows rows), rewrite_rows p f rows);
  }

  insert_row-ok :
      (clash : Row → Row → Bool) (x : Row) (rows : List Row) (r : Row)
      → (insert_row clash x rows).0 ≡ ok r
      → (x ≡ r) × ((insert_row clash x rows).1 ≡ x ∷ rows)
  unfolding insert_row
  insert_row-ok clash x rows r h = elim (Bool-cases (any (λ q. clash q x) rows)) [
    | inl taken ↦ cc (rw taken at h)
    | inr free ↦ (ok-injective (rw free at h), rw free)
  ]

  insert_row-error :
      (clash : Row → Row → Bool) (x : Row) (rows : List Row) (e : JsError)
      → (insert_row clash x rows).0 ≡ error e
      → (insert_row clash x rows).1 ≡ rows
  unfolding insert_row
  insert_row-error clash x rows e h = ground arith

  pub memory_laws : (clash : Row → Row → Bool) → ModelLaws id_of (memory_model clash)
  memory_laws clash = record {
    view_key = lookup-key;
    find_none = λ p s i r h there. scan-none p s s i r r (ok-injective h) there there;
    find_some = λ p s r h. scan-some p s s r (ok-injective h);
    count_zero =
        λ p s i r h there. scan-none p s s i r r (tally_zero p s s (ok-injective h)) there there;
    count_suc = λ p s n h.
        let (r, found) = tally-suc p s s n (ok-injective h) in
        let (there, hit) = scan-some p s s r found in (r, there, hit);
    create_ok = λ mk s r same h.
        let (made, _) = insert_row-ok clash (mk (next_id s)) s r h in
        let at_key : id_of r ≡ next_id s = ap id_of (sym made) ∙ same (next_id s) in
        (sym made ∙ ap mk (sym at_key), lookup-next_id s (id_of r) (omega (arith, at_key)));
    create_view = λ mk s r i same h.
        let (made, state) = insert_row-ok clash (mk (next_id s)) s r h in
        rw (state, made) (unfold lookup in refl);
    create_failed =
        λ mk s e i h. ap (λ rows. lookup rows i) (insert_row-error clash (mk (next_id s)) s e h);
    update_view = λ p f s n i same h. lookup-rewrite_rows p f s i same;
    update_failed = λ p f s e i h. cc;
  }
