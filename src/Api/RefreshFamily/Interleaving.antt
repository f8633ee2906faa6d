-- ===== src/Api/RefreshFamily/Interleaving.antt =====
-- Requests that overlap: `rotate` reads the row and writes it in two statements, and the gateway
-- rotates a token and records its successor in two requests.
use fullstack_starter.Prelude.{
  ℕ, String, ◌≡◌, ◌≢◌, refl, sym, ◌∙◌, ap, subst, Bool, false, Bool-cases, inl, inr, Option, none,
  some, arith, is_some, if◌then◌else◌, eqb, eqb_iff, eq_iff,
}
use fullstack_starter.Async.{Async, ok, reads, pure, ◌>>=◌, and_then-ok}
use fullstack_starter.Api.Model.{Model, ModelLaws}
use fullstack_starter.Api.RefreshFamily.{
  RefreshRow, RecordRefreshInput, fresh_row, has_jti, use_row, is_active_in, revoke_row,
  revoke_family, record_token, save_used, rotate_row, rotate, rotated, reused_revoked,
  family_revoked, not_found, RotateOutcome,
}
use fullstack_starter.Api.RefreshFamily.Branches.{
  rotate_row-revoked, rotate_row-used, rotate_row-fresh,
}
use fullstack_starter.Api.RefreshFamily.Spent.{key, UniqueJti, here, next, recorded}
use fullstack_starter.Api.RefreshFamily.Reuse.{revoke_family_final}

-- The database answers every query and executes every update.
pub record Works {S : Type 0} (tokens : Model S RefreshRow) : Type 0 where
  pub reads_answer :
      (p : RefreshRow → Bool) (s : S) → (x : Option RefreshRow) × (tokens.find_one p s ≡ ok x)
  pub writes_answer :
      (p : RefreshRow → Bool) (f : RefreshRow → RefreshRow) (s : S)
      → (n : ℕ) × ((tokens.update p f s).0 ≡ ok n)

-- the answer for the row that the query finds
abbrev expected : Option RefreshRow → RotateOutcome
expected none = not_found
expected (some row) =
    if is_some row.revoked_at
    then family_revoked row.user_id row.family_id
    else if row.used
    then reused_revoked row.user_id row.family_id
    else rotated row.user_id row.family_id row.jti

module _ {S : Type 0} (tokens : Model S RefreshRow) where
  -- two requests with one token, one after the other
  unfoldable pub one_after_other : ℕ → ℕ → String → Async S (RotateOutcome × RotateOutcome)
  one_after_other now later jti = do
    first ← rotate tokens now jti
    second ← rotate tokens later jti
    pure (first, second)

  -- the writes of two requests, for the rows that they have found
  unfoldable pub write_both :
      ℕ → ℕ → Option RefreshRow → Option RefreshRow → Async S (RotateOutcome × RotateOutcome)
  write_both now later row again = do
    first ← rotate_row tokens now row
    second ← rotate_row tokens later again
    pure (first, second)

  -- the same two, where the second queries the row before the first has written it
  unfoldable pub both_read_first : ℕ → ℕ → String → Async S (RotateOutcome × RotateOutcome)
  both_read_first now later jti = do
    row ← reads (tokens.find_one (has_jti jti))
    again ← reads (tokens.find_one (has_jti jti))
    write_both now later row again

module _ {S : Type 0} {tokens : Model S RefreshRow} (laws : ModelLaws key tokens) where
  -- A query for a token finds its row.
  find_one-stored :
      (s : S) (i : ℕ) (row : RefreshRow) (x : Option RefreshRow)
      → UniqueJti tokens s
      → tokens.view s i ≡ some row
      → tokens.find_one (has_jti row.jti) s ≡ ok x
      → x ≡ some row
  find_one-stored s i row none unique stored answered =
      let missed = laws.find_none (has_jti row.jti) s i row answered stored in
      ground (arith, eq_iff row.jti row.jti)
  find_one-stored s i row (some q) unique stored answered =
      let (there, named) = laws.find_some (has_jti row.jti) s q answered in
      let at_index = unique q.id i q row there stored ((eq_iff _ _).0 named) in
      sym there ∙ ap (tokens.view s) at_index ∙ stored

  record_token-stored :
      (input : RecordRefreshInput) (s : S) (row : RefreshRow)
      → (record_token tokens input s).0 ≡ ok row
      → (tokens.view (record_token tokens input s).1 row.id ≡ some row)
        × (row ≡ fresh_row input row.id)
  unfolding record_token
  record_token-stored input s row done = (
    laws.create_view (fresh_row input) s row row.id (λ k. refl) done
        ∙ ground (arith, eqb_iff row.id row.id),
    (laws.create_ok (fresh_row input) s row (λ k. refl) done).0,
  )

  -- The row that a statement has marked.
  save_used-stored :
      (row : RefreshRow) (s : S) (n : ℕ)
      → tokens.view s row.id ≡ some row
      → (save_used tokens row s).0 ≡ ok n
      → tokens.view (save_used tokens row s).1 row.id ≡ some (use_row row)
  unfolding save_used
  save_used-stored row s n stored done =
      rw (laws.update_view (λ r. eqb r.id row.id) use_row s n row.id (λ r. refl) done, stored)
        (ground (arith, eqb_iff row.id row.id))

module _ {S : Type 0} (tokens : Model S RefreshRow) (works : Works tokens) where
  rotate_row-expected :
      (now : ℕ) (x : Option RefreshRow) (s : S) → (rotate_row tokens now x s).0 ≡ ok (expected x)
  unfolding revoke_family save_used
  rotate_row-expected now none s = unfold rotate_row in refl
  rotate_row-expected now (some row) s = elim (Bool-cases (is_some row.revoked_at)) [
    | inl gone ↦ rw (rotate_row-revoked tokens now row s gone, gone)
    | inr live ↦ elim (Bool-cases row.used) [
      | inl again ↦
          let (n, done) = works.writes_answer (is_active_in row.family_id) (revoke_row now) s in
          ap (λ z. z.0) (rotate_row-used tokens now row s live again ∙ and_then-ok _ _ n done)
          ∙ rw (live, again)
      | inr fresh ↦
          let (n, done) = works.writes_answer (λ r. eqb r.id row.id) use_row s in
          ap (λ z. z.0) (rotate_row-fresh tokens now row s live fresh ∙ and_then-ok _ _ n done)
          ∙ rw (live, fresh)
    ]
  ]

  rotate-found :
      (now : ℕ) (jti : String) (s : S) (x : Option RefreshRow)
      → tokens.find_one (has_jti jti) s ≡ ok x
      → rotate tokens now jti s ≡ rotate_row tokens now x s
  unfolding rotate
  rotate-found now jti s x answered =
      and_then-ok (tokens.find_one (has_jti jti) s, s) (rotate_row tokens now) x answered

  rotate-answer :
      (now : ℕ) (jti : String) (s : S) (x : Option RefreshRow)
      → tokens.find_one (has_jti jti) s ≡ ok x
      → (rotate tokens now jti s).0 ≡ ok (expected x)
  rotate-answer now jti s x answered =
      ap (λ z. z.0) (rotate-found now jti s x answered) ∙ rotate_row-expected now x s

  write_both-answers :
      (now later : ℕ) (x y : Option RefreshRow) (s : S)
      → (write_both tokens now later x y s).0 ≡ ok (expected x, expected y)
  unfolding write_both
  write_both-answers now later x y s =
      let after = (rotate_row tokens now x s).1 in
      ap (λ z. z.0)
        (and_then-ok (rotate_row tokens now x s) _ (expected x) (rotate_row-expected now x s)
          ∙ and_then-ok (rotate_row tokens later y after) _ (expected y)
              (rotate_row-expected later y after))

  both_read_first-answers :
      (now later : ℕ) (jti : String) (s : S) (x : Option RefreshRow)
      → tokens.find_one (has_jti jti) s ≡ ok x
      → (both_read_first tokens now later jti s).0 ≡ ok (expected x, expected x)
  unfolding both_read_first
  both_read_first-answers now later jti s x answered =
      ap (λ z. z.0)
        (and_then-ok (tokens.find_one (has_jti jti) s, s) _ x answered
          ∙ and_then-ok (tokens.find_one (has_jti jti) s, s) (write_both tokens now later x) x
              answered)
      ∙ write_both-answers now later x x s

  one_after_other-answers :
      (now later : ℕ) (jti : String) (s : S) (x y : Option RefreshRow)
      → tokens.find_one (has_jti jti) s ≡ ok x
      → tokens.find_one (has_jti jti) (rotate tokens now jti s).1 ≡ ok y
      → (one_after_other tokens now later jti s).0 ≡ ok (expected x, expected y)
  unfolding one_after_other
  one_after_other-answers now later jti s x y first second =
      let after = (rotate tokens now jti s).1 in
      ap (λ z. z.0)
        (and_then-ok (rotate tokens now jti s) _ (expected x) (rotate-answer now jti s x first)
          ∙ and_then-ok (rotate tokens later jti after) _ (expected y)
              (rotate-answer later jti after y second))

module _ {S : Type 0} {tokens : Model S RefreshRow} (laws : ModelLaws key tokens)
    (works : Works tokens) where
  -- the row that a later query finds after a live one was rotated
  rotate-marks :
      (now : ℕ) (jti : String) (s : S) (row : RefreshRow) (y : Option RefreshRow)
      → tokens.find_one (has_jti jti) s ≡ ok (some row)
      → row.used ≡ false
      → is_some row.revoked_at ≡ false
      → UniqueJti tokens (rotate tokens now jti s).1
      → tokens.find_one (has_jti jti) (rotate tokens now jti s).1 ≡ ok y
      → y ≡ some (use_row row)
  unfolding save_used
  rotate-marks now jti s row y found fresh live unique answered =
      let (there, named) = laws.find_some (has_jti jti) s row found in
      let same : row.jti ≡ jti = (eq_iff _ _).0 named in
      let (n, done) = works.writes_answer (λ r. eqb r.id row.id) use_row s in
      let step =
        ap (λ z. z.1)
          (rotate-found tokens works now jti s (some row) found
            ∙ rotate_row-fresh tokens now row s live fresh
            ∙ and_then-ok _ _ n done) in
      let marked = ap (λ t. tokens.view t row.id) step ∙ save_used-stored laws row s n there done in
      find_one-stored laws (rotate tokens now jti s).1 row.id (use_row row) y unique marked (
        subst (λ j. tokens.find_one (has_jti j) (rotate tokens now jti s).1 ≡ ok y) (sym same)
          answered)

  -- Two requests with one live token: one after the other, the first is answered `rotated` and the
  -- second is detected as a reuse; but if both query its row before either writes, both are answered
  -- `rotated`. The database answers, and keeps `jti` unique.
  pub overlapping_rotations :
      (now later : ℕ) (jti : String) (s : S) (row : RefreshRow)
      → tokens.find_one (has_jti jti) s ≡ ok (some row)
      → row.used ≡ false
      → is_some row.revoked_at ≡ false
      → UniqueJti tokens (rotate tokens now jti s).1
      → ((one_after_other tokens now later jti s).0
          ≡ ok
              (rotated row.user_id row.family_id row.jti, reused_revoked row.user_id row.family_id))
        × ((both_read_first tokens now later jti s).0
            ≡ ok (
              rotated row.user_id row.family_id row.jti,
              rotated row.user_id row.family_id row.jti,
            ))
  overlapping_rotations now later jti s row found fresh live unique =
      let (y, answered) = works.reads_answer (has_jti jti) (rotate tokens now jti s).1 in
      let marked = rotate-marks now jti s row y found fresh live unique answered in
      (
        one_after_other-answers tokens works now later jti s (some row) y found answered
            ∙ rw (marked, live, fresh),
        both_read_first-answers tokens works now later jti s (some row) found ∙ rw (live, fresh),
      )

  -- A successor that the gateway records after its family was revoked outlives the revocation: no
  -- token of the family that stood in the table is rotated any more, and the successor is. The
  -- database answers, and keeps `jti` unique.
  pub record_after_revoke :
      (now later : ℕ) (input : RecordRefreshInput) (s : S) (row : RefreshRow)
      → let revoked = (revoke_family tokens now input.family_id s).1 in
        let inserted = record_token tokens input revoked in
        inserted.0 ≡ ok row
        → UniqueJti tokens inserted.1
        → ((i : ℕ) (r : RefreshRow) (v : ℕ) (g q : String)
            → tokens.view s i ≡ some r
            → r.family_id ≡ input.family_id
            → (rotate tokens later r.jti inserted.1).0 ≢ ok (rotated v g q))
          × ((rotate tokens later input.jti inserted.1).0
              ≡ ok (rotated input.user_id input.family_id input.jti))
  unfolding revoke_family
  record_after_revoke now later input s row inserted unique =
      let f = input.family_id in
      let middle = (revoke_family tokens now f s).1 in
      let end = (record_token tokens input middle).1 in
      let (n, done) = works.writes_answer (is_active_in f) (revoke_row now) s in
      let (stored, same) = record_token-stored laws input middle row inserted in
      let named : row.jti ≡ input.jti = ap (λ r. r.jti) same in
      let (x, answered) = works.reads_answer (has_jti input.jti) end in
      let found =
        find_one-stored laws end row.id row x unique stored
          (subst (λ j. tokens.find_one (has_jti j) end ≡ ok x) (sym named) answered) in
      (
        λ i r v g q there in_family.
            revoke_family_final laws now later f s end n i v r g q done there in_family
              (next here (recorded input middle)) unique,
        rotate-answer tokens works later input.jti end x answered
            ∙ ap (λ y. ok (expected y)) (found ∙ ap some same),
      )
