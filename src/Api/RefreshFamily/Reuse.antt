-- ===== src/Api/RefreshFamily/Reuse.antt =====
-- What rotation answers, and that a token is rotated at most once: single use, detection of reuse
-- and revocation of a family, whatever the service does afterwards.
use fullstack_starter.Prelude.{
  subst, some_cancel, ℕ, String, ◌≡◌, ◌≢◌, refl, sym, ◌∙◌, ap, inl, inr, false, Bool-cases, Option,
  none, some, arith, is_some, if◌then◌else◌, eqb, eqb_iff, eq_iff,
}
use fullstack_starter.Async.{ok, and_then-inv, ok-injective}
use fullstack_starter.Api.Model.{Model, ModelLaws}
use fullstack_starter.Api.RefreshFamily.{
  RefreshRow, use_row, revoke_row, is_active_in, has_jti, revoke_family, save_used, rotate_row,
  rotate, rotated, reused_revoked, RotateOutcome,
}
use fullstack_starter.Api.RefreshFamily.Branches.{
  rotate_row-revoked, rotate_row-used, rotate_row-fresh,
}
use fullstack_starter.Api.RefreshFamily.Spent.{key, UniqueJti, IsDead, IsSpent, Run, Run-IsSpent}

outcome_family : String → RotateOutcome → String
outcome_family d (reused_revoked u f) = f
outcome_family d o = d

not_dead : (r : RefreshRow) → IsDead r → r.used ≡ false → is_some r.revoked_at ≡ false → ⊥
not_dead r dead fresh live = ground arith

module _ {S : Type 0} {tokens : Model S RefreshRow} (laws : ModelLaws key tokens) where
  -- After its family was revoked, a token that stood in the table is spent.
  pub revoke_family-IsSpent :
      (now : ℕ) (f : String) (s : S) (n i : ℕ) (row : RefreshRow)
      → (revoke_family tokens now f s).0 ≡ ok n
      → tokens.view s i ≡ some row
      → row.family_id ≡ f
      → IsSpent tokens (revoke_family tokens now f s).1 row.jti
  unfolding revoke_family
  revoke_family-IsSpent now f s n i row done stored in_family = record {
    index = i;
    row = if is_active_in f row then revoke_row now row else row;
    stored = rw (laws.update_view (is_active_in f) (revoke_row now) s n i (λ r. refl) done, stored);
    same = ground arith;
    dead = ground (arith, eq_iff row.family_id f);
  }

  -- What a successful rotation of a row tells of it.
  record IsRotation (x : Option RefreshRow) (s t : S) (o : RotateOutcome) : Type 0 where
    row : RefreshRow
    found : x ≡ some row
    live : is_some row.revoked_at ≡ false
    fresh : row.used ≡ false
    affected : ℕ
    saved : (save_used tokens row s).0 ≡ ok affected
    state : t ≡ (save_used tokens row s).1
    answer : o ≡ rotated row.user_id row.family_id row.jti

  rotate_row-IsRotation :
      (now : ℕ) (x : Option RefreshRow) (s : S) (u : ℕ) (f p : String)
      → (rotate_row tokens now x s).0 ≡ ok (rotated u f p)
      → IsRotation x s (rotate_row tokens now x s).1 (rotated u f p)
  rotate_row-IsRotation now none s u f p e = unfold rotate_row in cc
  rotate_row-IsRotation now (some row) s u f p e = elim (Bool-cases (is_some row.revoked_at)) [
    | inl gone ↦ cc (rotate_row-revoked tokens now row s gone)
    | inr live ↦ elim (Bool-cases row.used) [
      | inl again ↦ ground (arith, rotate_row-used tokens now row s live again)
      | inr fresh ↦
          let step = rotate_row-fresh tokens now row s live fresh in
          let (n, saved, after, same) = and_then-inv _ _ _ (rw step at e) in
          record {
            row = row;
            found = refl;
            live = live;
            fresh = fresh;
            affected = n;
            saved = saved;
            state = ap (λ z. z.1) (step ∙ after);
            answer = sym (ok-injective same);
          }
    ]
  ]

  rotate_row-reused :
      (now : ℕ) (x : Option RefreshRow) (s : S) (u : ℕ) (f : String)
      → (rotate_row tokens now x s).0 ≡ ok (reused_revoked u f)
      → (n : ℕ) × ((revoke_family tokens now f s).0 ≡ ok n)
        × ((rotate_row tokens now x s).1 ≡ (revoke_family tokens now f s).1)
  unfolding outcome_family
  rotate_row-reused now none s u f e = unfold rotate_row in cc
  rotate_row-reused now (some row) s u f e = elim (Bool-cases (is_some row.revoked_at)) [
    | inl gone ↦ cc (rotate_row-revoked tokens now row s gone)
    | inr live ↦ elim (Bool-cases row.used) [
      | inl again ↦
          let step = rotate_row-used tokens now row s live again in
          let (n, done, after, same) = and_then-inv _ _ _ (rw step at e) in
          let in_family : row.family_id ≡ f = ap (outcome_family f) (ok-injective same) in
          subst
            (λ g.
              (n : ℕ) × ((revoke_family tokens now g s).0 ≡ ok n)
              × ((rotate_row tokens now (some row) s).1 ≡ (revoke_family tokens now g s).1))
            in_family (n, done, ap (λ z. z.1) (step ∙ after))
      | inr fresh ↦ ground (arith, rotate_row-fresh tokens now row s live fresh)
    ]
  ]

  -- The row that a statement has just marked is spent.
  save_used-IsSpent :
      (row : RefreshRow) (s : S) (n : ℕ)
      → tokens.view s row.id ≡ some row
      → (save_used tokens row s).0 ≡ ok n
      → IsSpent tokens (save_used tokens row s).1 row.jti
  unfolding save_used
  save_used-IsSpent row s n stored done = record {
    index = row.id;
    row = use_row row;
    stored =
        rw (laws.update_view (λ r. eqb r.id row.id) use_row s n row.id (λ r. refl) done, stored)
          (ground (arith, eqb_iff row.id row.id));
    same = refl;
    dead = inl refl;
  }

  -- What a successful rotation tells of the table, read at its query.
  pub record IsLiveRow (jti : String) (s : S) (o : RotateOutcome) : Type 0 where
    pub row : RefreshRow
    pub stored : tokens.view s row.id ≡ some row
    pub named : row.jti ≡ jti
    pub live : is_some row.revoked_at ≡ false
    pub fresh : row.used ≡ false
    pub affected : ℕ
    pub saved : (save_used tokens row s).0 ≡ ok affected
    pub answer : o ≡ rotated row.user_id row.family_id row.jti

  rotate_found :
      (now : ℕ) (jti : String) (s : S) (u : ℕ) (f p : String)
      → (rotate tokens now jti s).0 ≡ ok (rotated u f p)
      → (r : IsLiveRow jti s (rotated u f p)) × ((rotate tokens now jti s).1
          ≡ (save_used tokens r.row s).1)
  unfolding rotate
  rotate_found now jti s u f p e =
      let (x, answered, after, same) =
        and_then-inv (tokens.find_one (has_jti jti) s, s) (rotate_row tokens now) _ e in
      let r = rotate_row-IsRotation now x s u f p same in
      let (stored, matched) = laws.find_some (has_jti jti) s r.row (answered ∙ ap ok r.found) in
      (
        record {
          row = r.row;
          stored = stored;
          named = (eq_iff _ _).0 matched;
          live = r.live;
          fresh = r.fresh;
          affected = r.affected;
          saved = r.saved;
          answer = r.answer;
        },
        ap (λ z. z.1) after ∙ r.state,
      )

  -- A rotation that succeeded leaves the token spent.
  pub rotate-IsSpent :
      (now : ℕ) (jti : String) (s : S) (u : ℕ) (f p : String)
      → (rotate tokens now jti s).0 ≡ ok (rotated u f p)
      → IsSpent tokens (rotate tokens now jti s).1 jti
  rotate-IsSpent now jti s u f p e =
      let (r, state) = rotate_found now jti s u f p e in
      rw state
        (subst (IsSpent tokens _) r.named (save_used-IsSpent r.row s r.affected r.stored r.saved))

  -- A spent token is not rotated.
  pub rotate-ne-rotated :
      (now : ℕ) (jti : String) (s : S) (u : ℕ) (f p : String)
      → UniqueJti tokens s
      → IsSpent tokens s jti
      → (rotate tokens now jti s).0 ≢ ok (rotated u f p)
  rotate-ne-rotated now jti s u f p unique h e =
      let (r, state) = rotate_found now jti s u f p e in
      let at_index = unique r.row.id h.index r.row h.row r.stored h.stored (r.named ∙ sym h.same) in
      let one : r.row ≡ h.row =
        some_cancel (sym r.stored ∙ ap (tokens.view s) at_index ∙ h.stored) in
      not_dead h.row h.dead (rw one at r.fresh) (rw one at r.live)

  -- A refresh token is rotated at most once: after a rotation that succeeded, no later rotation of
  -- the same token does, whatever statements of any requests were issued in between.
  pub rotate_once :
      (now later : ℕ) (jti : String) (s t : S) (u v : ℕ) (f g p q : String)
      → (rotate tokens now jti s).0 ≡ ok (rotated u f p)
      → Run tokens (rotate tokens now jti s).1 t
      → UniqueJti tokens t
      → (rotate tokens later jti t).0 ≢ ok (rotated v g q)
  rotate_once now later jti s t u v f g p q e run unique =
      rotate-ne-rotated later jti t v g q unique
        (Run-IsSpent laws run (rotate-IsSpent now jti s u f p e))

  -- What the detection of a reuse tells: a used row, and a revocation of its family.
  reuse_found :
      (now : ℕ) (jti : String) (s : S) (u : ℕ) (f : String)
      → (rotate tokens now jti s).0 ≡ ok (reused_revoked u f)
      → (n : ℕ) × ((revoke_family tokens now f s).0 ≡ ok n)
        × ((rotate tokens now jti s).1 ≡ (revoke_family tokens now f s).1)
  unfolding rotate
  reuse_found now jti s u f e =
      let (x, answered, after, same) =
        and_then-inv (tokens.find_one (has_jti jti) s, s) (rotate_row tokens now) _ e in
      let (n, done, state) = rotate_row-reused now x s u f same in
      (n, done, ap (λ z. z.1) after ∙ state)

  -- After a family was revoked, no token of it that stood in the table is ever rotated again,
  -- whatever statements of any requests were issued in between.
  pub revoke_family_final :
      (now later : ℕ) (family_id : String) (s t : S) (n i v : ℕ) (row : RefreshRow) (g q : String)
      → (revoke_family tokens now family_id s).0 ≡ ok n
      → tokens.view s i ≡ some row
      → row.family_id ≡ family_id
      → Run tokens (revoke_family tokens now family_id s).1 t
      → UniqueJti tokens t
      → (rotate tokens later row.jti t).0 ≢ ok (rotated v g q)
  revoke_family_final now later f s t n i v row g q done stored in_family run unique =
      rotate-ne-rotated later row.jti t v g q unique
        (Run-IsSpent laws run (revoke_family-IsSpent now f s n i row done stored in_family))

  -- The second presentation of a token that was rotated ends its family: after `reused-revoked` no
  -- token of the family that stood in the table is ever rotated again, whatever statements of any
  -- requests were issued in between.
  pub reuse_final :
      (now later : ℕ) (jti family_id : String) (s t : S) (u i v : ℕ) (row : RefreshRow)
      (g q : String)
      → (rotate tokens now jti s).0 ≡ ok (reused_revoked u family_id)
      → tokens.view s i ≡ some row
      → row.family_id ≡ family_id
      → Run tokens (rotate tokens now jti s).1 t
      → UniqueJti tokens t
      → (rotate tokens later row.jti t).0 ≢ ok (rotated v g q)
  reuse_final now later jti f s t u i v row g q e stored in_family run unique =
      let (n, done, state) = reuse_found now jti s u f e in
      revoke_family_final now later f s t n i v row g q done stored in_family
        (subst (λ z. Run tokens z t) state run) unique
