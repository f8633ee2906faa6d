-- ===== src/Api/Examples.antt =====
-- Runs of the api on tables in memory.
use fullstack_starter.Prelude.{
  ℕ, String, sym, ap, ◌∙◌, ◌⊎◌, inl, inr, Bool-cases, eqb, eq_iff, some_cancel, ◌≡◌, ◌≢◌, refl,
  true, false, none, some, List, [], ◌∷◌, arith, eqb_iff, ◌==◌,
}
use fullstack_starter.Async.{ok}
use fullstack_starter.Api.Model.{Model, ModelLaws}
use fullstack_starter.Api.MemoryModel.{
  memory_model, memory_laws, lookup, scan, tally, next_id, rewrite_rows, insert_row,
}
use fullstack_starter.Api.RefreshFamily.{
  RefreshRow, RecordRefreshInput, rotated, reused_revoked, use_row, record_token, revoke_family,
  save_used, rotate_row, rotate,
}
use fullstack_starter.Api.RefreshFamily.Spent.{key, UniqueJti, here}
use fullstack_starter.Api.RefreshFamily.Reuse.{rotate_once, reuse_final}
use fullstack_starter.Api.RefreshFamily.Interleaving.{
  Works, one_after_other, both_read_first, overlapping_rotations, record_after_revoke,
}

abbrev tokens : Model (List RefreshRow) RefreshRow
tokens = memory_model key (λ q r. q.jti == r.jti)

abbrev token_laws : ModelLaws key tokens
token_laws = memory_laws key (λ q r. q.jti == r.jti)

abbrev live_row : RefreshRow
live_row = record {
  id = 1;
  user_id = 7;
  family_id = "f";
  jti = "a";
  parent_jti = none;
  used = false;
  revoked_at = none;
}

abbrev live_rows : List RefreshRow
live_rows = live_row ∷ []

abbrev used_rows : List RefreshRow
used_rows = use_row live_row ∷ []

one_row-UniqueJti : (r : RefreshRow) → UniqueJti tokens (r ∷ [])
unfolding lookup
one_row-UniqueJti r i k x y at_i at_k same = ground (arith, eqb_iff i r.id, eqb_iff k r.id)

rotate_once_example :
    (rotate tokens 20 "a" (rotate tokens 10 "a" live_rows).1).0 ≢ ok (rotated 7 "f" "a")
unfolding rotate rotate_row save_used lookup scan tally rewrite_rows
rotate_once_example =
    rotate_once token_laws 10 20 "a" live_rows (rotate tokens 10 "a" live_rows).1 7 7 "f" "f" "a"
      "a" refl here (one_row-UniqueJti (use_row live_row))

reuse_final_example :
    (rotate tokens 20 "a" (rotate tokens 10 "a" used_rows).1).0 ≢ ok (rotated 7 "f" "a")
unfolding rotate rotate_row revoke_family lookup scan tally rewrite_rows
reuse_final_example =
    reuse_final token_laws 10 20 "a" "f" used_rows (rotate tokens 10 "a" used_rows).1 7 1 7
      (use_row live_row) "f" "a" refl refl refl here
      (one_row-UniqueJti (record live_row { used = true; revoked_at = some 10 }))

works : Works tokens
works = record {
  reads_answer = λ p s. (scan key p s s, refl);
  writes_answer = λ p f s. (tally key p s s, refl);
}

overlapping_rotations_example :
    ((one_after_other tokens 10 20 "a" live_rows).0 ≡ ok (rotated 7 "f" "a", reused_revoked 7 "f"))
    × ((both_read_first tokens 10 20 "a" live_rows).0 ≡ ok (rotated 7 "f" "a", rotated 7 "f" "a"))
unfolding rotate rotate_row save_used lookup scan tally rewrite_rows
overlapping_rotations_example =
    overlapping_rotations token_laws works 10 20 "a" live_rows live_row refl refl refl
      (one_row-UniqueJti (use_row live_row))

abbrev successor : RecordRefreshInput
successor = record { user_id = 7; family_id = "f"; jti = "b"; parent_jti = some "a" }

abbrev revoked_row : RefreshRow
revoked_row = record (use_row live_row) { revoked_at = some 10 }

abbrev new_row : RefreshRow
new_row = record {
  id = 3;
  user_id = 7;
  family_id = "f";
  jti = "b";
  parent_jti = some "a";
  used = false;
  revoked_at = none;
}

abbrev after_record : List RefreshRow
after_record = (record_token tokens successor (revoke_family tokens 10 "f" used_rows).1).1

two_rows :
    (r q x : RefreshRow) (i : ℕ)
    → tokens.view (r ∷ q ∷ []) i ≡ some x
    → ((i ≡ r.id) × (r ≡ x)) ⊎ ((i ≡ q.id) × (q ≡ x))
unfolding lookup
two_rows r q x i h = elim (Bool-cases (eqb i r.id)) [
  | inl first ↦ inl ((eqb_iff i r.id).0 first, some_cancel (rw first at h))
  | inr later ↦ elim (Bool-cases (eqb i q.id)) [
    | inl second ↦ inr ((eqb_iff i q.id).0 second, some_cancel (rw (later, second) at h))
    | inr gone ↦ cc (rw (later, gone) at h)
  ]
]

two_rows-UniqueJti : (r q : RefreshRow) → r.jti ≢ q.jti → UniqueJti tokens (r ∷ q ∷ [])
two_rows-UniqueJti r q other i k x y at_i at_k same = elim (two_rows r q x i at_i) [
  | inl (here_i, is_r) ↦ elim (two_rows r q y k at_k) [
    | inl (here_k, also_r) ↦ here_i ∙ sym here_k
    | inr (here_k, is_q) ↦ absurd (other (ap (λ z. z.jti) is_r ∙ same ∙ sym (ap (λ z. z.jti) is_q)))
  ]
  | inr (here_i, is_q) ↦ elim (two_rows r q y k at_k) [
    | inl (here_k, is_r) ↦
        absurd (other (ap (λ z. z.jti) is_r ∙ sym same ∙ sym (ap (λ z. z.jti) is_q)))
    | inr (here_k, also_q) ↦ here_i ∙ sym here_k
  ]
]

other_text : new_row.jti ≢ revoked_row.jti
other_text e =
    let h : ("b" == "a") ≡ true = (eq_iff new_row.jti revoked_row.jti).1 e in ground arith

record_after_revoke_example :
    ((i : ℕ) (r : RefreshRow) (v : ℕ) (g q : String)
      → tokens.view used_rows i ≡ some r
      → r.family_id ≡ "f"
      → (rotate tokens 20 r.jti after_record).0 ≢ ok (rotated v g q))
    × ((rotate tokens 20 "b" after_record).0 ≡ ok (rotated 7 "f" "b"))
unfolding revoke_family record_token lookup scan tally rewrite_rows next_id insert_row
record_after_revoke_example =
    record_after_revoke token_laws works 10 20 successor used_rows new_row refl
      (two_rows-UniqueJti new_row revoked_row other_text)
