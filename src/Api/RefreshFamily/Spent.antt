-- ===== src/Api/RefreshFamily/Spent.antt =====
-- Refresh tokens that can never be rotated again, whatever statements the api issues later. A step
-- is one statement, so a run of steps is any interleaving of any number of requests.
use fullstack_starter.Prelude.{
  ℕ, String, ◌≡◌, refl, ◌∙◌, ◌⊎◌, inl, inr, Bool, true, Bool-cases, some, arith, is_some, eqb,
  eqb_iff,
}
use fullstack_starter.Async.{Result-cases}
use fullstack_starter.Api.Model.{Model, ModelLaws}
use fullstack_starter.Api.RefreshFamily.{
  RefreshRow, RecordRefreshInput, fresh_row, use_row, revoke_row, is_active_in, record_token,
  revoke_family, save_used,
}

abbrev pub key : RefreshRow → ℕ
key r = r.id

-- The UNIQUE constraint on `jti`, in a state of the table.
abbrev pub UniqueJti : {S : Type 0} → Model S RefreshRow → S → Type 0
UniqueJti {S} tokens s =
    (i k : ℕ) (r q : RefreshRow)
    → tokens.view s i ≡ some r
    → tokens.view s k ≡ some q
    → r.jti ≡ q.jti
    → i ≡ k

-- Used, or revoked.
abbrev pub IsDead : RefreshRow → Type 0
IsDead r = (r.used ≡ true) ⊎ (is_some r.revoked_at ≡ true)

-- The token stands in the table, used or revoked.
pub record IsSpent {S : Type 0} (tokens : Model S RefreshRow) (s : S) (jti : String) : Type 0 where
  pub index : ℕ
  pub row : RefreshRow
  pub stored : tokens.view s index ≡ some row
  pub same : row.jti ≡ jti
  pub dead : IsDead row

-- One statement of the service.
pub data Statement {S : Type 0} (tokens : Model S RefreshRow) : S → S → Type 0 where
  recorded :
      (input : RecordRefreshInput) (s : S) → Statement tokens s (record_token tokens input s).1
  marked : (row : RefreshRow) (s : S) → Statement tokens s (save_used tokens row s).1
  revoked : (now : ℕ) (f : String) (s : S) → Statement tokens s (revoke_family tokens now f s).1

pub data Run {S : Type 0} (tokens : Model S RefreshRow) (s : S) : S → Type 0 where
  here : Run tokens s s
  next : {t u : S} → Run tokens s t → Statement tokens t u → Run tokens s u

module _ {S : Type 0} {tokens : Model S RefreshRow} (laws : ModelLaws key tokens) where
  -- An update keeps tokens spent if it keeps their identifiers and revives none.
  update-IsSpent :
      (p : RefreshRow → Bool) (f : RefreshRow → RefreshRow)
      → ((r : RefreshRow) → key (f r) ≡ key r)
      → ((r : RefreshRow) → (f r).jti ≡ r.jti)
      → ((r : RefreshRow) → IsDead r → IsDead (f r))
      → {s : S} {jti : String} → IsSpent tokens s jti
      → IsSpent tokens (tokens.update p f s).1 jti
  update-IsSpent p f same_key keeps kills {s} h = elim (Result-cases (tokens.update p f s).0) [
    | inl (n, done) ↦ elim (Bool-cases (p h.row)) [
      | inl hit ↦ record {
        index = h.index;
        row = f h.row;
        stored = rw (laws.update_view p f s n h.index same_key done, h.stored, hit);
        same = keeps h.row ∙ h.same;
        dead = kills h.row h.dead;
      }
      | inr missed ↦ record {
        index = h.index;
        row = h.row;
        stored = rw (laws.update_view p f s n h.index same_key done, h.stored, missed);
        same = h.same;
        dead = h.dead;
      }
    ]
    | inr (e, failed) ↦ record {
      index = h.index;
      row = h.row;
      stored = rw (laws.update_failed p f s e h.index failed) h.stored;
      same = h.same;
      dead = h.dead;
    }
  ]

  create-stored :
      (input : RecordRefreshInput) (s : S) (i : ℕ) (row : RefreshRow)
      → tokens.view s i ≡ some row
      → tokens.view (record_token tokens input s).1 i ≡ some row
  unfolding record_token
  create-stored input s i row h = elim (Result-cases (tokens.create (fresh_row input) s).0) [
    | inl (r, done) ↦ ground (
      arith,
      laws.create_view (fresh_row input) s r i (λ k. refl) done,
      laws.create_ok (fresh_row input) s r (λ k. refl) done,
      eqb_iff i r.id,
    )
    | inr (e, failed) ↦ laws.create_failed (fresh_row input) s e i failed ∙ h
  ]

  Statement-IsSpent :
      {s t : S} {jti : String} → Statement tokens s t → IsSpent tokens s jti → IsSpent tokens t jti
  unfolding save_used revoke_family
  Statement-IsSpent (recorded input s) h = record {
    index = h.index;
    row = h.row;
    stored = create-stored input s h.index h.row h.stored;
    same = h.same;
    dead = h.dead;
  }
  Statement-IsSpent (marked row s) h =
      update-IsSpent (λ r. eqb r.id row.id) use_row (λ r. refl) (λ r. refl) (λ r d. ground arith) h
  Statement-IsSpent (revoked now f s) h =
      update-IsSpent (is_active_in f) (revoke_row now) (λ r. refl) (λ r. refl) (λ r d. ground arith)
        h

  pub Run-IsSpent :
      {s t : S} {jti : String} → Run tokens s t → IsSpent tokens s jti → IsSpent tokens t jti
  Run-IsSpent here h = h
  Run-IsSpent (next r st) h = Statement-IsSpent st (Run-IsSpent r h)
