-- ===== src/Api/RefreshFamily.antt =====
-- apps/api/src/services/refresh-token-family.service.ts over the rows of
-- apps/api/src/models/refresh-token-family.model.ts: the life of refresh tokens. An identifier is a
-- text, a date a number of milliseconds; `now` is the date of the call.
pub mod Branches
pub mod Spent
pub mod Reuse
pub mod Interleaving
use fullstack_starter.Prelude.{
  ℕ, String, Bool, true, false, ◌&&◌, not, Option, none, some, if◌then◌else◌, eqb, is_some, ◌==◌,
}
use fullstack_starter.Async.{Async, pure, reads, ◌>>=◌, ◌>>◌}
use fullstack_starter.Api.Model.{Model}

-- `createdAt` and `updatedAt` are left to the database.
pub record RefreshRow : Type 0 where
  pub id : ℕ
  pub user_id : ℕ
  pub family_id : String
  pub jti : String
  pub parent_jti : Option String
  pub used : Bool
  pub revoked_at : Option ℕ

pub record RecordRefreshInput : Type 0 where
  pub user_id : ℕ
  pub family_id : String
  pub jti : String
  pub parent_jti : Option String

pub data RotateOutcome : Type 0 where
  rotated : ℕ → String → String → RotateOutcome
  reused_revoked : ℕ → String → RotateOutcome
  not_found : RotateOutcome
  family_revoked : ℕ → String → RotateOutcome

-- the row that `record` inserts
abbrev pub fresh_row : RecordRefreshInput → ℕ → RefreshRow
fresh_row input i = record {
  id = i;
  user_id = input.user_id;
  family_id = input.family_id;
  jti = input.jti;
  parent_jti = input.parent_jti;
  used = false;
  revoked_at = none;
}

-- `where: { jti }`
abbrev pub has_jti : String → RefreshRow → Bool
has_jti j r = r.jti == j

-- `where: { familyId, revokedAt: null }`
abbrev pub is_active_in : String → RefreshRow → Bool
is_active_in f r = r.family_id == f && not (is_some r.revoked_at)

abbrev pub revoke_row : ℕ → RefreshRow → RefreshRow
revoke_row now r = record r { revoked_at = some now }

-- `row.used = true; row.save()` writes the changed field by primary key
abbrev pub use_row : RefreshRow → RefreshRow
use_row r = record r { used = true }

module _ {S : Type 0} (tokens : Model S RefreshRow) where
  -- `record`, a reserved word
  unfoldable pub record_token : RecordRefreshInput → Async S RefreshRow
  record_token input s = tokens.create (fresh_row input) s

  unfoldable pub revoke_family : ℕ → String → Async S ℕ
  revoke_family now family_id s = tokens.update (is_active_in family_id) (revoke_row now) s

  unfoldable pub save_used : RefreshRow → Async S ℕ
  save_used row s = tokens.update (λ r. eqb r.id row.id) use_row s

  -- what `rotate` does with the row that it found
  unfoldable pub rotate_row : ℕ → Option RefreshRow → Async S RotateOutcome
  unfolding revoke_family save_used
  rotate_row now none = pure not_found
  rotate_row now (some row) =
      if is_some row.revoked_at
      then pure (family_revoked row.user_id row.family_id)
      else if row.used
      then (do revoke_family now row.family_id; pure (reused_revoked row.user_id row.family_id))
      else (do save_used row; pure (rotated row.user_id row.family_id row.jti))

  unfoldable pub rotate : ℕ → String → Async S RotateOutcome
  unfolding rotate_row
  rotate now jti = do row ← reads (tokens.find_one (has_jti jti)); rotate_row now row

  -- what `revokeByJti` does with the row that it found
  unfoldable pub revoke_found : ℕ → Option RefreshRow → Async S RotateOutcome
  unfolding revoke_family
  revoke_found now none = pure not_found
  revoke_found now (some row) = do
    revoke_family now row.family_id
    pure (family_revoked row.user_id row.family_id)

  unfoldable pub revoke_by_jti : ℕ → String → Async S RotateOutcome
  unfolding revoke_found
  revoke_by_jti now jti = do row ← reads (tokens.find_one (has_jti jti)); revoke_found now row
