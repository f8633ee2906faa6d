-- ===== src/Api/RefreshFamily/Branches.antt =====
-- `rotate` on a row that was found, branch by branch.
use fullstack_starter.Prelude.{ℕ, ◌≡◌, true, false, some, is_some}
use fullstack_starter.Async.{ok, and_then, pure}
use fullstack_starter.Api.Model.{Model}
use fullstack_starter.Api.RefreshFamily.{
  RefreshRow, revoke_family, save_used, rotate_row, rotated, reused_revoked, family_revoked,
}

module _ {S : Type 0} (tokens : Model S RefreshRow) (now : ℕ) (row : RefreshRow) (s : S) where
  pub rotate_row-revoked :
      is_some row.revoked_at ≡ true
      → rotate_row tokens now (some row) s ≡ (ok (family_revoked row.user_id row.family_id), s)
  unfolding rotate_row
  rotate_row-revoked gone = rw gone

  pub rotate_row-used :
      is_some row.revoked_at ≡ false
      → row.used ≡ true
      → rotate_row tokens now (some row) s
        ≡ and_then
            (revoke_family tokens now row.family_id s)
            (λ _. pure (reused_revoked row.user_id row.family_id))
  unfolding rotate_row
  rotate_row-used live again = rw (live, again)

  pub rotate_row-fresh :
      is_some row.revoked_at ≡ false
      → row.used ≡ false
      → rotate_row tokens now (some row) s
        ≡ and_then (save_used tokens row s) (λ _. pure (rotated row.user_id row.family_id row.jti))
  unfolding rotate_row
  rotate_row-fresh live fresh = rw (live, fresh)
