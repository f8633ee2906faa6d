-- ===== src/Api/RefreshLifecycle.antt =====
-- apps/api/src/controllers/refresh-lifecycle.controller.ts: the endpoints by which the gateway
-- records, rotates and revokes refresh tokens. A field of the body is `none` if it is missing.
pub mod Answers
use fullstack_starter.Prelude.{
  ℕ, zero, String, Bool, ◌&&◌, Option, none, some, List, if◌then◌else◌, eqb, not, is_truthy,
  present,
}
use fullstack_starter.Async.{Async, pure, ◌>>=◌, ◌>>◌}
use fullstack_starter.Http.{Response, Handler, success_json, error_json, error_500, catching}
use fullstack_starter.Dto.{Permission, UserDto}
use fullstack_starter.Api.Model.{Model}
use fullstack_starter.Api.RefreshFamily.{
  RefreshRow, RotateOutcome, rotated, reused_revoked, not_found, family_revoked, record_token,
  revoke_family, revoke_by_jti, rotate,
}
use fullstack_starter.Api.AuthService.{get_user}

pub record LifecycleBody : Type 0 where
  pub user_id : Option ℕ
  pub family_id : Option String
  pub jti : Option String
  pub parent_jti : Option String

pub data LifecycleReply : Type 0 where
  recorded : LifecycleReply
  rotation : ℕ → String → String → String → List Permission → LifecycleReply
  outcome : RotateOutcome → LifecycleReply
  revoked : ℕ → LifecycleReply

-- a number of the body that is not falsy
abbrev pub present_number : Option ℕ → Option ℕ
present_number none = none
present_number (some n) = if eqb n 0 then none else some n

abbrev pub missing_record : Response LifecycleReply
missing_record = error_json "Missing userId, familyId or jti" 400

module _ {S : Type 0} (tokens : Model S RefreshRow) where
  unfoldable pub record_given :
      Option ℕ → Option String → Option String → Option String → Async S (Response LifecycleReply)
  record_given (some user_id) (some family_id) (some jti) parent_jti = do
    record_token tokens
        (record { user_id = user_id; family_id = family_id; jti = jti; parent_jti = parent_jti })
    pure (success_json recorded 201)
  record_given _ _ _ _ = pure missing_record

  -- `record`, a reserved word
  unfoldable pub record_handler : LifecycleBody → Handler S LifecycleReply
  unfolding record_given
  record_handler body =
      catching
        (record_given (present_number body.user_id) (present body.family_id) (present body.jti)
          body.parent_jti)
        error_500

  unfoldable pub revoke_given :
      ℕ → Option String → Option String → Async S (Response LifecycleReply)
  revoke_given now (some jti) family_id = do
    found ← revoke_by_jti tokens now jti
    pure (success_json (outcome found) 200)
  revoke_given now none (some family_id) = do
    affected ← revoke_family tokens now family_id
    pure (success_json (revoked affected) 200)
  revoke_given now none none = pure (error_json "Missing jti or familyId" 400)

  unfoldable pub revoke_handler : ℕ → LifecycleBody → Handler S LifecycleReply
  unfolding revoke_given
  revoke_handler now body =
      catching (revoke_given now (present body.jti) (present body.family_id)) error_500

module _ {S : Type 0} (tokens : Model S RefreshRow) (users : Model S UserDto) where
  -- the user of a rotated token, read again: an account that is gone ends the family
  unfoldable pub rotation_for :
      ℕ → ℕ → String → String → Option UserDto → Async S (Response LifecycleReply)
  rotation_for now user_id family_id parent_jti none = do
    revoke_family tokens now family_id
    pure (error_json "User no longer active" 401)
  rotation_for now user_id family_id parent_jti (some user) =
      pure (success_json (rotation user_id family_id parent_jti user.email user.permissions) 200)

  unfoldable pub rotate_outcome : ℕ → RotateOutcome → Async S (Response LifecycleReply)
  unfolding rotation_for get_user
  rotate_outcome now (rotated user_id family_id parent_jti) = do
    user ← get_user users user_id
    rotation_for now user_id family_id parent_jti user
  rotate_outcome now (reused_revoked _ _) = pure (error_json "Refresh chain reused-revoked" 401)
  rotate_outcome now (family_revoked _ _) = pure (error_json "Refresh chain family-revoked" 401)
  rotate_outcome now not_found = pure (error_json "Refresh token not found" 401)

  unfoldable pub rotate_given : ℕ → Option String → Async S (Response LifecycleReply)
  unfolding rotate_outcome
  rotate_given now none = pure (error_json "Missing jti" 400)
  rotate_given now (some jti) = do result ← rotate tokens now jti; rotate_outcome now result

  unfoldable pub rotate_handler : ℕ → Option String → Handler S LifecycleReply
  unfolding rotate_given
  rotate_handler now jti = catching (rotate_given now (present jti)) error_500
