-- ===== src/Api/RefreshLifecycle/Answers.antt =====
-- What the rotation endpoint answers.
use fullstack_starter.Prelude.{
  ℕ, String, ◌≡◌, refl, sym, ◌∙◌, ap, subst, true, false, Option, none, some, arith, eqb_iff,
  is_truthy,
}
use fullstack_starter.Async.{Result, ok, and_then, and_then-inv, and_then-ok, ok-injective}
use fullstack_starter.Http.{Response, json, answer_with, answer_with-ok, error_500, error_json}
use fullstack_starter.Dto.{UserDto}
use fullstack_starter.Api.Model.{Model, ModelLaws}
use fullstack_starter.Api.RefreshFamily.{
  RefreshRow, RotateOutcome, rotated, reused_revoked, not_found, family_revoked, revoke_family,
  rotate,
}
use fullstack_starter.Api.RefreshFamily.Spent.{key, IsSpent}
use fullstack_starter.Api.RefreshFamily.Reuse.{revoke_family-IsSpent}
use fullstack_starter.Api.AuthService.{user_id, is_live}
use fullstack_starter.Api.RefreshLifecycle.{
  LifecycleReply, rotation, rotation_for, rotate_outcome, rotate_handler,
}

-- A rotation that was answered: the token was rotated, and the answer carries the email and the
-- permissions of the live user, read after the token was marked.
pub record IsFreshRotation {S : Type 0} (tokens : Model S RefreshRow) (users : Model S UserDto)
    (now : ℕ) (jti : String) (s : S) (r : Response LifecycleReply) : Type 0 where
  pub user : UserDto
  pub family_id : String
  pub parent_jti : String
  pub was_rotated : (rotate tokens now jti s).0 ≡ ok (rotated user.id family_id parent_jti)
  pub stored : users.view (rotate tokens now jti s).1 user.id ≡ some user
  pub live : user.deleted ≡ false
  pub body : r.body ≡ json (rotation user.id family_id parent_jti user.email user.permissions)

module _ {S : Type 0} (tokens : Model S RefreshRow) (users : Model S UserDto) where
  -- Of the answers to a rotation only that for a live user has status 200.
  rotation_for-200 :
      (now u : ℕ) (f p : String) (x : Option UserDto) (s : S) (r : Response LifecycleReply)
      → (rotation_for tokens users now u f p x s).0 ≡ ok r
      → r.status ≡ 200
      → (user : UserDto) × (x ≡ some user)
        × (r.body ≡ json (rotation u f p user.email user.permissions))
        × ((rotation_for tokens users now u f p x s).1 ≡ s)
  unfolding rotation_for
  rotation_for-200 now u f p none s r h is_200 =
      let (_, _, _, same) = and_then-inv (revoke_family tokens now f s) _ r h in
      absurd (omega (arith, ap (λ z. z.status) (ok-injective same)))
  rotation_for-200 now u f p (some user) s r h is_200 =
      (user, refl, sym (ap (λ z. z.body) (ok-injective h)), refl)

  -- The user that a rotation was answered for.
  record IsAnswer (o : RotateOutcome) (s : S) (r : Response LifecycleReply) : Type 0 where
    id : ℕ
    family_id : String
    parent_jti : String
    user : UserDto
    rotation_of : o ≡ rotated id family_id parent_jti
    found : users.find_one (is_live id) s ≡ ok (some user)
    body : r.body ≡ json (rotation id family_id parent_jti user.email user.permissions)

  rotate_outcome-200 :
      (now : ℕ) (o : RotateOutcome) (s : S) (r : Response LifecycleReply)
      → (rotate_outcome tokens users now o s).0 ≡ ok r
      → r.status ≡ 200
      → IsAnswer o s r × ((rotate_outcome tokens users now o s).1 ≡ s)
  unfolding rotate_outcome
  rotate_outcome-200 now (rotated u f p) s r h is_200 =
      let (x, found, after, same) =
        and_then-inv (users.find_one (is_live u) s, s) (rotation_for tokens users now u f p) r h in
      let (user, there, body, state) = rotation_for-200 now u f p x s r same is_200 in
      (
        record {
          id = u;
          family_id = f;
          parent_jti = p;
          user = user;
          rotation_of = refl;
          found = found ∙ ap ok there;
          body = body;
        },
        ap (λ z. z.1) after ∙ state,
      )
  rotate_outcome-200 now (reused_revoked u f) s r h is_200 =
      absurd (omega (arith, ap (λ z. z.status) (ok-injective h)))
  rotate_outcome-200 now (family_revoked u f) s r h is_200 =
      absurd (omega (arith, ap (λ z. z.status) (ok-injective h)))
  rotate_outcome-200 now not_found s r h is_200 =
      absurd (omega (arith, ap (λ z. z.status) (ok-injective h)))

  abbrev rotation_then : ℕ → String → S → Result (Response LifecycleReply) × S
  rotation_then now jti s = and_then (rotate tokens now jti s) (rotate_outcome tokens users now)

  rotation-IsFreshRotation :
      ModelLaws user_id users
      → (now : ℕ) (jti : String) (s : S)
      → (answer_with (rotation_then now jti s) error_500).0.status ≡ 200
      → IsFreshRotation tokens users now jti s (answer_with (rotation_then now jti s) error_500).0
  rotation-IsFreshRotation laws now jti s is_200 =
      let (r, done, answer) =
        answer_with-ok (rotation_then now jti s) error_500 200 (λ e h. omega (arith, h)) is_200 in
      let (o, was_rotated, after, same) =
        and_then-inv (rotate tokens now jti s) (rotate_outcome tokens users now) r done in
      let (a, _) =
        rotate_outcome-200 now o (rotate tokens now jti s).1 r same
          (ap (λ z. z.0.status) (sym answer) ∙ is_200) in
      let (stored, live) =
        laws.find_some (is_live a.id) (rotate tokens now jti s).1 a.user a.found in
      let same_id : a.user.id ≡ a.id = ground (arith, eqb_iff a.user.id a.id) in
      record {
        user = a.user;
        family_id = a.family_id;
        parent_jti = a.parent_jti;
        was_rotated =
            was_rotated
            ∙ ap ok (a.rotation_of ∙ ap (λ i. rotated i a.family_id a.parent_jti) (sym same_id));
        stored = stored;
        live = ground arith;
        body =
            ap (λ z. z.0.body) answer
            ∙ a.body
            ∙ ap (λ i. json (rotation i a.family_id a.parent_jti a.user.email a.user.permissions))
                (sym same_id);
      }

  -- The rotation endpoint answers 200 only where it has rotated the token, and then with the email
  -- and the permissions of the live user of the token, as the table has them after the rotation.
  pub rotate_handler-200 :
      ModelLaws user_id users
      → (now : ℕ) (jti : String) (s : S) → is_truthy jti ≡ true
      → (rotate_handler tokens users now (some jti) s).0.status ≡ 200
      → IsFreshRotation tokens users now jti s (rotate_handler tokens users now (some jti) s).0
  unfolding rotate_handler
  rotate_handler-200 laws now jti s given is_200 =
      rw given (rotation-IsFreshRotation laws now jti s (rw given at is_200))

  rotation_then-inactive :
      (now : ℕ) (jti : String) (s : S) (u n : ℕ) (f p : String)
      → (rotate tokens now jti s).0 ≡ ok (rotated u f p)
      → users.find_one (is_live u) (rotate tokens now jti s).1 ≡ ok none
      → (revoke_family tokens now f (rotate tokens now jti s).1).0 ≡ ok n
      → rotation_then now jti s ≡ (
        ok (error_json "User no longer active" 401),
        (revoke_family tokens now f (rotate tokens now jti s).1).1,
      )
  unfolding rotate_outcome rotation_for
  rotation_then-inactive now jti s u n f p was_rotated gone revoked =
      and_then-ok (rotate tokens now jti s) (rotate_outcome tokens users now) _ was_rotated
      ∙ rw gone (and_then-ok (revoke_family tokens now f (rotate tokens now jti s).1) _ n revoked)

  -- A rotation for an account that is gone or deleted is refused with 401, and ends the family: no
  -- token of it that stands in the table can be rotated again.
  pub rotate_handler-inactive :
      ModelLaws key tokens
      → (now : ℕ) (jti : String) (s : S) (u n i : ℕ) (f p : String) (row : RefreshRow)
      → is_truthy jti ≡ true
      → (rotate tokens now jti s).0 ≡ ok (rotated u f p)
      → users.find_one (is_live u) (rotate tokens now jti s).1 ≡ ok none
      → (revoke_family tokens now f (rotate tokens now jti s).1).0 ≡ ok n
      → tokens.view (rotate tokens now jti s).1 i ≡ some row
      → row.family_id ≡ f
      → ((rotate_handler tokens users now (some jti) s).0.status ≡ 401)
        × IsSpent tokens (rotate_handler tokens users now (some jti) s).1 row.jti
  unfolding rotate_handler
  rotate_handler-inactive laws now jti s u n i f p row given was_rotated gone revoked stored
        in_family =
      let step = rotation_then-inactive now jti s u n f p was_rotated gone revoked in
      rw given (
        ap (λ z. (answer_with z error_500).0.status) step,
        subst (λ z. IsSpent tokens (answer_with z error_500).1 row.jti) (sym step)
            (revoke_family-IsSpent laws now f (rotate tokens now jti s).1 n i row revoked stored
              in_family),
      )
