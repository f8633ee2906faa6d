-- ===== src/Gateway/Session/Rejection.antt =====
-- What the guard leaves behind where it does not let a request pass.
use fullstack_starter.Prelude.{
  ℕ, String, ◌≡◌, sym, ◌∙◌, ap, ◌⊎◌, inl, inr, Bool-cases, Option, some, List, or_else,
}
use fullstack_starter.Async.{
  pure, ok, Result-cases, and_then, and_then-inv, ok-injective, handle_with-ok, handle_with-error,
}
use fullstack_starter.Http.{error_json}
use fullstack_starter.Dto.{Permission}
use fullstack_starter.Gateway.ApiClient.{RotateRefreshResponse, rotate_refresh}
use fullstack_starter.Gateway.Platform.{Platform, Claims}
use fullstack_starter.Gateway.Session.{
  Exchange, cleared, Step, next, answer, is_denied, insufficient, rotated_user, outside, signed,
  write_access_token_header, issue_refresh_and_record, continue_rotated, after_rotation,
  reject_refresh, rotate_and_continue,
}

module _ {W : Type 0} (p : Platform W) where
  continue_rotated-next :
      (c : Claims) (r : RotateRefreshResponse) (request_id : String) (x : Exchange W) (s : Step)
      → (continue_rotated p c r request_id x).0 ≡ ok s
      → s ≡ next
  unfolding continue_rotated
  continue_rotated-next c r request_id x s h =
      let user = rotated_user r c in
      let after = write_access_token_header p user (record x { local_user = some user }) in
      let issue =
        issue_refresh_and_record p user c.remember r.family_id (some r.parent_jti) request_id in
      let (_, _, _, rest) = and_then-inv after (λ u y. and_then (issue y) (λ v. pure next)) s h in
      let (_, _, _, last) = and_then-inv (issue after.1) (λ v. pure next) s rest in
      sym (ok-injective last)

  after_rotation-outcome :
      (c : Claims) (required : Option (List Permission)) (request_id : String)
      (r : RotateRefreshResponse) (x : Exchange W) (s : Step)
      → (after_rotation p c required request_id r x).0 ≡ ok s
      → (s ≡ next) ⊎ (s ≡ insufficient)
  unfolding after_rotation
  after_rotation-outcome c required request_id r x s h =
      elim (Bool-cases (is_denied required (some (rotated_user r c).permissions))) [
        | inl barred ↦ inr (sym (ok-injective (rw barred at h)))
        | inr free ↦ inl (continue_rotated-next c r request_id x s (rw free at h))
      ]

  -- A rotation ends in one of three ways, and never throws: the request goes on, the permissions do
  -- not suffice, or the refresh is rejected and the cookie is cleared.
  pub rotation_outcomes :
      (required : Option (List Permission)) (c : Claims) (x : Exchange W)
      → let out = rotate_and_continue p required c x in
        (out.0 ≡ ok next)
        ⊎ ((out.0 ≡ ok insufficient)
            ⊎ ((status : ℕ) × (out.0 ≡ ok (answer (error_json "Refresh rejected" status)))
                × (out.1.refresh_cookie ≡ cleared)))
  unfolding rotate_and_continue reject_refresh
  rotation_outcomes required c x =
      let (request_id, w) = p.random_uuid x.world in
      let call =
        outside p (rotate_refresh (signed p) p.fetch_rotate c.jti request_id)
          (record x { world = w }) in
      let body = and_then call (after_rotation p c required request_id) in
      elim (Result-cases body.0) [
        | inl (s, returned) ↦
            let (r, _, _, rest) =
              and_then-inv call (after_rotation p c required request_id) s returned in
            elim (after_rotation-outcome c required request_id r call.1 s rest) [
              | inl passed ↦ inl (
                  ap (λ z. z.0) (handle_with-ok body (reject_refresh p) s returned)
                  ∙ returned
                  ∙ ap ok passed)
              | inr denied ↦ inr (
                  inl (
                    ap (λ z. z.0) (handle_with-ok body (reject_refresh p) s returned)
                    ∙ returned
                    ∙ ap ok denied))
            ]
        | inr (e, thrown) ↦
            let same = handle_with-error body (reject_refresh p) e thrown in
            inr (
              inr
                (or_else e.status_code 401, ap (λ z. z.0) same, ap (λ z. z.1.refresh_cookie) same))
      ]
