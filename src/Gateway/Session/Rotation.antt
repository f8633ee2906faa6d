-- ===== src/Gateway/Session/Rotation.antt =====
-- The users that a rotation of the refresh token lets pass.
use fullstack_starter.Prelude.{
  String, ◌≡◌, ◌≢◌, refl, sym, ◌∙◌, ap, inl, inr, Bool, true, false, Bool-cases, Option, none, some,
  Option-cases, some_cancel, List, arith, not,
}
use fullstack_starter.Async.{
  pure, Result, ok, error, JsError, Result-cases, and_then, and_then-inv, and_then-keeps,
  ok-injective, handle_with-ok, handle_with-inv,
}
use fullstack_starter.Dto.{Permission, includes_any, includes_any_iff, HasAny}
use fullstack_starter.Gateway.ApiClient.{
  RotateRefreshResponse, RecordRefreshBody, rotate_refresh, record_refresh,
}
use fullstack_starter.Gateway.Platform.{Platform, Claims}
use fullstack_starter.Gateway.TokenService.{
  verify_refresh_token, generate_access_token, generate_refresh_token,
}
use fullstack_starter.Gateway.Session.{
  UserContext, Exchange, next, has_any_permission, is_denied, rotated_user, access_user, outside,
  signed, write_access_token_header, issue_refresh_and_record, continue_rotated, after_rotation,
  reject_refresh, rotate_and_continue, continue_with, refresh_and_continue,
}

-- The user holds one of the permissions that the route requires, if it requires any.
abbrev pub IsAllowed : Option (List Permission) → UserContext → Type 0
IsAllowed required user = (ps : List Permission) → required ≡ some ps → HasAny user.permissions ps

not_denied :
    (required : Option (List Permission)) (user : UserContext)
    → is_denied required (some user.permissions) ≡ false
    → IsAllowed required user
unfolding is_denied has_any_permission
not_denied none user h ps e = cc
not_denied (some qs) user h ps e =
    (includes_any_iff user.permissions ps).0
      (ap (includes_any user.permissions) (sym (some_cancel e)) ∙ ground arith)

not-false : (b : Bool) → not b ≡ false → b ≡ true
not-false b h = ground arith

pub not_denied_access :
    (required : Option (List Permission)) (c : Claims)
    → is_denied required c.permissions ≡ false
    → IsAllowed required (access_user c)
unfolding is_denied has_any_permission
not_denied_access none c h ps e = cc
not_denied_access (some qs) c h ps e = elim (Option-cases c.permissions) [
  | inl missing ↦ cc (rw missing at h)
  | inr (held, given) ↦ (includes_any_iff (access_user c).permissions ps).0 (
      rw given (
        ap (includes_any held) (sym (some_cancel e))
        ∙ not-false (includes_any held qs) (rw given at h)))
]

module _ {W : Type 0} (p : Platform W) where
  -- The user comes from what the api answers to a rotation of a verified refresh token.
  pub record FromRotation (token : Option String) (user : UserContext) : Type 0 where
    pub refresh_token : String
    pub presented : token ≡ some refresh_token
    pub claims : Claims
    pub before : W
    pub verified : (verify_refresh_token p refresh_token before).0 ≡ ok claims
    pub world : W
    pub request_id : String
    pub rotation : RotateRefreshResponse
    pub accepted :
        (rotate_refresh (signed p) p.fetch_rotate claims.jti request_id world).0 ≡ ok rotation
    pub same_user : user ≡ rotated_user rotation claims

  write_header-keeps :
      (user : UserContext) (x : Exchange W)
      → (write_access_token_header p user x).1.local_user ≡ x.local_user
  unfolding write_access_token_header
  write_header-keeps user x =
      and_then-keeps (λ y. y.local_user) x.local_user (outside p (generate_access_token p user) x) _
        refl (λ a s h. h)

  issue-keeps :
      (user : UserContext) (remember : Option Bool) (family_id : String) (parent : Option String)
      (request_id : String) (x : Exchange W)
      → (issue_refresh_and_record p user remember family_id parent request_id x).1.local_user
        ≡ x.local_user
  unfolding issue_refresh_and_record
  issue-keeps user remember family_id parent request_id x =
      let (jti, w) = p.random_uuid x.world in
      let generated = generate_refresh_token p user remember (some family_id) jti w in
      let body : RecordRefreshBody = record {
        user_id = user.id;
        family_id = family_id;
        jti = jti;
        parent_jti = parent;
      } in
      elim (Result-cases generated.0) [
        | inl (token, made) ↦
            rw made
              (elim (Result-cases
                (record_refresh (signed p) p.fetch_record body request_id generated.1).0) [
                  | inl (b, recorded) ↦ rw recorded refl
                  | inr (e, failed) ↦ rw failed refl
                ])
        | inr (e, failed) ↦ rw failed refl
      ]

  continue_rotated-user :
      (c : Claims) (r : RotateRefreshResponse) (request_id : String) (x : Exchange W)
      → (continue_rotated p c r request_id x).1.local_user ≡ some (rotated_user r c)
  unfolding continue_rotated
  continue_rotated-user c r request_id x =
      let user = rotated_user r c in
      let x_user : Exchange W = record x { local_user = some user } in
      and_then-keeps (λ y. y.local_user) (some user) (write_access_token_header p user x_user)
        (λ a s.
          and_then
            (issue_refresh_and_record p user c.remember r.family_id (some r.parent_jti) request_id
              s)
            (λ b. pure next))
        (write_header-keeps user x_user)
        (λ a s h.
          and_then-keeps (λ y. y.local_user) (some user)
            (issue_refresh_and_record p user c.remember r.family_id (some r.parent_jti) request_id
              s)
            (λ b. pure next)
            (issue-keeps user c.remember r.family_id (some r.parent_jti) request_id s ∙ h)
            (λ b t g. g))

  after_rotation-next :
      (c : Claims) (required : Option (List Permission)) (request_id : String)
      (r : RotateRefreshResponse) (x : Exchange W)
      → (after_rotation p c required request_id r x).0 ≡ ok next
      → ((after_rotation p c required request_id r x).1.local_user ≡ some (rotated_user r c))
        × IsAllowed required (rotated_user r c)
  unfolding after_rotation
  after_rotation-next c required request_id r x h =
      elim (Bool-cases (is_denied required (some (rotated_user r c).permissions))) [
        | inl barred ↦ cc (rw barred at h)
        | inr free ↦ (
          rw free (continue_rotated-user c r request_id x),
          not_denied required (rotated_user r c) free,
        )
      ]

  rejected_not_next : (e : JsError) (x : Exchange W) → (reject_refresh p e x).0 ≢ ok next
  unfolding reject_refresh
  rejected_not_next e x h = cc

  rotate_and_continue-next :
      (required : Option (List Permission)) (c : Claims) (x : Exchange W)
      → (rotate_and_continue p required c x).0 ≡ ok next
      → (w : W) × (request_id : String) × (r : RotateRefreshResponse) × ((rotate_refresh
            (signed p)
            p.fetch_rotate
            c.jti
            request_id
            w).0
          ≡ ok r)
        × ((rotate_and_continue p required c x).1.local_user ≡ some (rotated_user r c))
        × IsAllowed required (rotated_user r c)
  unfolding rotate_and_continue
  rotate_and_continue-next required c x h =
      let (request_id, w) = p.random_uuid x.world in
      let x_id : Exchange W = record x { world = w } in
      let call = outside p (rotate_refresh (signed p) p.fetch_rotate c.jti request_id) x_id in
      let body = and_then call (after_rotation p c required request_id) in
      elim (handle_with-inv body (reject_refresh p) next h) [
        | inl passed ↦
            let (r, rotated, same, rest) =
              and_then-inv call (after_rotation p c required request_id) next passed in
            let (placed, allowed) = after_rotation-next c required request_id r call.1 rest in
            (
              w,
              request_id,
              r,
              rotated,
              ap (λ z. z.1.local_user) (handle_with-ok body (reject_refresh p) next passed ∙ same)
                  ∙ placed,
              allowed,
            )
        | inr (e, failed, rejected) ↦ absurd (rejected_not_next e body.1 rejected)
      ]

  pub continue_with-ok :
      (required : Option (List Permission)) (y : Result Claims × Exchange W) (c : Claims)
      → y.0 ≡ ok c
      → continue_with p required y ≡ rotate_and_continue p required c y.1
  continue_with-ok required (ok d, y) c h =
      ap (λ d. rotate_and_continue p required d y) (ok-injective h)
  continue_with-ok required (error e, y) c h = cc

  pub refresh_and_continue-next :
      (token : Option String) (required : Option (List Permission)) (x : Exchange W)
      → (refresh_and_continue p token required x).0 ≡ ok next
      → (user : UserContext) × ((refresh_and_continue p token required x).1.local_user ≡ some user)
        × IsAllowed required user
        × FromRotation token user
  unfolding refresh_and_continue
  refresh_and_continue-next none required x h = cc
  refresh_and_continue-next (some token) required x h =
      elim (Result-cases (verify_refresh_token p token x.world).0) [
        | inl (c, verified) ↦
            let out = outside p (verify_refresh_token p token) x in
            let same = continue_with-ok required out c verified in
            let (w, request_id, r, rotated, placed, allowed) =
              rotate_and_continue-next required c out.1 (ap (λ z. z.0) (sym same) ∙ h) in
            (
              rotated_user r c,
              ap (λ z. z.1.local_user) same ∙ placed,
              allowed,
              record {
                refresh_token = token;
                presented = refl;
                claims = c;
                before = x.world;
                verified = verified;
                world = w;
                request_id = request_id;
                rotation = r;
                accepted = rotated;
                same_user = refl;
              },
            )
        | inr (e, refused) ↦ cc (rw refused at h)
      ]
