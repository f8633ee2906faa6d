-- ===== src/Gateway/Session/Access.antt =====
-- Who passes the guard of the gateway.
use fullstack_starter.Prelude.{
  String, ◌≡◌, refl, sym, ◌∙◌, ap, ◌⊎◌, inl, inr, false, Bool-cases, Option, none, some, List,
  present, present-inv,
}
use fullstack_starter.Async.{Async, Result, ok, error, JsError, and_then, handle_with}
use fullstack_starter.Dto.{Permission}
use fullstack_starter.Gateway.Platform.{Platform, Claims}
use fullstack_starter.Gateway.TokenService.{verify_access_token}
use fullstack_starter.Gateway.Session.{
  UserContext, Exchange, Step, next, Request, is_denied, is_token_expired, access_user, outside,
  accept_access, on_access_error, with_tokens, has_permission,
}
use fullstack_starter.Gateway.Session.Rotation.{
  IsAllowed, FromRotation, not_denied_access, refresh_and_continue-next,
}

module _ {W : Type 0} (p : Platform W) where
  -- The user comes from the claims of a verified access token.
  pub record FromAccess (token : Option String) (w : W) (user : UserContext) : Type 0 where
    pub access_token : String
    pub presented : token ≡ some access_token
    pub claims : Claims
    pub verified : (verify_access_token p access_token w).0 ≡ ok claims
    pub same_user : user ≡ access_user claims

  -- What a request that passed the guard leaves: a user in its locals who is allowed, with an origin.
  pub record IsAuthorized (required : Option (List Permission)) (access refresh : Option String)
      (w : W) (after : Exchange W) : Type 0 where
    pub user : UserContext
    pub placed : after.local_user ≡ some user
    pub allowed : IsAllowed required user
    pub origin : FromAccess access w user ⊎ FromRotation p refresh user

  accept_access-next :
      (required : Option (List Permission)) (c : Claims) (x : Exchange W)
      → (accept_access p required c x).0 ≡ ok next
      → ((accept_access p required c x).1.local_user ≡ some (access_user c))
        × IsAllowed required (access_user c)
  unfolding accept_access
  accept_access-next required c x h = elim (Bool-cases (is_denied required c.permissions)) [
    | inl barred ↦ cc (rw barred at h)
    | inr free ↦ (rw free refl, not_denied_access required c free)
  ]

  on_error-next :
      (token : String) (required : Option (List Permission)) (e : JsError) (x : Exchange W)
      → (on_access_error p token required e x).0 ≡ ok next
      → (user : UserContext) × ((on_access_error p token required e x).1.local_user ≡ some user)
        × IsAllowed required user
        × FromRotation p (some token) user
  unfolding on_access_error
  on_error-next token required e x h = elim (Bool-cases (is_token_expired e)) [
    | inl expired ↦
        rw expired (refresh_and_continue-next p (some token) required x (rw expired at h))
    | inr other ↦ cc (rw other at h)
  ]

  accept_access-handled :
      (required : Option (List Permission)) (c : Claims) (h : JsError → Async (Exchange W) Step)
      (x : Exchange W)
      → handle_with (accept_access p required c x) h ≡ accept_access p required c x
  unfolding accept_access
  accept_access-handled required c h x = elim (Bool-cases (is_denied required c.permissions)) [
    | inl barred ↦ rw barred refl
    | inr free ↦ rw free refl
  ]

  checked-next :
      (refresh : String) (required : Option (List Permission)) (y : Result Claims × Exchange W)
      → (handle_with (and_then y (accept_access p required)) (on_access_error p refresh required)).0
        ≡ ok next
      → (user : UserContext) × ((handle_with
            (and_then y (accept_access p required))
            (on_access_error p refresh required)).1.local_user
          ≡ some user)
        × IsAllowed required user
        × (((c : Claims) × (y.0 ≡ ok c) × (user ≡ access_user c))
            ⊎ FromRotation p (some refresh) user)
  checked-next refresh required (ok c, x) h =
      let same = accept_access-handled required c (on_access_error p refresh required) x in
      let (placed, allowed) = accept_access-next required c x (ap (λ z. z.0) (sym same) ∙ h) in
      (access_user c, ap (λ z. z.1.local_user) same ∙ placed, allowed, inl (c, refl, refl))
  checked-next refresh required (error e, x) h =
      let (user, placed, allowed, origin) = on_error-next refresh required e x h in
      (user, placed, allowed, inr origin)

  some_token :
      (required : Option (List Permission)) (access refresh : Option String) (x : Exchange W)
      → (with_tokens p required access refresh x).0 ≡ ok next
      → (token : String) × (refresh ≡ some token)
  unfolding with_tokens
  some_token required access none x h = cc
  some_token required access (some token) x h = (token, refl)

  with_tokens-next :
      (required : Option (List Permission)) (access refresh : Option String) (x : Exchange W)
      → (with_tokens p required access refresh x).0 ≡ ok next
      → IsAuthorized required access refresh x.world (with_tokens p required access refresh x).1
  unfolding with_tokens
  with_tokens-next required access none x h = cc
  with_tokens-next required none (some refresh) x h =
      let (user, placed, allowed, origin) =
        refresh_and_continue-next p (some refresh) required x h in
      record { user = user; placed = placed; allowed = allowed; origin = inr origin }
  with_tokens-next required (some access) (some refresh) x h =
      let (user, placed, allowed, origin) =
        checked-next refresh required (outside p (verify_access_token p access) x) h in
      record {
        user = user;
        placed = placed;
        allowed = allowed;
        origin = elim origin [
          | inl (c, verified, same) ↦ inl (record {
            access_token = access;
            presented = refl;
            claims = c;
            verified = verified;
            same_user = same;
          })
          | inr rotation ↦ inr rotation
        ];
      }

  -- A request other than OPTIONS that passes the guard carries a refresh cookie, and leaves in the
  -- locals a user who holds one of the permissions that the route requires. The user comes from the
  -- claims of the access token, verified, or from a rotation that the api has accepted for the
  -- refresh token, verified.
  pub next-IsAuthorized :
      (required : Option (List Permission)) (req : Request) (x : Exchange W)
      → req.is_options ≡ false
      → (has_permission p required req x).0 ≡ ok next
      → ((token : String) × (req.refresh_token ≡ some token))
        × IsAuthorized required
            (present req.authorization)
            (present req.refresh_token)
            x.world
            (has_permission p required req x).1
  unfolding has_permission
  next-IsAuthorized required req x other h =
      let passed : (with_tokens p required (present req.authorization) (present req.refresh_token)
            x).0
          ≡ ok next =
        rw other at h in
      let (token, given) =
        some_token required (present req.authorization) (present req.refresh_token) x passed in
      (
        (token, present-inv req.refresh_token token given),
        rw other (
            with_tokens-next required (present req.authorization) (present req.refresh_token) x
              passed),
      )
