-- ===== src/Gateway/Proxy/Minted.antt =====
-- What reaches the api: requests of authorized users only, under a token that the gateway has minted.
use Prim.Native.String.{◌++◌}
use fullstack_starter.Prelude.{
  String, ◌≡◌, refl, sym, ap, ◌∙◌, inl, inr, false, Bool-cases, Option, none, some, or_else,
  present, decimal, normalise_pem, is_truthy, JsMap, get, delete, get-set, get-set_other,
  get-delete, get-delete_other, ◌==◌,
}
use fullstack_starter.Async.{ok, Result-cases, ok-injective, and_then-inv}
use fullstack_starter.Gateway.InternalAuth.{InternalClaims, user_request, sign_claims}
use fullstack_starter.Gateway.Platform.{Platform}
use fullstack_starter.Gateway.Session.{UserContext, Exchange, Step, next, answer, has_permission}
use fullstack_starter.Gateway.Session.Access.{IsAuthorized, next-IsAuthorized}
use fullstack_starter.Gateway.Proxy.{
  ProxyRequest, UpstreamRequest, Proxied, forwarded, replied, internal_auth_header,
  internal_request_id_header, strip_internal, set_given, minted_headers, forward, sign_and_forward,
  with_user, after_guard, proxy, upstream,
}

-- what the token of a user says
abbrev pub user_claims : UserContext → String → InternalClaims
user_claims user request_id = record {
  sub = decimal user.id;
  scope = user_request;
  permissions = user.permissions;
  request_id = request_id;
}

strip_internal-auth : (hs : JsMap String) → get (strip_internal hs) internal_auth_header ≡ none
strip_internal-auth hs =
    get-delete_other (delete hs internal_auth_header) internal_request_id_header
      internal_auth_header refl
    ∙ get-delete hs internal_auth_header

strip_internal-id : (hs : JsMap String) → get (strip_internal hs) internal_request_id_header ≡ none
strip_internal-id hs = get-delete (delete hs internal_auth_header) internal_request_id_header

get-set_given :
    (hs : JsMap String) (name : String) (value : Option String)
    → get hs name ≡ none
    → get (set_given hs name value) name ≡ value
get-set_given hs name none free = free
get-set_given hs name (some value) free = get-set hs name value

get-set_given_other :
    (hs : JsMap String) (j k : String) (value : Option String)
    → (j == k) ≡ false
    → get (set_given hs j value) k ≡ get hs k
get-set_given_other hs j k none apart = refl
get-set_given_other hs j k (some value) apart = get-set_other hs j k value apart

minted_headers-auth :
    (hs : JsMap String) (token request_id : String)
    → get (minted_headers hs token request_id) internal_auth_header ≡ present (some token)
unfolding minted_headers
minted_headers-auth hs token request_id =
    get-set_given_other (set_given (strip_internal hs) internal_auth_header (present (some token)))
      internal_request_id_header internal_auth_header (present (some request_id)) refl
    ∙ get-set_given (strip_internal hs) internal_auth_header (present (some token))
        (strip_internal-auth hs)

minted_headers-id :
    (hs : JsMap String) (token request_id : String)
    → get (minted_headers hs token request_id) internal_request_id_header
      ≡ present (some request_id)
unfolding minted_headers
minted_headers-id hs token request_id =
    get-set_given (set_given (strip_internal hs) internal_auth_header (present (some token)))
      internal_request_id_header (present (some request_id))
      (get-set_given_other (strip_internal hs) internal_auth_header internal_request_id_header
          (present (some token)) refl
        ∙ strip_internal-id hs)

-- The two internal headers are the gateway's: a token that jose has signed, for the audience of the
-- api, for this user, this user's permissions and a request id of the gateway's own.
pub record IsMinted {W : Type 0} (p : Platform W) (user : UserContext) (u : UpstreamRequest)
    : Type 0 where
  pub request_id : String
  pub token : String
  pub drawn : W
  pub fresh : request_id ≡ (p.random_uuid drawn).0
  pub signed :
      (p.jose.sign
        (user_claims user request_id)
        "gateway"
        "api"
        60
        (normalise_pem (or_else p.env.internal_jwt_private_key ""))
        (p.random_uuid drawn).1).0
      ≡ ok token
  pub auth_header : get u.headers internal_auth_header ≡ present (some token)
  pub id_header : get u.headers internal_request_id_header ≡ present (some request_id)

forwarded_value : Proxied → UpstreamRequest → UpstreamRequest
forwarded_value (replied response) u = u
forwarded_value (forwarded v) u = v

forwarded-injective : {u v : UpstreamRequest} → forwarded u ≡ forwarded v → u ≡ v
unfolding forwarded_value
forwarded-injective {u} h = ap (λ r. forwarded_value r u) h

module _ {W : Type 0} (p : Platform W) (api_base_url : Option String)
    (outgoing : JsMap String → JsMap String) where
  sign_and_forward-inv :
      (req : ProxyRequest) (user : UserContext) (request_id : String) (u : UpstreamRequest)
      (x : Exchange W)
      → (sign_and_forward p api_base_url outgoing req user request_id x).0 ≡ ok (forwarded u)
      → (token : String) × ((p.jose.sign
            (user_claims user request_id)
            "gateway"
            "api"
            60
            (normalise_pem (or_else p.env.internal_jwt_private_key ""))
            x.world).0
          ≡ ok token)
        × (forward p api_base_url outgoing req token request_id ≡ forwarded u)
  unfolding sign_and_forward sign_claims
  sign_and_forward-inv req user request_id u x h =
      let key = or_else p.env.internal_jwt_private_key "" in
      elim (Bool-cases (is_truthy key)) [
        | inr missing ↦ cc (rw missing at h)
        | inl given ↦
            elim (Result-cases
              (p.jose.sign (user_claims user request_id) "gateway" "api" 60 (normalise_pem key)
                x.world).0) [
                  | inr (e, failed) ↦ cc (rw (given, failed) at h)
                  | inl (token, signed) ↦ (token, signed, ok-injective (rw (given, signed) at h))
                ]
      ]

  -- where a path on the gateway goes
  abbrev pub upstream_url : ProxyRequest → String
  upstream_url req = upstream api_base_url ++ "/v1" ++ req.path

  with_user-IsMinted :
      (user : Option UserContext) (req : ProxyRequest) (u : UpstreamRequest) (x : Exchange W)
      → (with_user p api_base_url outgoing user req x).0 ≡ ok (forwarded u)
      → (sender : UserContext) × (user ≡ some sender)
        × IsMinted p sender u
        × (u.url ≡ upstream_url req)
  unfolding with_user
  with_user-IsMinted none req u x h = cc
  with_user-IsMinted (some user) req u x h =
      let request_id = (p.random_uuid x.world).0 in
      let drawn : Exchange W = record x { world = (p.random_uuid x.world).1 } in
      let (token, signed, made) = sign_and_forward-inv req user request_id u drawn h in
      let sent = forwarded-injective made in
      let before = outgoing (strip_internal req.headers) in
      (
        user,
        refl,
        record {
          request_id = request_id;
          token = token;
          drawn = x.world;
          fresh = refl;
          signed = signed;
          auth_header =
              ap (λ v. get v.headers internal_auth_header) (sym sent)
              ∙ minted_headers-auth before token request_id;
          id_header =
              ap (λ v. get v.headers internal_request_id_header) (sym sent)
              ∙ minted_headers-id before token request_id;
        },
        ap (λ v. v.url) (sym sent),
      )

  -- A user who has passed the guard has sent the request, which goes on in the gateway's name.
  abbrev pub IsForwarded : ProxyRequest → Exchange W → UpstreamRequest → Type 0
  IsForwarded req x u =
      IsAuthorized p none (present req.request.authorization) (present req.request.refresh_token)
        x.world (has_permission p none req.request x).1
      × ((user : UserContext) × ((has_permission p none req.request x).1.local_user ≡ some user)
          × IsMinted p user u)
      × (u.url ≡ upstream_url req)

  -- Without a user nothing is forwarded: an OPTIONS request passes the guard, and ends here.
  options-free :
      (req : ProxyRequest) (user : UserContext) (x : Exchange W)
      → x.local_user ≡ none
      → (has_permission p none req.request x).1.local_user ≡ some user
      → req.request.is_options ≡ false
  unfolding has_permission
  options-free req user x empty placed = elim (Bool-cases req.request.is_options) [
    | inl options ↦ cc (empty, rw options at placed)
    | inr other ↦ other
  ]

  after_guard-IsForwarded :
      (step : Step) (req : ProxyRequest) (u : UpstreamRequest) (x : Exchange W)
      → x.local_user ≡ none
      → (has_permission p none req.request x).0 ≡ ok step
      → (after_guard p api_base_url outgoing req step (has_permission p none req.request x).1).0
        ≡ ok (forwarded u)
      → IsForwarded req x u
  after_guard-IsForwarded (answer response) req u x empty passed sent = cc
  after_guard-IsForwarded next req u x empty passed sent =
      let after = (has_permission p none req.request x).1 in
      let (user, placed, minted, there) = with_user-IsMinted after.local_user req u after sent in
      let (refresh, authorized) =
        next-IsAuthorized p none req.request x (options-free req user x empty placed) passed in
      (authorized, (user, placed, minted), there)

  -- A request that is forwarded to the api, with no user in its locals before the guard, has passed
  -- the guard: its user comes from a verified access token or from an accepted rotation. It goes to
  -- the path under `/v1`, and its two internal headers are the gateway's own, whatever the browser
  -- has sent under their names: the token is one that jose has signed for this user, with this
  -- user's permissions and a request id drawn for it, for the audience of the api.
  pub proxy-IsForwarded :
      (req : ProxyRequest) (u : UpstreamRequest) (x : Exchange W)
      → x.local_user ≡ none
      → (proxy p api_base_url outgoing req x).0 ≡ ok (forwarded u)
      → IsForwarded req x u
  unfolding proxy
  proxy-IsForwarded req u x empty h =
      let guarded = has_permission p none req.request x in
      let (step, passed, went, sent) =
        and_then-inv guarded (after_guard p api_base_url outgoing req) (forwarded u) h in
      after_guard-IsForwarded step req u x empty passed sent
