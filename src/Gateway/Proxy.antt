-- ===== src/Gateway/Proxy.antt =====
-- apps/gateway/src/routes/proxy.routes.ts: what the gateway forwards to the api, and with which
-- internal token. What http-proxy-middleware makes of the headers of a request is a parameter.
pub mod Minted
use Prim.Native.String.{◌++◌}
use fullstack_starter.Prelude.{
  String, Option, none, some, or_else, map_option, present, JsMap, get, set, delete, drop_slash,
}
use fullstack_starter.Async.{Async, Result, ok, error, pure, ◌>>=◌, try_catch}
use fullstack_starter.Http.{Response, error_json}
use fullstack_starter.Gateway.InternalAuth.{sign_user_context}
use fullstack_starter.Gateway.Platform.{Platform}
use fullstack_starter.Gateway.Session.{
  UserContext, Exchange, Step, next, answer, Request, outside, fresh_uuid, has_permission,
}

-- A request of a browser, with its headers under their names in lower case.
pub record ProxyRequest : Type 0 where
  pub request : Request
  pub headers : JsMap String
  pub path : String

-- What goes to the api.
pub record UpstreamRequest : Type 0 where
  pub url : String
  pub headers : JsMap String

pub data Proxied : Type 0 where
  replied : Response (Unit {0}) → Proxied
  forwarded : UpstreamRequest → Proxied

abbrev pub internal_auth_header : String
internal_auth_header = "x-internal-auth"

abbrev pub internal_request_id_header : String
internal_request_id_header = "x-request-id"

abbrev pub strip_internal : JsMap String → JsMap String
strip_internal headers = delete (delete headers internal_auth_header) internal_request_id_header

abbrev pub set_given : JsMap String → String → Option String → JsMap String
set_given headers name none = headers
set_given headers name (some value) = set headers name value

-- the handler of `proxyReq`, for the values that the request carries
unfoldable pub minted_headers : JsMap String → String → String → JsMap String
minted_headers headers internal_token request_id =
    set_given
      (set_given (strip_internal headers) internal_auth_header (present (some internal_token)))
      internal_request_id_header (present (some request_id))

unfoldable pub upstream : Option String → String
unfolding drop_slash
upstream api_base_url = or_else (map_option drop_slash api_base_url) "http://api:3200"

module _ {W : Type 0} (p : Platform W) (api_base_url : Option String)
    (outgoing : JsMap String → JsMap String) where
  abbrev pub forward : ProxyRequest → String → String → Proxied
  forward req internal_token request_id = forwarded (record {
    url = upstream api_base_url ++ "/v1" ++ req.path;
    headers = minted_headers (outgoing (strip_internal req.headers)) internal_token request_id;
  })

  unfoldable pub sign_and_forward : ProxyRequest → UserContext → String → Async (Exchange W) Proxied
  unfolding sign_user_context minted_headers upstream
  sign_and_forward req user request_id =
      try_catch
        (do
          internal_token ← outside p (
              sign_user_context p.jose user.id user.permissions request_id
                (or_else p.env.internal_jwt_private_key "")
                (record { issuer = none; audience = none; ttl_seconds = none }))
          pure (forward req internal_token request_id))
        (λ e. pure (replied (error_json "Internal auth signing failed" 500)))

  unfoldable pub with_user : Option UserContext → ProxyRequest → Async (Exchange W) Proxied
  unfolding sign_and_forward
  with_user none req = pure (replied (error_json "Unauthorized" 401))
  with_user (some user) req = do request_id ← fresh_uuid p; sign_and_forward req user request_id

  abbrev pub after_guard : ProxyRequest → Step → Async (Exchange W) Proxied
  after_guard req next x = with_user x.local_user req x
  after_guard req (answer response) x = (ok (replied response), x)

  unfoldable pub proxy : ProxyRequest → Async (Exchange W) Proxied
  unfolding has_permission with_user
  proxy req = do step ← has_permission p none req.request; after_guard req step
