-- ===== src/Gateway/ProxyExamples.antt =====
-- A request that the gateway forwards.
use fullstack_starter.Prelude.{ℕ, String, refl, none, some, [], ◌∷◌, MapEntry, false, decimal}
use fullstack_starter.Async.{ok}
use fullstack_starter.Gateway.InternalAuth.{sign_claims, sign_user_context}
use fullstack_starter.Gateway.Platform.{Platform}
use fullstack_starter.Gateway.Session.{
  has_permission, with_tokens, accept_access, is_denied, has_any_permission,
}
use fullstack_starter.Gateway.TokenService.{verify_access_token}
use fullstack_starter.Gateway.Examples.{platform, start}
use fullstack_starter.Gateway.Proxy.{
  ProxyRequest, UpstreamRequest, minted_headers, sign_and_forward, with_user, proxy, upstream,
}
use fullstack_starter.Gateway.Proxy.Minted.{IsForwarded, proxy-IsForwarded}

-- a platform whose internal token is the subject
abbrev signing : Platform ℕ
signing = record platform {
  jose = record {
    sign = λ claims issuer audience ttl key w. (ok claims.sub, w);
    verify = λ token key issuer audience w. platform.jose.verify token key issuer audience w;
  };
}

abbrev header : String → String → MapEntry String
header name value = record { key = name; value = value }

abbrev incoming : ProxyRequest
incoming = record {
  request = record {
    is_options = false;
    authorization = some "access";
    refresh_token = some "refresh";
  };
  headers = header "x-internal-auth" "forged" ∷ header "accept" "json" ∷ [];
  path = "/user";
}

abbrev arriving : UpstreamRequest
arriving = record {
  url = "http://api:3200/v1/user";
  headers = header "accept" "json" ∷ header "x-internal-auth" "7" ∷ header "x-request-id" "u" ∷ [];
}

proxy_example : IsForwarded signing none (λ hs. hs) incoming start arriving
unfolding proxy sign_and_forward with_user sign_user_context sign_claims minted_headers decimal
    has_permission with_tokens accept_access is_denied has_any_permission verify_access_token
    upstream
proxy_example = proxy-IsForwarded signing none (λ hs. hs) incoming arriving start refl refl
