-- ===== src/Gateway/SamlConfig.antt =====
-- `SamlProviderConfig` of apps/gateway/src/sso/saml-types.ts, and the two halves that its builder
-- reads.
use fullstack_starter.Prelude.{String, Bool, Option, List}
use fullstack_starter.Gateway.PermissionMapper.{ClaimPermissionMapping}

pub data SignatureAlgorithm : Type 0 where
  sha256 sha512 : SignatureAlgorithm

-- `wantAssertionsSigned` is the constant `true`.
pub record SamlProviderConfig : Type 0 where
  pub id : String
  pub display_name : String
  pub icon_key : Option String
  pub entry_point : String
  pub issuer : String
  pub idp_issuer : String
  pub idp_cert_pems : List String
  pub callback_url : String
  pub signature_algorithm : SignatureAlgorithm
  pub want_assertions_signed : Bool
  pub allowed_domains : List String
  pub groups_attribute : String
  pub email_attribute : String
  pub permission_map : List ClaimPermissionMapping
  pub logout_url : Option String
  pub decryption_pvk : Option String
  pub force_authn : Bool
  pub disable_requested_authn_context : Bool

-- the identity provider, as the environment declares it
pub record SamlTrust : Type 0 where
  pub entry_point : String
  pub idp_issuer : String
  pub idp_cert_pems : List String
  pub callback_url : String
  pub default_sp_issuer : String

-- what its assertions may say
pub record SamlPolicy : Type 0 where
  pub signature_algorithm : SignatureAlgorithm
  pub allowed_domains : List String
  pub permission_map : List ClaimPermissionMapping
