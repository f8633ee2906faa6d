-- ===== src/Gateway.antt =====
-- apps/gateway: the public side. It issues the tokens of a session, checks them on each request and
-- rotates them by calls to the api.
pub mod InternalAuth
pub mod ApiClient
pub mod Platform
pub mod TokenService
pub mod Session
pub mod AuthController
pub mod Proxy
pub mod SafeReturn
pub mod PermissionMapper
pub mod RequestCache
pub mod FederationUrl
pub mod PermissionMap
pub mod IdpCerts
pub mod SamlConfig
pub mod SamlRegistry
pub mod ProviderRegistry
pub mod SsoTransaction
pub mod SignedCookie
pub mod FederatedRegistry
pub mod SsoState
pub mod SamlClient
pub mod SamlProfile
pub mod SamlController
pub mod SamlLogout
pub mod SsoController
pub mod SsoCallback
pub mod SsoLogout
mod Examples
mod ProxyExamples
mod SsoExamples
