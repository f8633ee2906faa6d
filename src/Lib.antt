-- ===== src/Lib.antt =====
-- Fullstack starter: a web application of a public gateway (apps/gateway), a private service over a
-- database (apps/api) and a browser front end (apps/front), with shared libraries (libs). The browser
-- talks to the gateway only. The gateway keeps no session: it issues a short access token and a
-- refresh token in a cookie, and calls the api with an internal token to check passwords, to resolve
-- the users of an identity provider, and to record, rotate and revoke refresh tokens.
--
-- The files, and the code that each models:
--   Prelude, Prelude/*: Boolean tests, lists, options, maps, decimal numbers and the text functions of
--     JavaScript, with `normalisePem` of libs/internal-auth/src/lib/internal-auth.signer.ts.
--   Async: asynchronous methods as functions from a state to a result and a state; `await` is a bind,
--     `throw` and `try` keep what was written before. Throwing: the same without a state.
--   Dto: `Permission` and `UserDTO` of libs/rest-dto/src/lib/rest-dto.ts.
--   Http: `HttpResponser` of apps/api/src/adapters/http/http.responser.ts and of the gateway.
--   Api/Model: what the api uses of a Sequelize model, with the laws that the theorems rely on.
--   Api/MemoryModel, Api/SideBySide: tables in memory that meet those laws.
--   Api/RefreshFamily: apps/api/src/services/refresh-token-family.service.ts, its methods `record`,
--     `rotate`, `revokeFamily` and `revokeByJti`; under it Branches, Spent (the statements of the
--     service as steps, and runs of them), Reuse and Interleaving.
--   Api/RefreshLifecycle: apps/api/src/controllers/refresh-lifecycle.controller.ts.
--   Api/AuthService: apps/api/src/services/auth.service.ts.
--   Api/UserCrud: apps/api/src/services/user-crud.service.ts.
--   Api/UserReads: the reads `getAllPaged`, `getAll` and `getById` of
--     apps/api/src/services/abstract-crud.service.ts.
--   Api/UserEndpoints: apps/api/src/controllers/abstract-crud.controller.ts over the accounts, with
--     apps/api/src/routes/user-crud.routes.ts and apps/api/src/middleware/validate.middleware.ts;
--     under it Answers, Admins and Access.
--   Api/DbConnection: the retries of apps/api/src/adapters/db/pg.connector.ts.
--   Api/Federated: apps/api/src/services/federated-identity.service.ts; under it Permissions, Origin
--     (what a resolution promises), Links and Resolution.
--   Api/InternalControllers: apps/api/src/controllers/internal-auth.controller.ts and
--     federated-identity.controller.ts.
--   Api/DbErrors: apps/api/src/middleware/db-error.middleware.ts.
--   Gateway/InternalAuth: `signUserContext`, `signSystemContext`, `verifyInternalAuth` and
--     `requireInternalAuth` of libs/internal-auth/src/lib.
--   Gateway/ApiClient: apps/gateway/src/clients/api.client.ts.
--   Gateway/Platform: the environment and the libraries of the gateway, as parameters.
--   Gateway/TokenService: apps/gateway/src/services/token.service.ts.
--   Gateway/Session: apps/gateway/src/middleware/auth.middleware.ts.
--   Gateway/Proxy: apps/gateway/src/routes/proxy.routes.ts.
--   Gateway/AuthController: apps/gateway/src/controllers/auth.controller.ts.
--   Gateway/PermissionMapper: apps/gateway/src/sso/permission-mapper.ts.
--   Gateway/SsoTransaction, Gateway/SafeReturn: the cookie and `safeReturnTo` of
--     apps/gateway/src/sso/sso-transaction.service.ts.
--   Gateway/FederationUrl, Gateway/PermissionMap, Gateway/ProviderRegistry:
--     apps/gateway/src/sso/provider-registry.ts, its URL guard (under it Safe, and Dotted for hosts of
--     four numbers), its mappings of groups, and the providers of OIDC that it builds.
--   Gateway/IdpCerts, Gateway/SamlConfig, Gateway/SamlRegistry:
--     apps/gateway/src/sso/saml-provider-registry.ts and saml-types.ts.
--   Gateway/FederatedRegistry: apps/gateway/src/sso/federated-registry.ts.
--   Gateway/RequestCache, Gateway/SamlClient: apps/gateway/src/sso/saml-client.ts, its bounded cache of
--     requests and its clients, with the clients of apps/gateway/src/sso/discovery.ts.
--   Gateway/SignedCookie: the cookies of apps/gateway/src/sso/saml-transaction.service.ts,
--     sso-logout.service.ts and saml-logout.service.ts.
--   Gateway/SsoState: the state of the single sign-on controllers, and their libraries as parameters.
--   Gateway/SsoController, Gateway/SsoCallback, Gateway/SsoLogout:
--     apps/gateway/src/controllers/sso.controller.ts, its login, its callback and its logout.
--   Gateway/SamlController, Gateway/SamlProfile, Gateway/SamlLogout:
--     apps/gateway/src/controllers/saml.controller.ts, its login and assertion consumer, what it asks
--     of a profile, and its metadata and single logout.
--   Front/Guards: apps/front/src/app/libs/auth/guards, with the tests on permissions of
--     apps/front/src/app/libs/auth/services/auth.service.ts.
--   Front/Session: the rest of that service, and the interceptor
--     apps/front/src/app/libs/auth/interceptors/auth.interceptor.ts, as steps of the browser; under it
--     Runs, Tokens and Late.
--   Front/Language: apps/front/src/app/services/language.service.ts and
--     constants/languages.constant.ts.
--   Front/AppState: apps/front/src/app/services/abstract-state.class.ts.
--   Front/SafeRedirect: apps/front/src/app/libs/auth/safe-redirect.ts.
--   Api/Examples, Api/UserExamples, Api/EndpointExamples, Gateway/Examples, Gateway/ProxyExamples,
--     Gateway/SsoExamples, Front/Examples, Front/SessionExamples,
--     Front/StorageExamples: runs at concrete inputs.
--
-- Every definition is structural but `decimal` of Prelude/Decimal, whose fuel for a number n is n + 1:
-- `decimal-injective` reads the number back. The loops of Api/DbConnection recurse on the attempts that
-- are left. Numbers are natural numbers, dates are milliseconds, and texts are sequences of code
-- points; `toLowerCase` folds the letters of ASCII only, and a length counts code points.
-- A name that is null in the table of users is the empty text. The guard of federation URLs knows the
-- ranges of IPv4 and the host `::1`; what is safe follows it, and no other host of IPv6 is told apart.
-- The database, bcrypt, jose, jsonwebtoken, openid-client, node-saml, `X509Certificate`, `new URL`,
-- what zod makes of a field, the schemas of a body, http-proxy-middleware, `localeCompare`, `randomUUID`, `Math.random`, the
-- environment and the network are parameters. Not modelled: the rate limits, which are calls of a
-- library; the wiring of express in the other routes and the entry points; the options and the hooks
-- of sequelize; what goes to a log; and the pages, the forms and the other services of the front end.
pub mod Prelude
pub mod Async
pub mod Throwing
pub mod Dto
pub mod Http
pub mod Api
pub mod Gateway
pub mod Front
