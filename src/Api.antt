-- ===== src/Api.antt =====
-- apps/api: the private service over the database.
pub mod Model
pub mod MemoryModel
pub mod SideBySide
pub mod RefreshFamily
pub mod AuthService
pub mod UserCrud
pub mod RefreshLifecycle
pub mod Federated
pub mod InternalControllers
pub mod DbConnection
pub mod DbErrors
pub mod UserReads
pub mod UserEndpoints
mod Examples
mod UserExamples
mod EndpointExamples
