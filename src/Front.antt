-- ===== src/Front.antt =====
-- apps/front: the browser side.
pub mod Guards
pub mod SafeRedirect
pub mod Session
pub mod Language
pub mod AppState
mod Examples
mod SessionExamples
mod StorageExamples
