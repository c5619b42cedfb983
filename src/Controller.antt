-- ===== src/Controller.antt =====
-- pkg/common/base_controller.go. A handler maps the request to the reply that it writes, and passes
-- the global i18n manager on. What the framework does with the reply is left out.
pub mod Reply
pub mod Query
pub mod Handlers
pub mod Paging
pub mod Slices
pub mod Pages
pub mod Status
pub mod Auto
mod Tests
