-- ===== src/Admin.antt =====
-- internal/admin: the private half of the site.
pub mod Session
pub mod Limiter
pub mod Password
pub mod Render
pub mod Auth
pub mod Store
pub mod Writing
pub mod Lists
pub mod Assets
pub mod Routes
