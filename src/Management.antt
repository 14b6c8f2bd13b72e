-- ===== src/Management.antt =====
-- management.go: the actions of the panel, the accounts of the host, the routes and the status.
pub mod Selection
pub mod Clear
pub mod Refresh
pub mod Routes
pub mod Accounts
pub mod Status
