-- ===== src/User.antt =====
-- The accounts: the record of internal/store/store.go with its transactions, the manager's
-- operations of internal/user/manager.go, and the daemon's accounting and enforcement of
-- internal/daemon/daemon.go.
pub mod Account
pub mod Bucket
pub mod Session
pub mod Scan
pub mod Manager
pub mod Locks
pub mod Operations
pub mod Lifetime
pub mod Enforce
pub mod Create
pub mod Accounting
pub mod Remove
mod Tests
mod ScanTests
