-- ===== src/Store.antt =====
-- internal/store/store.go: the audit summary.
pub mod Lines
pub mod Postgres
pub mod FileRepository
pub mod Summary
pub mod Files
pub mod Tally
