-- ===== src/Domain.antt =====
-- internal/domain/types.go: the records that the other parts share. The validation of a policy is
-- in the child `Validate`.
pub mod Validate
mod Catalog
mod Policies
mod Requests
mod Decisions
mod Outcomes
pub use Catalog.*
pub use Policies.*
pub use Requests.*
pub use Decisions.*
unfoldable pub use Outcomes.*
