-- ===== src/Model.antt =====
-- The rows of the tables and the enumerations of their columns (app/models).
mod Enums
mod Rows
mod Payloads
unfoldable pub use Enums.*
pub use Rows.*
pub use Payloads.*
