-- ===== src/Models.antt =====
-- custom_components/device_links/models.py: the value types that every layer shares.
mod Errors
mod Enums
mod Devices
mod Links
mod Rules
mod Plans
pub mod Escaping
pub mod Identity
pub mod Grouping
pub mod Validation
unfoldable pub use Errors.*
unfoldable pub use Enums.*
unfoldable pub use Devices.*
unfoldable pub use Links.*
unfoldable pub use Rules.*
unfoldable pub use Plans.*
