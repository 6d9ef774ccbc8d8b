-- ===== src/Executor.antt =====
-- custom_components/device_links/executor.py: one apply, from the plan to the report.
mod Types
mod Refuse
mod Prepare
mod Device
mod Finish
mod Run
mod Runner
pub mod Left
pub mod Progress
pub mod Attempts
pub mod Liveness
pub mod Calls
pub mod Permitted
pub mod Grouped
pub mod Protected
pub mod Stopping
pub mod Kept
pub mod Reported
pub mod Verified
unfoldable pub use Types.*
unfoldable pub use Refuse.*
unfoldable pub use Prepare.*
unfoldable pub use Device.*
unfoldable pub use Finish.*
unfoldable pub use Run.*
unfoldable pub use Runner.*
