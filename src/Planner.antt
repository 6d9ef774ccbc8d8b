-- ===== src/Planner.antt =====
-- custom_components/device_links/planner.py: the plan that takes the devices from what they hold to
-- what is wanted.
mod Classify
mod Adds
mod Build
pub mod Classes
pub mod Safety
pub mod Sequence
pub mod Completeness
pub mod Capacity
unfoldable pub use Classify.*
unfoldable pub use Adds.*
unfoldable pub use Build.*
