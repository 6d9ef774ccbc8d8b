-- ===== src/Coordinator.antt =====
-- custom_components/device_links/coordinator.py: what is known of the devices, and what the active
-- profile wants of them.
mod State
mod Holds
mod Ownership
mod Reads
mod Plans
mod Drift
pub mod Held
pub mod Armed
pub mod Owned
pub mod Refreshed
pub mod Scope
pub mod Scoped
pub mod Presence
pub mod Standing
pub mod Counted
unfoldable pub use State.*
unfoldable pub use Holds.*
unfoldable pub use Ownership.*
unfoldable pub use Reads.*
unfoldable pub use Plans.*
unfoldable pub use Drift.*
