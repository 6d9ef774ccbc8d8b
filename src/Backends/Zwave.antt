-- ===== src/Backends/Zwave.antt =====
-- custom_components/device_links/backends/zwave_protocol.py: what a Z-Wave device's association groups
-- can do, and which controls it offers by them.
mod Groups
mod Derive
mod Curated
mod Checks
pub mod Carried
pub mod Offered
unfoldable pub use Groups.*
unfoldable pub use Derive.*
unfoldable pub use Curated.*
unfoldable pub use Checks.*
