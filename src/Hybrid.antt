-- ===== src/Hybrid.antt =====
-- custom_components/device_links/hybrid.py: what a leg that Home Assistant runs does.
mod Indications
pub mod Paced
pub mod Spaced
unfoldable pub use Indications.*
