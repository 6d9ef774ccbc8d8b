-- ===== src/Storage.antt =====
-- custom_components/device_links/storage.py: what is kept across restarts.
mod State
pub mod Bounds
unfoldable pub use State.*
