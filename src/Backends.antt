-- ===== src/Backends.antt =====
-- custom_components/device_links/backends: what every adapter answers with.
mod Base
pub mod Zwave
unfoldable pub use Base.*
