-- ===== src/Diff.antt =====
-- custom_components/device_links/diff.py: what differs between a profile and the links somebody
-- recorded.
mod Changes
pub mod Complete
pub mod Covered
unfoldable pub use Changes.*
