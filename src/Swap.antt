-- ===== src/Swap.antt =====
-- custom_components/device_links/swap.py: what becomes of the rules when one device takes over from
-- another.
mod Types
mod Mapping
mod Rewrite
mod Propose
mod Replacements
pub mod Retarget
pub mod Rewritten
pub mod Total
pub mod Mapped
pub mod Applied
pub mod Kept
pub mod Offered
unfoldable pub use Types.*
unfoldable pub use Mapping.*
unfoldable pub use Rewrite.*
unfoldable pub use Propose.*
unfoldable pub use Replacements.*
