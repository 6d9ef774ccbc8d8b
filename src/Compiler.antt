-- ===== src/Compiler.antt =====
-- custom_components/device_links/compiler.py: one rule's intent in, links, settings and hybrid legs
-- out.
mod State
mod Find
mod Legs
mod Hybrid
mod Settings
mod Run
pub mod Post
pub mod Frame
pub mod Expressed
pub mod Links
pub mod Directions
pub mod Soundness
unfoldable pub use State.*
unfoldable pub use Find.*
unfoldable pub use Legs.*
unfoldable pub use Hybrid.*
unfoldable pub use Settings.*
unfoldable pub use Run.*
