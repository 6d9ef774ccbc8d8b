-- ===== src/Coordinator/State.antt =====
-- coordinator.py: the coordinator's attributes and its plain reads.
use ha_device_links.Prelude.{
  Text, Dict, ℕ, List, Option, Bool, not, ◌&&◌, contains, get, has, list_eq, nat_eq,
}
use ha_device_links.Models.{Backend, backend_eq, DeviceHandle, identity, Capabilities, Link}
use ha_device_links.Compiler.{CompiledRule}
use ha_device_links.Backends.{SystemScope, ObservedDevice}
use ha_device_links.Storage.{StoredState}

-- Of an adapter the coordinator's readers ask `system_scope()` alone. The subscriptions, the
-- listeners and the flush timer's handle are Home Assistant's; `flush_armed` says that one is set.
pub record Coordinator : Type 0 where
  pub backends : Dict Backend SystemScope
  pub state : StoredState
  pub handles : Dict Text DeviceHandle
  pub capabilities : Capabilities
  pub observed : Dict Text ObservedDevice
  pub unavailable : List Text
  pub compiled : Dict Text CompiledRule
  pub owners : Dict Text Text
  pub desired : List Link
  pub pending : List Text
  pub flush_armed : Bool
  pub backend_available : Dict Backend Bool
  pub last_error : Option (Text × Text)
  pub held : Dict Text ℕ
  pub hybrid_allowed : Bool

unfoldable pub observed_for : Coordinator → DeviceHandle → Option ObservedDevice
observed_for c h = get c.observed (identity h)

unfoldable pub is_available : Coordinator → Text → Bool
is_available c device = has c.observed device && not (contains c.unavailable device)

unfoldable pub backend_for : Coordinator → DeviceHandle → Option SystemScope
backend_for c h = get c.backends h.backend
