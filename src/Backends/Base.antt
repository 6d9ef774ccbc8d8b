-- ===== src/Backends/Base.antt =====
-- backends/base.py: the results of an adapter's calls, and what it reads of a device.
use ha_device_links.Prelude.{
  Text, Dict, ℕ, List, Option, some, none, Bool, true, false, Eq, Discrete-Eq,
}
use ha_device_links.Models.{DeviceHandle, Diagnostic, ObservedLink}

pub data SystemScope : Type 0 where
  slot entry : SystemScope

pub data LinkResultStatus : Type 0 where
  applied already_present pending_wakeup failed blocked : LinkResultStatus

unfoldable pub status_discrete : Discrete LinkResultStatus
status_discrete = hlevel

instance abbrev pub status_eq : Eq LinkResultStatus
status_eq = Discrete-Eq status_discrete

pub record LinkResult : Type 0 where
  pub status : LinkResultStatus
  pub reason : Option Diagnostic
  pub raw_error : Option Text

-- `_STATUSES_NEEDING_A_REASON`
abbrev pub needs_reason : LinkResultStatus → Bool
needs_reason failed = true
needs_reason blocked = true
needs_reason _ = false

-- `LinkResult.__post_init__`: `none` is the `ValueError`.
unfoldable pub new_link_result : LinkResult → Option LinkResult
new_link_result r = elim (needs_reason r.status) [
  | false ↦ some r
  | true ↦ elim r.reason [ none ↦ none | some _ ↦ some r ]
]

-- A setting's number, as the device reports it.
pub record ObservedDevice : Type 0 where
  pub handle : DeviceHandle
  pub links : List ObservedLink
  pub settings : Dict Text ℕ
  pub deep_verified : Bool
  pub deep_verify_timed_out : Bool
  pub deep_verify_skipped_reason : Option Text
