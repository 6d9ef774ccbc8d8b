-- ===== src/Backends/Zwave/Checks.antt =====
-- zwave_protocol.py: what the driver says of an association before it is written.
use ha_device_links.Prelude.{
  Text, text, Dict, ℕ, [], ◌∷◌, Option, some, none, Bool, get, str, ◌==◌, nat_eq, if◌then◌else◌,
}

pub data CheckResult : Type 0 where
  check_ok destination_is_long_range source_is_long_range self_association security_class_mismatch
        destination_security_class_not_granted no_supported_ccs :
      CheckResult

abbrev pub check_value : CheckResult → ℕ
check_value check_ok = 1
check_value destination_is_long_range = 2
check_value source_is_long_range = 3
check_value self_association = 4
check_value security_class_mismatch = 5
check_value destination_security_class_not_granted = 6
check_value no_supported_ccs = 7

pub record BlockedReason : Type 0 where
  pub translation_key : Text
  pub placeholders : Dict Text Text

abbrev pub plain_reason : Text → BlockedReason
plain_reason key = record { translation_key = key; placeholders = [] }

-- `_BLOCKED_REASONS`
abbrev pub blocked_reasons : Dict ℕ BlockedReason
blocked_reasons =
    (check_value destination_is_long_range, plain_reason (text "target_is_long_range"))
    ∷ (check_value source_is_long_range, plain_reason (text "source_is_long_range"))
    ∷ (check_value self_association, plain_reason (text "self_association"))
    ∷ (check_value security_class_mismatch, plain_reason (text "security_class_mismatch"))
    ∷ (
      check_value destination_security_class_not_granted,
      plain_reason (text "target_security_class_not_granted"),
    )
    ∷ (check_value no_supported_ccs, plain_reason (text "no_supported_commands"))
    ∷ []

-- `is_ok`
abbrev pub is_ok : ℕ → Bool
is_ok value = value == check_value check_ok

abbrev pub reason_or_unknown : ℕ → Option BlockedReason → BlockedReason
reason_or_unknown value none = record {
  translation_key = text "unknown_check_result";
  placeholders = (text "value", str value) ∷ [];
}
reason_or_unknown value (some r) = r

-- `blocked_reason_for`
unfoldable pub blocked_reason_for : ℕ → Option BlockedReason
blocked_reason_for value =
    if is_ok value then none else some (reason_or_unknown value (get blocked_reasons value))
