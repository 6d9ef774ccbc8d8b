-- ===== src/Models/Devices.antt =====
-- models.py: devices as a rule refers to them, and what a device can do.
use ha_device_links.Prelude.{
  Eq, Text, Dict, Discrete-Eq, ℕ, List, [], ◌∷◌, ◌++◌, Option, Bool, str, list_eq, nat_eq,
  ℕ_discrete,
}
use ha_device_links.Models.Enums.{Backend, Feature, backend_text}

pub data DeviceFingerprint : Type 0 where
  zwave_fingerprint :
      (manufacturer_id product_type product_id : ℕ) (firmware : Text) → DeviceFingerprint
  zigbee_fingerprint : (manufacturer model : Text) → DeviceFingerprint
  matter_fingerprint : (vendor product : Text) → DeviceFingerprint

unfoldable pub model_key : DeviceFingerprint → List Text
model_key (zwave_fingerprint m t p _) = str m ∷ str t ∷ str p ∷ []
model_key (zigbee_fingerprint m n) = m ∷ n ∷ []
model_key (matter_fingerprint v p) = v ∷ p ∷ []

pub record DeviceHandle : Type 0 where
  pub backend : Backend
  pub protocol_id : Text
  pub ha_device_id : Text
  pub fingerprint : DeviceFingerprint
  pub name_at_authoring : Text

-- `f"{self.backend}:{self.protocol_id}"`
unfoldable pub identity : DeviceHandle → Text
identity h = backend_text h.backend ++ (b':' ∷ h.protocol_id)

pub record LinkTarget : Type 0 where
  pub handle : DeviceHandle
  pub endpoint : Option ℕ

pub record Emitter : Type 0 where
  pub emitter_id : Text
  pub label : Text
  pub endpoint : ℕ
  pub group_ids : List Text
  pub actions : Dict Feature Text
  pub capacity : ℕ
  pub supports_endpoint_targets : Bool
  pub is_lifeline : Bool
  pub grouping : Text
  pub semantics : Option Text
  pub scene_id : Option ℕ
  pub indicator_id : Option ℕ

pub record SettingsAdapter : Type 0 where
  pub parameter : ℕ
  pub bitmask : Option ℕ
  pub values : Dict Text ℕ

pub record DeviceCapabilities : Type 0 where
  pub handle : DeviceHandle
  pub emitters : List Emitter
  pub receivable : List Feature
  pub is_long_range : Bool
  pub settings : Dict Text SettingsAdapter
  pub receiving_endpoint : Option ℕ

-- `Mapping[str, DeviceCapabilities]`, by the identity of the device
abbrev pub Capabilities : Type 0
Capabilities = Dict Text DeviceCapabilities

unfoldable pub handle_discrete : Discrete DeviceHandle
handle_discrete = hlevel ℕ_discrete

instance abbrev pub handle_eq : Eq DeviceHandle
handle_eq = Discrete-Eq handle_discrete
