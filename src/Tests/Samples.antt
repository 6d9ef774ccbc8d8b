-- ===== src/Tests/Samples.antt =====
-- A two-paddle switch that drives two lamps.
use ha_device_links.Prelude.{Text, List, [], ◌∷◌, none, some, true, false}
use ha_device_links.Models.{
  zwave, on_off, level_hold, remote, two_way, leave, DeviceHandle, zwave_fingerprint, Emitter,
  DeviceCapabilities, Capabilities, Rule, Link, ObservedLink, identity,
}

abbrev pub handle : Text → Text → DeviceHandle
handle node name = record {
  backend = zwave;
  protocol_id = node;
  ha_device_id = [];
  fingerprint = zwave_fingerprint 634 1 2 [];
  name_at_authoring = name;
}

-- Node ids as single characters keep the samples small.
abbrev pub switch : DeviceHandle
switch = handle (b'7' ∷ []) (b's' ∷ [])

abbrev pub lamp : DeviceHandle
lamp = handle (b'8' ∷ []) (b'l' ∷ [])

abbrev pub paddle : Emitter
paddle = record {
  emitter_id = b'p' ∷ [];
  label = b'P' ∷ [];
  endpoint = 0;
  group_ids = (b'2' ∷ []) ∷ (b'4' ∷ []) ∷ [];
  actions = (on_off, b'2' ∷ []) ∷ (level_hold, b'4' ∷ []) ∷ [];
  capacity = 1;
  supports_endpoint_targets = false;
  is_lifeline = false;
  grouping = [];
  semantics = none;
  scene_id = some 1;
  indicator_id = none;
}

abbrev pub capabilities_of_device : DeviceHandle → DeviceCapabilities
capabilities_of_device h = record {
  handle = h;
  emitters = paddle ∷ [];
  receivable = on_off ∷ level_hold ∷ [];
  is_long_range = false;
  settings = [];
  receiving_endpoint = none;
}

abbrev pub network : Capabilities
network =
    (identity switch, capabilities_of_device switch)
    ∷ (identity lamp, capabilities_of_device lamp)
    ∷ []

abbrev pub rule : Rule
rule = record {
  id = b'r' ∷ [];
  name = b'R' ∷ [];
  template = remote;
  backend = zwave;
  source = record { device = switch; endpoint = 0; emitter_id = b'p' ∷ [] };
  targets = record { device = lamp; endpoint = none } ∷ [];
  features = on_off ∷ level_hold ∷ [];
  direction = two_way;
  mirror_source = leave;
  enabled = true;
  hybrid = [];
}

abbrev pub link : Link
link = record {
  backend = zwave;
  source = switch;
  source_endpoint = 0;
  emitter_id = b'p' ∷ [];
  target = record { handle = lamp; endpoint = none };
  feature = on_off;
  emitter_group = b'2' ∷ [];
  rule_id = some (b'r' ∷ []);
}

-- The same write, from another rule and through a control of another name.
abbrev pub moved : Link
moved = record link { rule_id = none; emitter_id = b'q' ∷ [] }

abbrev pub dimming : Link
dimming = record link { feature = level_hold; emitter_group = b'4' ∷ [] }

-- A lifeline, an owned entry that no rule wants, and a stranger's entry.
abbrev pub lifeline : ObservedLink
lifeline = record {
  link = record link { emitter_group = b'1' ∷ [] };
  is_system = true;
  managed_by = none;
}

abbrev pub owned : ObservedLink
owned = record {
  link = record link { emitter_group = b'3' ∷ [] };
  is_system = false;
  managed_by = some (b'r' ∷ []);
}

abbrev pub foreign : ObservedLink
foreign = record {
  link = record link { emitter_group = b'2' ∷ []; source_endpoint = 1 };
  is_system = false;
  managed_by = none;
}

abbrev pub desired_links : List Link
desired_links = link ∷ dimming ∷ []

abbrev pub observed_links : List ObservedLink
observed_links = lifeline ∷ owned ∷ foreign ∷ []

-- A digest that forgets nothing.
abbrev pub digest : Text → Text
digest s = s
