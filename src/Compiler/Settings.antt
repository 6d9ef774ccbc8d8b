-- ===== src/Compiler/Settings.antt =====
-- compiler.py: the doubts about a control, and the mirror setting.
use ha_device_links.Prelude.{
  Text, text, [], ◌∷◌, ◌++◌, Option, some, none, not, ◌==◌, any, get, list_eq, nat_eq, option_eq,
  pair_ord, list_ord, nat_ord, if◌then◌else◌,
}
use ha_device_links.Models.{
  button_led, off_all, leave, mirror_text, mirror_eq, feature_eq, kind_eq, direction_eq,
  template_eq, Emitter, DeviceCapabilities, SettingsAdapter, HybridLeg, Rule,
}
use ha_device_links.Compiler.State.{Compilation, message, warn}

abbrev doubt : Text → DeviceCapabilities → Emitter → Compilation → Compilation
doubt key source e c =
    warn
      (message key
        ((text "emitter", e.label) ∷ (text "device", source.handle.name_at_authoring) ∷ []))
      c

-- `_check_semantics`; `SEMANTICS_UNKNOWN` is "unknown".
unfoldable pub check_semantics : Rule → DeviceCapabilities → Emitter → Compilation → Compilation
check_semantics rule source e c =
    if not (e.semantics == some (text "unknown"))
    then c
    else let c1 =
        if rule.template == off_all
        then doubt (text "button_semantics_unknown") source e c
        else c in
      if any (λ (l : HybridLeg). not (l.kind == button_led)) c1.hybrid_legs
      then doubt (text "hybrid_scene_unverified") source e c1
      else c1

-- `MIRROR_CAPABILITY`
abbrev pub mirror_capability : Text
mirror_capability = text "mirror_hub_commands"

unfoldable pub mirror_missing : Rule → DeviceCapabilities → Compilation → Compilation
mirror_missing rule source c =
    warn
      (message (text "settings_not_available") (
        (text "device", source.handle.name_at_authoring)
        ∷ (text "setting", mirror_capability)
        ∷ (text "choice", mirror_text rule.mirror_source)
        ∷ []))
      c

unfoldable pub mirror_value :
    Rule → DeviceCapabilities → Option SettingsAdapter → Compilation → Compilation
unfolding mirror_missing
mirror_value rule source none c = mirror_missing rule source c
mirror_value rule source (some adapter) c =
    elim (get adapter.values (mirror_text rule.mirror_source)) [
      | none ↦ mirror_missing rule source c
      | some value ↦ record c {
        settings =
            c.settings
            ++ (record {
              device = source.handle;
              capability = mirror_capability;
              parameter = adapter.parameter;
              bitmask = adapter.bitmask;
              value = value;
            }
                ∷ []);
      }
    ]

-- `_compile_mirror`
unfoldable pub compile_mirror : Rule → DeviceCapabilities → Compilation → Compilation
unfolding mirror_value
compile_mirror rule source c =
    if rule.mirror_source == leave
    then c
    else mirror_value rule source (get source.settings mirror_capability) c
