-- ===== src/Models/Links.antt =====
-- models.py: links, their group, and the fingerprint that identifies one.
use ha_device_links.Prelude.{
  Text, ℕ, ◌+◌, List, [], ◌∷◌, map, Option, none, some, Bool, ◌&&◌, any, all, leb, ltb, str,
  str_or_empty, replace, join, ◌==◌, list_eq, nat_eq, option_eq, if◌then◌else◌,
}
use ha_device_links.Models.Errors.{self_control, no_single_group, Result, ok, err}
use ha_device_links.Models.Enums.{Backend, Feature, backend_text, feature_text}
use ha_device_links.Models.Devices.{DeviceHandle, LinkTarget, identity}

-- The zeros of the blocks of ten decimal digits that `\d` matches (Unicode 16).
abbrev decimal_zeros : List ℕ
decimal_zeros =
    0x30 ∷ 0x660 ∷ 0x6f0 ∷ 0x7c0 ∷ 0x966 ∷ 0x9e6 ∷ 0xa66 ∷ 0xae6 ∷ 0xb66 ∷ 0xbe6 ∷ 0xc66 ∷ 0xce6
    ∷ 0xd66 ∷ 0xde6 ∷ 0xe50 ∷ 0xed0 ∷ 0xf20 ∷ 0x1040 ∷ 0x1090 ∷ 0x17e0 ∷ 0x1810 ∷ 0x1946 ∷ 0x19d0
    ∷ 0x1a80 ∷ 0x1a90 ∷ 0x1b50 ∷ 0x1bb0 ∷ 0x1c40 ∷ 0x1c50 ∷ 0xa620 ∷ 0xa8d0 ∷ 0xa900 ∷ 0xa9d0
    ∷ 0xa9f0 ∷ 0xaa50 ∷ 0xabf0 ∷ 0xff10 ∷ 0x104a0 ∷ 0x10d30 ∷ 0x10d40 ∷ 0x11066 ∷ 0x110f0 ∷ 0x11136
    ∷ 0x111d0 ∷ 0x112f0 ∷ 0x11450 ∷ 0x114d0 ∷ 0x11650 ∷ 0x116c0 ∷ 0x116d0 ∷ 0x116da ∷ 0x11730
    ∷ 0x118e0 ∷ 0x11950 ∷ 0x11bf0 ∷ 0x11c50 ∷ 0x11d50 ∷ 0x11da0 ∷ 0x11f50 ∷ 0x16130 ∷ 0x16a60
    ∷ 0x16ac0 ∷ 0x16b50 ∷ 0x16d70 ∷ 0x1ccf0 ∷ 0x1d7ce ∷ 0x1d7d8 ∷ 0x1d7e2 ∷ 0x1d7ec ∷ 0x1d7f6
    ∷ 0x1e140 ∷ 0x1e2f0 ∷ 0x1e4f0 ∷ 0x1e5f1 ∷ 0x1e950 ∷ 0x1fbf0 ∷ []

is_decimal : ℕ → Bool
is_decimal c = any (λ z. leb z c && ltb c (z + 10)) decimal_zeros

-- `(\d+)` on the whole text
decimals : Text → Option Text
unfolding is_decimal
decimals [] = none
decimals (c ∷ s) = if all is_decimal (c ∷ s) then some (c ∷ s) else none

-- `re.compile(r"g?(\d+)").fullmatch`
unfoldable pub single_group_of : Text → Option Text
unfolding decimals
single_group_of [] = none
single_group_of (c ∷ s) = if c == b'g' then decimals s else decimals (c ∷ s)

unfoldable pub escaped : Text → Text
escaped value = replace b'|' (b'\\' ∷ b'|' ∷ []) (replace b'\\' (b'\\' ∷ b'\\' ∷ []) value)

pub record Link : Type 0 where
  pub backend : Backend
  pub source : DeviceHandle
  pub source_endpoint : ℕ
  pub emitter_id : Text
  pub target : LinkTarget
  pub feature : Feature
  pub emitter_group : Text
  pub rule_id : Option Text

resolve_group : Link → Option Text → Result Link
resolve_group l none = err (no_single_group l.emitter_id)
resolve_group l (some group) = ok (record l { emitter_group = group })

-- `Link.__post_init__`, on the fields as the constructor was given them: an `emitter_group` that
-- was left unset is the empty text.
unfoldable pub new_link : Link → Result Link
unfolding resolve_group
new_link l =
    if identity l.source == identity l.target.handle
    then err (self_control (identity l.source))
    else if l.emitter_group == []
    then resolve_group l (single_group_of l.emitter_id)
    else ok l

abbrev pub link_parts : Link → List Text
link_parts l =
    backend_text l.backend
    ∷ identity l.source
    ∷ str l.source_endpoint
    ∷ l.emitter_group
    ∷ identity l.target.handle
    ∷ str_or_empty l.target.endpoint
    ∷ feature_text l.feature
    ∷ []

unfoldable pub fingerprint : Link → Text
fingerprint l = join b'|' (map escaped (link_parts l))

-- The keyword arguments; an `emitter_group` that is left out is the default, the empty text.
unfoldable pub as_kwargs : Link → Link
as_kwargs l =
    if some l.emitter_group == single_group_of l.emitter_id
    then record l { emitter_group = [] }
    else l

pub record ObservedLink : Type 0 where
  pub link : Link
  pub open link use *
  pub is_system : Bool
  pub managed_by : Option Text
