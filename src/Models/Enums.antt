-- ===== src/Models/Enums.antt =====
-- models.py: the enumerations, each with the string that it is in Python (`StrEnum`).
use ha_device_links.Prelude.{Eq, Text, text, Discrete-Eq}

pub data Backend : Type 0 where
  zwave zigbee2mqtt matter : Backend

pub data Feature : Type 0 where
  on_off level_set level_hold scene color status_report : Feature

pub data Template : Type 0 where
  remote virtual_3way scene_button off_all status_feedback custom : Template

pub data Direction : Type 0 where
  one_way two_way : Direction

-- `ON`, `OFF` and `LEAVE`
pub data MirrorChoice : Type 0 where
  mirror_on mirror_off leave : MirrorChoice

pub data HybridKind : Type 0 where
  on_only off_only self_load button_led : HybridKind

pub data PlanOp : Type 0 where
  add remove set_param blocked pending : PlanOp

unfoldable pub backend_text : Backend → Text
backend_text zwave = text "zwave"
backend_text zigbee2mqtt = text "zigbee2mqtt"
backend_text matter = text "matter"

unfoldable pub feature_text : Feature → Text
feature_text on_off = text "on_off"
feature_text level_set = text "level_set"
feature_text level_hold = text "level_hold"
feature_text scene = text "scene"
feature_text color = text "color"
feature_text status_report = text "status_report"

unfoldable pub mirror_text : MirrorChoice → Text
mirror_text mirror_on = text "on"
mirror_text mirror_off = text "off"
mirror_text leave = text "leave"

unfoldable pub kind_text : HybridKind → Text
kind_text on_only = text "on_only"
kind_text off_only = text "off_only"
kind_text self_load = text "self_load"
kind_text button_led = text "button_led"

unfoldable pub backend_discrete : Discrete Backend
backend_discrete = hlevel

instance abbrev pub backend_eq : Eq Backend
backend_eq = Discrete-Eq backend_discrete

unfoldable pub feature_discrete : Discrete Feature
feature_discrete = hlevel

instance abbrev pub feature_eq : Eq Feature
feature_eq = Discrete-Eq feature_discrete

unfoldable pub direction_discrete : Discrete Direction
direction_discrete = hlevel

instance abbrev pub direction_eq : Eq Direction
direction_eq = Discrete-Eq direction_discrete

unfoldable pub template_discrete : Discrete Template
template_discrete = hlevel

instance abbrev pub template_eq : Eq Template
template_eq = Discrete-Eq template_discrete

unfoldable pub mirror_discrete : Discrete MirrorChoice
mirror_discrete = hlevel

instance abbrev pub mirror_eq : Eq MirrorChoice
mirror_eq = Discrete-Eq mirror_discrete

unfoldable pub kind_discrete : Discrete HybridKind
kind_discrete = hlevel

instance abbrev pub kind_eq : Eq HybridKind
kind_eq = Discrete-Eq kind_discrete

unfoldable pub op_discrete : Discrete PlanOp
op_discrete = hlevel

instance abbrev pub op_eq : Eq PlanOp
op_eq = Discrete-Eq op_discrete
