-- ===== src/Compiler/State.antt =====
-- compiler.py: the accumulators of a compilation, its result, and `_distinct`.
use ha_device_links.Prelude.{
  Text, text, Dict, List, [], ◌∷◌, ◌++◌, contains, sort_by, dedup, list_eq, nat_eq, pair_eq,
  list_ord, nat_ord, if◌then◌else◌,
}
use ha_device_links.Models.{
  Feature, HybridKind, on_off, level_set, level_hold, scene, color, status_report, feature_text,
  kind_text, feature_eq, kind_eq, Link, SettingWrite, HybridLeg, Diagnostic, diagnostic_identity,
}

pub record CompiledRule : Type 0 where
  pub links : List Link
  pub settings : List SettingWrite
  pub hybrid_legs : List HybridLeg
  pub warnings : List Diagnostic
  pub errors : List Diagnostic

abbrev pub nothing : CompiledRule
nothing = record { links = []; settings = []; hybrid_legs = []; warnings = []; errors = [] }

-- The fields of `_Compilation` that its methods append to, held in a value of the result's type.
abbrev pub Compilation : Type 0
Compilation = CompiledRule

abbrev pub message : Text → Dict Text Text → Diagnostic
message key placeholders = record { translation_key = key; placeholders = placeholders }

unfoldable pub warn : Diagnostic → Compilation → Compilation
warn d c = record c { warnings = c.warnings ++ (d ∷ []) }

unfoldable pub refuse : Diagnostic → Compilation → Compilation
refuse d c = record c { errors = c.errors ++ (d ∷ []) }

-- The loop of `_distinct`, with the set `seen`.
unfoldable pub distinct_from : List (Text × List (Text × Text)) → List Diagnostic → List Diagnostic
distinct_from seen [] = []
distinct_from seen (d ∷ ds) =
    let skipped = distinct_from seen ds in
    let kept = distinct_from (diagnostic_identity d ∷ seen) ds in
    if contains seen (diagnostic_identity d) then skipped else d ∷ kept

unfoldable pub distinct : List Diagnostic → List Diagnostic
unfolding distinct_from
distinct ds = distinct_from [] ds

-- `_result`
unfoldable pub result : Compilation → CompiledRule
result c = record c { warnings = distinct c.warnings; errors = distinct c.errors }

-- `sorted` of a set of features or of hybrid kinds: they compare as the strings that they are.
unfoldable pub sorted_features : List Feature → List Feature
sorted_features fs = sort_by feature_text (dedup fs)

unfoldable pub sorted_kinds : List HybridKind → List HybridKind
sorted_kinds ks = sort_by kind_text (dedup ks)

-- `FEATURE_UNAVAILABLE`
unfoldable pub feature_unavailable : Feature → Text
feature_unavailable on_off = text "feature_unavailable_on_off"
feature_unavailable level_set = text "feature_unavailable_level_set"
feature_unavailable level_hold = text "feature_unavailable_level_hold"
feature_unavailable scene = text "feature_unavailable_scene"
feature_unavailable color = text "feature_unavailable_color"
feature_unavailable status_report = text "feature_unavailable_status_report"
