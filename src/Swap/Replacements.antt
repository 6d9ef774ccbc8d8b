-- ===== src/Swap/Replacements.antt =====
-- swap.py `find_replacements`: the devices that rules name and that look replaced.
use ha_device_links.Prelude.{
  Text, Dict, List, [], ◌∷◌, ◌++◌, map, Option, none, some, Bool, true, false, not, ◌&&◌, ◌||◌,
  contains, keep, get, has, put, sort, sort_by, list_eq, nat_eq, list_ord, nat_ord, values, ◌==◌,
  if◌then◌else◌,
}
use ha_device_links.Models.{Backend, backend_eq, DeviceHandle, identity, Rule, RuleTarget}
use ha_device_links.Swap.Types.{references}
use ha_device_links.Swap.Propose.{same_model_key}

pub record Replacement : Type 0 where
  pub old : DeviceHandle
  pub candidates : List DeviceHandle
  pub changed_in_place : Bool
  pub rule_ids : List Text

-- `(rule.source.device, *(target.device for target in rule.targets))`
abbrev pub rule_handles : Rule → List DeviceHandle
rule_handles rule = rule.source.device ∷ map (λ (t : RuleTarget). t.device) rule.targets

unfoldable pub all_handles : List Rule → List DeviceHandle
all_handles [] = []
all_handles (rule ∷ rules) = rule_handles rule ++ all_handles rules

unfoldable pub naming_rules : List Rule → Text → List Text
naming_rules rules device = sort (map (λ (r : Rule). r.id) (keep (λ r. references r device) rules))

unfoldable pub candidates_for :
    DeviceHandle → Dict Text DeviceHandle → List Text → List DeviceHandle
candidates_for handle listed referenced = values (
    keep
      (λ (e : Text × DeviceHandle).
        not (contains referenced e.0) && e.1.backend == handle.backend && same_model_key e.1 handle)
      (sort_by (λ e. e.0) listed))

-- The returns of `_replacement_for`, from what is listed at the handle's address.
unfoldable pub replacement_at :
    DeviceHandle
    → Dict Text DeviceHandle
    → List Text
    → List Rule
    → Option DeviceHandle
    → Option Replacement
replacement_at handle listed referenced rules (some here) =
    if same_model_key here handle
    then none
    else some (record {
      old = handle;
      candidates = here ∷ [];
      changed_in_place = true;
      rule_ids = naming_rules rules (identity handle);
    })
replacement_at handle listed referenced rules none = some (record {
  old = handle;
  candidates = candidates_for handle listed referenced;
  changed_in_place = false;
  rule_ids = naming_rules rules (identity handle);
})

-- `_replacement_for`
unfoldable pub replacement_for :
    DeviceHandle → Dict Text DeviceHandle → List Text → List Rule → Option Replacement
unfolding replacement_at
replacement_for handle listed referenced rules =
    replacement_at handle listed referenced rules (get listed (identity handle))

abbrev pub is_nil : List DeviceHandle → Bool
is_nil [] = true
is_nil (_ ∷ _) = false

unfoldable pub add_replacement :
    Bool → Dict Text Replacement → Text → Option Replacement → Dict Text Replacement
add_replacement require_candidate found device none = found
add_replacement require_candidate found device (some r) =
    if not (is_nil r.candidates) || not require_candidate then put found device r else found

-- What one handle adds to `found`.
unfoldable pub found_replacement :
    Dict Text DeviceHandle
    → List Text
    → List Rule
    → Bool
    → Dict Text Replacement
    → DeviceHandle
    → Dict Text Replacement
unfolding add_replacement
found_replacement listed referenced rules require_candidate found handle =
    add_replacement require_candidate found (identity handle)
      (replacement_for handle listed referenced rules)

-- The two loops over the rules and their handles.
unfoldable pub find_from :
    Dict Text DeviceHandle
    → List Text
    → List Rule
    → Bool
    → List Backend
    → Dict Text Replacement
    → List DeviceHandle
    → Dict Text Replacement
find_from listed referenced rules require_candidate up found [] = found
find_from listed referenced rules require_candidate up found (handle ∷ handles) =
    find_from listed referenced rules require_candidate up
      (if not (contains up handle.backend) || has found (identity handle)
        then found
        else found_replacement listed referenced rules require_candidate found handle)
      handles

unfoldable pub find_replacements :
    List Rule → Dict Text DeviceHandle → List Backend → Bool → List Replacement
unfolding find_from
find_replacements rules listed answering require_candidate =
    let handles = all_handles rules in
    values (
      sort_by (λ (e : Text × Replacement). e.0)
        (find_from listed (map identity handles) rules require_candidate answering [] handles))
