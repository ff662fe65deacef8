-- ===== src/Catalog/Merge.antt =====
-- `QueryService.merge_parameter_drafts`: what the editor shows when the detected names change.
pub mod Kept
use fire2api.Base.{
  ℕ, ◌+◌, Bool, true, false, ◌&&◌, ◌||◌, not, List, [], ◌∷◌, ◌++◌, Option, none, some, ◌==◌, nat_eq,
  list_eq, if◌then◌else◌, keep_if, any,
}
use fire2api.Text.{Text, Unicode, upper, mem}
use fire2api.Query.Convert.{a_string}
use fire2api.Query.Detect.{Source, path, Detected, names_of, canonical}
use fire2api.Query.Parameters.{is_in}
use fire2api.Catalog.Drafts.{Draft}

-- A draft as the editor gets it back.
pub record Merged : Type 0 where
  pub draft : Draft
  pub position : ℕ
  pub detected : Bool

-- A draft that has a name, whose canonical form is the one given. An appended draft is looked up by
-- its name as it is: that is canonical, and its own canonical form.
abbrev pub is_named : Unicode → Text → Draft → Bool
is_named u name d = not (d.name == []) && upper u d.name == name

-- `current["source"] = "path"`, `current["required"] = True`.
abbrev pub from_path : Draft → Draft
from_path d = record d { source = some path; required = true }

-- The change of `by_name[name]`, the last draft of that name.
abbrev pub change_last : Unicode → Text → (Draft → Draft) → List Draft → List Draft
change_last u name f [] = []
change_last u name f (d ∷ ds) =
    let rest = change_last u name f ds in
    if any (is_named u name) ds then d ∷ rest else (if is_named u name d then f d else d) ∷ ds

abbrev pub detected_draft : Text → Source → Draft
detected_draft name source = record {
  id = none;
  name = name;
  param_type = a_string;
  source = some source;
  default_value = none;
  required = true;
  description = none;
  validation_rule = none;
}

abbrev pub settle : Unicode → Text → Source → List Draft → List Draft
settle u name source ds = if is_in path source then change_last u name from_path ds else ds

-- One candidate: a draft of its name is kept, a name that was suppressed is passed over.
abbrev pub merge_candidate : Unicode → List Text → Text → Source → List Draft → List Draft
merge_candidate u suppressed name source ds =
    if any (is_named u name) ds
    then settle u name source ds
    else if mem name suppressed
    then ds
    else settle u name source (ds ++ detected_draft name source ∷ [])

unfoldable pub merge_all : Unicode → List Text → List Detected → List Draft → List Draft
merge_all u suppressed [] ds = ds
merge_all u suppressed (c ∷ cs) ds =
    merge_all u suppressed cs (merge_candidate u suppressed (upper u c.name) c.source ds)

-- `if item.get("name")`: an empty name stays empty.
abbrev pub canonical_name : Unicode → Text → Text
canonical_name u [] = []
canonical_name u (c ∷ s) = upper u (c ∷ s)

unfoldable pub numbered : Unicode → List Text → ℕ → List Draft → List Merged
numbered u active position [] = []
numbered u active position (d ∷ ds) =
    record {
      draft = record d { name = canonical_name u d.name };
      position = position;
      detected = mem (upper u (canonical_name u d.name)) active;
    }
    ∷ numbered u active (position + 1) ds

-- The suppressed names that are still detected.
abbrev pub still_suppressed : Unicode → List Detected → List Text → List Text
still_suppressed u detected suppressed =
    keep_if (λ name. mem name (canonical u (names_of detected))) (canonical u suppressed)

unfoldable pub merge_parameter_drafts :
    Unicode → List Draft → List Detected → List Text → List Merged × List Text
unfolding merge_all numbered
merge_parameter_drafts u parameters detected suppressed = (
  numbered u (canonical u (names_of detected)) 1
      (merge_all u (still_suppressed u detected suppressed) detected parameters),
  still_suppressed u detected suppressed,
)
