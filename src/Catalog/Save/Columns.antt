-- ===== src/Catalog/Save/Columns.antt =====
-- What a draft asks of the row that stores it, column by column.
use mathlib.Core.Path.{subst}
use fire2api.Base.{ℕ, ◌+◌, ◌≡◌, ◌⊎◌, inl, inr, refl, List, [], ◌∷◌, Option, none, some}
use fire2api.Text.{Text, Unicode, upper}
use fire2api.Query.Detect.{Source, query}
use fire2api.Catalog.{Parameter}
use fire2api.Catalog.Drafts.{Draft}
use fire2api.Catalog.Save.{source_of, or_none, row_of, canonical_drafts}
use fire2api.Catalog.Save.HasRow.{HasRow, IsStored}

-- A text is kept, and an empty one, like none, is NULL.
abbrev pub KeepsText : Option Text → Option Text → Type 0
KeepsText none column = column ≡ none
KeepsText (some []) column = column ≡ none
KeepsText (some (c ∷ s)) column = column ≡ some (c ∷ s)

-- The source is kept, and none is the query string.
abbrev pub KeepsSource : Option Source → Source → Type 0
KeepsSource none column = column ≡ query
KeepsSource (some s) column = column ≡ s

-- The row of the route `q` at a position that holds the values of a draft.
pub record Holds (u : Unicode) (q position : ℕ) (d : Draft) (r : Parameter) : Type 0 where
  pub same_query : r.query_id ≡ q
  pub same_position : r.position ≡ position
  pub same_name : r.definition.name ≡ upper u d.name
  pub same_type : r.definition.param_type ≡ d.param_type
  pub same_source : KeepsSource d.source r.definition.place
  pub same_default : KeepsText d.default_value r.definition.default_value
  pub same_required : r.definition.required ≡ d.required
  pub same_rule : KeepsText d.validation_rule r.definition.validation_rule
  pub same_description : KeepsText d.description r.description

abbrev pub AnyRow : (Parameter → Type 0) → List Parameter → Type 0
AnyRow P [] = ⊥
AnyRow P (r ∷ rows) = P r ⊎ AnyRow P rows

-- Each draft has its row, at the positions from one on.
abbrev pub IsListed : Unicode → ℕ → ℕ → List Draft → List Parameter → Type 0
IsListed u q position [] rows = Unit
IsListed u q position (d ∷ ds) rows =
    AnyRow (Holds u q position d) rows × IsListed u q (position + 1) ds rows

or_none-KeepsText : (o : Option Text) → KeepsText o (or_none o)
or_none-KeepsText none = refl
or_none-KeepsText (some []) = refl
or_none-KeepsText (some (c ∷ s)) = refl

source_of-KeepsSource : (o : Option Source) → KeepsSource o (source_of o)
source_of-KeepsSource none = refl
source_of-KeepsSource (some s) = refl

row_of-Holds :
    (u : Unicode) (id q position : ℕ) (d : Draft)
    → Holds u q position d (row_of id q position (record d { name = upper u d.name }))
row_of-Holds u id q position d = record {
  same_query = refl;
  same_position = refl;
  same_name = refl;
  same_type = refl;
  same_source = source_of-KeepsSource d.source;
  same_default = or_none-KeepsText d.default_value;
  same_required = refl;
  same_rule = or_none-KeepsText d.validation_rule;
  same_description = or_none-KeepsText d.description;
}

HasRow-AnyRow :
    (P : Parameter → Type 0) (p : Parameter) (rows : List Parameter)
    → P p
    → HasRow p rows
    → AnyRow P rows
HasRow-AnyRow P p [] h x = absurd x
HasRow-AnyRow P p (r ∷ rows) h (inl e) = inl (subst P e h)
HasRow-AnyRow P p (r ∷ rows) h (inr x) = inr (HasRow-AnyRow P p rows h x)

pub IsStored-IsListed :
    (u : Unicode) (q position : ℕ) (ds : List Draft) (rows : List Parameter)
    → IsStored q position (canonical_drafts u ds) rows
    → IsListed u q position ds rows
IsStored-IsListed u q position [] rows h = tt
IsStored-IsListed u q position (d ∷ ds) rows h = (
  HasRow-AnyRow (Holds u q position d) _ rows (row_of-Holds u h.0.0 q position d) h.0.1,
  IsStored-IsListed u q (position + 1) ds rows h.1,
)
