-- ===== src/Catalog/Tests.antt =====
-- The store on a table of two routes.
use fire2api.Base.{
  ℕ, pos, ◌+◌, ◌≡◌, refl, Bool, true, false, List, [], ◌∷◌, Option, none, some, nat_eq, arith,
}
use fire2api.Text.{Text, codes, rstrip, lstrip, starts_with}
use fire2api.Text.Ascii.{ascii}
use fire2api.Sql.Comments.{strip_comments}
use fire2api.Sql.Literals.{strip_literals}
use fire2api.Sql.Parens.{balanced}
use fire2api.Sql.Words.{tokens}
use fire2api.Sql.Validate.{statement_type, validate_query}
use fire2api.Query.Binds.{named_binds, binds_from}
use fire2api.Query.Convert.{a_string, ok, Python}
use fire2api.Query.Detect.{
  query, path, Detected, detect_parameters, path_names, is_reserved, collect,
}
use fire2api.Catalog.{
  Route, Parameter, Tables, RouteData, create_query, update_query, delete_query,
  get_query_parameters, in_order, insert_ordered,
}
use fire2api.Catalog.Drafts.{Draft, validate_parameter_configuration}
use fire2api.Catalog.Drafts.Configured.{IsConfigured, validate_parameter_configuration-IsConfigured}
use fire2api.Catalog.Save.{saved, save_query_configuration, rename_all, store_all}
use fire2api.Catalog.Save.Stored.{IsSaved, save_query_configuration-IsSaved}
use fire2api.Catalog.Save.Frame.{IsFramed, save_query_configuration-IsFramed}
use fire2api.Catalog.Parameters.{reorder_parameters}
use fire2api.Catalog.Parameters.Ranked.{IsReordered, reorder_parameters-IsReordered}
use fire2api.Catalog.Merge.{merge_parameter_drafts}
use fire2api.Catalog.Merge.Kept.{IsMerged, merge_parameter_drafts-IsMerged}
use fire2api.Catalog.Consistent.{IsConsistent}
use fire2api.Catalog.Consistent.Runs.{
  Call, create, delete, save, reorder, sync, run_calls, run_calls-IsConsistent,
}

abbrev python : Python ℕ
python = record {
  show = λ v. codes "True";
  parse_int = λ s. some (pos 2);
  truncate = λ o. ok (pos o);
  to_float = λ v. none;
  is_true = λ o. true;
  is_date = λ o. false;
  is_datetime = λ o. false;
  parse_date = λ s. none;
  parse_datetime = λ s. none;
  full_match = λ rule s. true;
}

compiles : Text → Bool
compiles rule = true

abbrev temporary : ℕ → Text
temporary n = (n + 300) ∷ []

abbrev statement : Text
statement = codes "select a from t where b = :b"

abbrev route : ℕ → Text → Route
route id route_path = record {
  id = id;
  route_path = route_path;
  method = codes "GET";
  query_sql = statement;
  description = [];
  tags = [];
  is_active = true;
}

abbrev data_of : Text → RouteData
data_of route_path = record {
  route_path = route_path;
  method = codes "get";
  query_sql = statement;
  description = [];
  tags = [];
  is_active = true;
}

abbrev parameter : ℕ → ℕ → ℕ → Text → Parameter
parameter id q position name = record {
  id = id;
  query_id = q;
  position = position;
  definition = record {
    name = name;
    param_type = a_string;
    place = query;
    default_value = none;
    required = false;
    validation_rule = none;
  };
  description = none;
}

abbrev draft : Option ℕ → Text → Draft
draft id name = record {
  id = id;
  name = name;
  param_type = a_string;
  source = some query;
  default_value = none;
  required = false;
  description = none;
  validation_rule = none;
}

abbrev tables : Tables
tables = record {
  queries = route 1 (codes "/a") ∷ route 2 (codes "/b") ∷ [];
  next_query = 3;
  parameters =
      parameter 1 1 1 (codes "B") ∷ parameter 2 2 1 (codes "B") ∷ parameter 3 1 2 (codes "C") ∷ [];
  next_parameter = 4;
}

validate_parameter_configuration-IsConfigured_example :
    IsConfigured ascii (codes "/a") statement (codes "GET") (draft none (codes "b") ∷ [])
unfolding compiles validate_parameter_configuration validate_query balanced statement_type tokens
    lstrip rstrip detect_parameters path_names is_reserved collect starts_with named_binds
    binds_from strip_comments strip_literals
validate_parameter_configuration-IsConfigured_example =
    validate_parameter_configuration-IsConfigured ascii python compiles (codes "/a") statement
      (codes "get") (draft none (codes "b") ∷ []) configured
  where
    configured :
        validate_parameter_configuration ascii python compiles
          (codes "/a")
          statement
          (codes "get")
          (draft none (codes "b") ∷ [])
        ≡ none
    configured = refl

-- The parameter B of route 1 becomes the second, behind a new one.
save_query_configuration-IsFramed_example : IsFramed tables (
    save_query_configuration temporary ascii python compiles tables
      (some 1)
      (data_of (codes "/c"))
      (draft none (codes "d") ∷ draft (some 1) (codes "b") ∷ []))
save_query_configuration-IsFramed_example =
    save_query_configuration-IsFramed temporary ascii python compiles tables (some 1)
      (data_of (codes "/c")) (draft none (codes "d") ∷ draft (some 1) (codes "b") ∷ [])

save_query_configuration-IsSaved_example :
    IsSaved ascii (draft none (codes "d") ∷ draft (some 1) (codes "b") ∷ []) (
      save_query_configuration temporary ascii python compiles tables
        (some 1)
        (data_of (codes "/c"))
        (draft none (codes "d") ∷ draft (some 1) (codes "b") ∷ []))
save_query_configuration-IsSaved_example =
    save_query_configuration-IsSaved temporary ascii python compiles tables (some 1)
      (data_of (codes "/c")) (draft none (codes "d") ∷ draft (some 1) (codes "b") ∷ [])
      (omega arith, (omega arith, (omega arith, tt)))

reorder_parameters-IsReordered_example :
    IsReordered tables 1 (3 ∷ 1 ∷ []) (reorder_parameters tables 1 (3 ∷ 1 ∷ []))
reorder_parameters-IsReordered_example = reorder_parameters-IsReordered tables 1 (3 ∷ 1 ∷ [])

abbrev found : List Detected
found =
    record { name = codes "ID"; source = path } ∷ record { name = codes "B"; source = query } ∷ []

merge_parameter_drafts-IsMerged_example :
    IsMerged ascii 1
      (draft (some 1) (codes "b") ∷ [])
      (merge_parameter_drafts ascii (draft (some 1) (codes "b") ∷ []) found []).0
merge_parameter_drafts-IsMerged_example =
    merge_parameter_drafts-IsMerged ascii (draft (some 1) (codes "b") ∷ []) found []

abbrev calls : List Call
calls =
    create (data_of (codes "/c"))
    ∷ sync 3
    ∷ reorder 1 (3 ∷ 1 ∷ [])
    ∷ save (some 2) (data_of (codes "/a")) []
    ∷ delete 1
    ∷ []

tables-IsConsistent : IsConsistent tables
tables-IsConsistent = record {
  keyed = (refl, refl, (refl, refl, tt));
  fresh = (omega arith, (omega arith, tt));
  owned = (refl, (refl, (refl, tt)));
}

run_calls-IsConsistent_example :
    IsConsistent (run_calls ascii python compiles temporary calls tables)
run_calls-IsConsistent_example =
    run_calls-IsConsistent ascii python compiles temporary calls tables tables-IsConsistent

-- The route moves, keeps B as its second parameter, loses C and gains D.
moved :
    save_query_configuration temporary ascii python compiles tables
      (some 1)
      (data_of (codes "/c"))
      (draft none (codes "d") ∷ draft (some 1) (codes "b") ∷ [])
    ≡ (
      record tables {
        queries = route 1 (codes "/c") ∷ route 2 (codes "/b") ∷ [];
        parameters =
            parameter 1 1 2 (codes "B")
            ∷ parameter 2 2 1 (codes "B")
            ∷ parameter 4 1 1 (codes "D")
            ∷ [];
        next_parameter = 5;
      },
      saved 1,
    )
unfolding fire2api.Catalog.Routes.normalize_route_path compiles save_query_configuration rename_all
    store_all validate_parameter_configuration validate_query balanced statement_type tokens lstrip
    rstrip detect_parameters path_names is_reserved collect starts_with named_binds binds_from
    strip_comments strip_literals
moved = refl
