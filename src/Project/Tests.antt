-- ===== src/Project/Tests.antt =====
-- web/js/pages/project: the theorems about columns and selections at small inputs. A run is its id.
use sigopt_server.Project.Dimensions.Create.Total.{create_dimensions_from_runs-total}
use sigopt_server.Base.{is_some, true, ℕ, ◌≡◌, refl, false, none, List, [], ◌∷◌}
use sigopt_server.Project.Dimensions.{
  Field, get_value_type_from_field, declared_type, upper, same_codes, put, invert, lookup,
  make_dimension_types_concrete, filter_out_unplottable_dimensions,
  create_empty_dimensions_from_defined_fields, undefined, number, Dimension, assumed_categorical,
  other,
}
use sigopt_server.Project.Dimensions.Create.{
  Services, create_dimensions_from_runs, typed_dimensions, fill_tick_vals, fill_each, each_run,
  handle_assumed_numeric, index_ids, fill_dimensions, handle_assumed_categorical,
}
use sigopt_server.Project.Dimensions.Create.Outcome.{outcome_of, handle_assumed_categorical-outcome}
use sigopt_server.Project.Slice.{
  Action, reduce, change_filter, filtered_runs, receive_runs, index_runs, with_dimensions,
  change_filter_model, get_runs_success, RunKeys, initial_slice, select_ids, select_indexes,
}
use sigopt_server.Project.Slice.Consistent.{
  IsConsistent, run, after, run-initial-IsConsistent, select_ids-select_indexes,
}

abbrev services : Services ℕ
services = record {
  id_of = λ run. run;
  get = λ run key. number run;
  is_nan = λ v. false;
  sort_by_number = λ vs. vs;
  sort_reversed = λ vs. vs;
  to_string = λ v. "value";
}

abbrev keys : RunKeys ℕ
keys = record {
  checkpoint_count = λ run. 0;
  experiment = λ run. undefined;
  model_type = λ run. none;
}

abbrev loss : Dimension
loss = record {
  display_name = "Loss";
  key = "loss";
  value_type = assumed_categorical;
  group_type = other;
  values = number 4 ∷ number 6 ∷ [];
  count = 2;
  categorical_values = none;
  ticks = none;
}

abbrev actions : List (List ℕ × Action ℕ)
actions = ([], get_runs_success (4 ∷ 6 ∷ []) [] []) ∷ ([], change_filter_model none) ∷ []

run-initial-IsConsistent_example : IsConsistent (run services keys actions initial_slice)
run-initial-IsConsistent_example = run-initial-IsConsistent services keys actions

handle_assumed_categorical-outcome_example :
    handle_assumed_categorical services (loss ∷ []) (4 ∷ 6 ∷ [])
    ≡ outcome_of services (4 ∷ 6 ∷ []) loss ∷ []
handle_assumed_categorical-outcome_example =
    handle_assumed_categorical-outcome services (loss ∷ []) (4 ∷ 6 ∷ [])

select_ids-select_indexes_example :
    let s = run services keys actions initial_slice in
    select_ids (6 ∷ 4 ∷ []) s ≡ select_indexes (1 ∷ 0 ∷ []) s
unfolding run after reduce change_filter filtered_runs receive_runs index_runs put invert lookup
    initial_slice select_indexes with_dimensions create_dimensions_from_runs typed_dimensions
    fill_tick_vals fill_each fill_dimensions each_run handle_assumed_numeric
    handle_assumed_categorical make_dimension_types_concrete filter_out_unplottable_dimensions
    create_empty_dimensions_from_defined_fields index_ids
select_ids-select_indexes_example =
    select_ids-select_indexes services keys actions (1 ∷ 0 ∷ []) (6 ∷ 4 ∷ []) refl

abbrev loss_field : Field
loss_field = record { key = "loss"; name = "Loss"; field_type = "numeric" }

create_dimensions_from_runs-total_example :
    is_some (create_dimensions_from_runs services (loss_field ∷ []) (4 ∷ 6 ∷ [])) ≡ true
unfolding get_value_type_from_field declared_type upper same_codes
create_dimensions_from_runs-total_example =
    create_dimensions_from_runs-total services (loss_field ∷ []) (4 ∷ 6 ∷ []) (refl, tt)
