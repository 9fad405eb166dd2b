-- ===== src/Experiment/Copy/Tests.antt =====
-- web/js/pages/experiment/core/copy/endpoint.js: the copy of an experiment with three observations.
use sigopt_server.Base.{ℕ, ◌≤◌, ◌≡◌, refl, Option, none, some, ◌==◌, if◌then◌else◌}
use sigopt_server.Experiment.Copy.{
  Answer, got, refused, MatchedExperiment, count_chars, copied_name, copied_params,
}
use sigopt_server.Experiment.Copy.Names.{copied_name-le}
use sigopt_server.Utils.Json.{
  null, number, str, array, object, nil, cons, Fields, end, field, omit_fields, field_at,
}

long_name :
    copied_name "0123456789012345678901234567890123456789012345"
    ≡ "012345678901234567890123456789012345678901... Copy"
unfolding copied_name
long_name = refl

copied_name-le_example : count_chars (copied_name "Tuning") ≤ 50
copied_name-le_example = copied_name-le "Tuning"

abbrev tuning : MatchedExperiment
tuning = record {
  id = 1;
  client = 4;
  project = some 9;
  fields = field "name" (str "Tuning") (
      field "progress" null (
        field "parameters"
          (array (
            cons (object (field "grid" (array (cons (number 1) nil)) (field "bounds" null end)))
              nil))
          end));
}

tuning_params :
    copied_params tuning.fields
    ≡ field "name" (str "Tuning Copy") (
        field "parameters"
          (array (cons (object (field "grid" (array (cons (number 1) nil)) end)) nil))
          end)
unfolding copied_params omit_fields field_at
tuning_params = refl

abbrev observed : ℕ → Fields
observed n = field "id" (number n) (field "value" (number n) end)

-- The project is unknown to the other team.
abbrev no_project : ℕ → Answer ℕ ℕ
no_project id = refused 404

abbrev status : ℕ → ℕ
status e = e

abbrev create : Fields → Option ℕ → Answer ℕ ℕ
create params project = got 2

abbrev refuses_second : ℕ → Option ℕ
refuses_second n = if n == 1 then some 500 else none
