-- ===== src/Experiment/Submission/Created.antt =====
-- web/js/experiment/editor.js: what is sent when an experiment is created.
use Prim.Native.String.{String}
use text.Mathlib.Text.{◌==◌ as str_eq}
use sigopt_server.Base.{ℕ, ◌≡◌, true, Option, some, is_some, List, All}
use sigopt_server.Utils.Json.{has_key}
use sigopt_server.Experiment.Model.{Parameter, Conditional, MetadataEntry, ExperimentInput}
use sigopt_server.Experiment.Editor.{find_conditional}
use sigopt_server.Experiment.Editor.Edits.{Edits}
use sigopt_server.Experiment.Submission.{sanitize_input, names_of, parameters_data}
use sigopt_server.Experiment.Submission.Sent.{sanitize_for_create}

-- Some conditional has the name of the condition, and all its values among its own.
abbrev pub Names : List Conditional → String × List String → Type 0
Names cs (name, values) =
    (key : String) × (c : Conditional) × (find_conditional key cs ≡ some c)
    × (c.name ≡ name)
    × All (λ v. has_key (names_of c.values) v ≡ true) values

-- What is sent for an input: the parameters with their conditions by name.
abbrev pub SentNames : (String → Option ℕ) → ExperimentInput → List MetadataEntry → Type 0
unfolding sanitize_input
SentNames as_number e metadata =
    (sent : List Parameter) × ((parameters_data e.conditionals
          (sanitize_input as_number e).parameters
        ≡ some sent)
      × (All (λ (p : Parameter). All (Names e.conditionals) p.conditions) sent
          × (is_some (sanitize_for_create as_number e metadata) ≡ true)))
