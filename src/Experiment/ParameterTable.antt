-- ===== src/Experiment/ParameterTable.antt =====
-- web/js/experiment/parameter.js: the updaters that the rows of the table give to `setParameter`,
-- and which columns it shows. `Number` of a text is a parameter, none where it is NaN.
use Prim.Native.String.{String}
use text.Mathlib.Text.{◌==◌ as str_eq}
use sigopt_server.Base.{
  ℕ, Bool, true, false, not, ◌&&◌, ◌||◌, Option, none, some, is_some, List, [], ◌∷◌, all, any,
  if◌then◌else◌,
}
use sigopt_server.Experiment.Model.{Bounds, Parameter}
use sigopt_server.Experiment.Ui.{is_defined_and_not_null}
use sigopt_server.Utils.Json.{Json, undefined, null, str, is_undefined_or_null, value_at}

-- Null bounds have neither key.
abbrev pub bounds_or_empty : Option Bounds → Bounds
bounds_or_empty none = record { min = undefined; max = undefined }
bounds_or_empty (some b) = b

pub set_min : Json → Parameter → Parameter
set_min value p = record p { bounds = some (record (bounds_or_empty p.bounds) { min = value }) }

pub set_max : Json → Parameter → Parameter
set_max value p = record p { bounds = some (record (bounds_or_empty p.bounds) { max = value }) }

pub set_name : String → Parameter → Parameter
set_name name p = record p { name = name }

pub set_type : String → Parameter → Parameter
set_type type_name p = record p { type_name = type_name; default_value = null }

pub set_default_value : Json → Parameter → Parameter
set_default_value value p = record p { default_value = value }

-- The updater has no default value, so the test of it fails and the parameter's stays.
pub set_categorical_values : Bool → List String → Parameter → Parameter
set_categorical_values needs_default_value values p =
    let updater_default : Json = undefined in
    record p {
      categorical_values = some values;
      default_value =
          if needs_default_value && is_defined_and_not_null updater_default
          then null
          else p.default_value;
    }

-- The numbers among the values, each of them a text or an object with one as its label.
abbrev pub numeric_values : (String → Option ℕ) → List String → List ℕ
numeric_values to_number [] = []
numeric_values to_number (v ∷ values) =
    let rest = numeric_values to_number values in
    elim (to_number v) [ none ↦ rest | some n ↦ n ∷ rest ]

pub set_grid_values : (String → Option ℕ) → List String → Parameter → Parameter
set_grid_values to_number values p = record p { grid = some (numeric_values to_number values) }

-- Whether a row asks for a default value: all new parameters, and those that had one.
unfoldable pub needs_default_value : Bool → List Parameter → Parameter → Bool
needs_default_value create initial input =
    not create
    && all
        (λ (p : Parameter).
          not (is_undefined_or_null p.default_value) || not (str_eq p.name input.name))
        initial

pub shows_default_value : Bool → List Parameter → List Parameter → Bool
unfolding needs_default_value
shows_default_value create initial parameters =
    any
      (λ (p : Parameter).
        is_defined_and_not_null p.default_value || needs_default_value create initial p)
      parameters

pub shows_grid : List Parameter → Bool
shows_grid parameters = any (λ (p : Parameter). is_some p.grid) parameters

-- `transformation` is one of the keys that the editor passes on.
pub shows_transformations : List Parameter → Bool
shows_transformations parameters =
    any
      (λ (p : Parameter). elim (value_at "transformation" p.rest) [
        | undefined ↦ false
        | null ↦ false
        | str s ↦ not (str_eq s "none")
        | _ ↦ true
      ])
      parameters
