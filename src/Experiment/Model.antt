-- ===== src/Experiment/Model.antt =====
-- web/js/experiment/editor.js, constants.js: what the editor holds. A value that a text field may
-- have set is a `Json`; a number stands by an identity. An option stands where a key may be absent,
-- and for null bounds and categorical values. The keys of an object that the editor only passes on are one `rest`.
use Prim.Native.String.{String}
use sigopt_server.Base.{ℕ, Bool, true, Option, none, some, get_or, List, [], ◌∷◌}
use sigopt_server.Utils.Json.{Json, null, str, undefined, Fields, end, field}

abbrev pub categorical : String
categorical = "categorical"

abbrev pub double : String
double = "double"

-- `ParameterTypes.INTEGER`.
abbrev pub integer : String
integer = "int"

pub record Bounds : Type 0 where
  pub min : Json
  pub max : Json

-- `p.conditions`: for the key of each conditional the keys of its values.
abbrev pub Conditions : Type 0
Conditions = List (String × List String)

-- `conditions` undefined is the empty list: underscore's functions read both alike.
pub record Parameter : Type 0 where
  pub name : String
  pub type_name : String
  pub bounds : Option Bounds
  pub categorical_values : Option (List String)
  pub default_value : Json
  pub grid : Option (List ℕ)
  pub conditions : Conditions
  pub edit_key : Option String
  pub is_new : Bool
  pub rest : Fields

pub record ConditionalValue : Type 0 where
  pub name : String
  pub edit_key : String

-- Conditionals are edited only while an experiment is created, so they have edit keys.
pub record Conditional : Type 0 where
  pub name : String
  pub values : List ConditionalValue
  pub edit_key : String

pub record Metric : Type 0 where
  pub name : Json
  pub objective : String
  pub strategy : Json
  pub threshold : Json
  pub rest : Fields

pub record MetadataEntry : Type 0 where
  pub key : String
  pub value : Json
  pub is_new : Bool
  pub is_number : Bool

pub record ExperimentInput : Type 0 where
  pub name : Json
  pub metrics : List Metric
  pub project : Json
  pub observation_budget : Json
  pub budget : Json
  pub parallel_bandwidth : Json
  pub parameters : List Parameter
  pub conditionals : List Conditional
  pub rest : Fields

-- `MetricObjectives[1]`; a default metric has one further key, `object`.
unfoldable pub default_metric : Metric
default_metric = record {
  name = str "";
  objective = "maximize";
  strategy = undefined;
  threshold = undefined;
  rest = field "object" (str "metric") end;
}

-- `editKey()` draws the key.
unfoldable pub default_parameter : String → Parameter
default_parameter key = record {
  name = "";
  type_name = double;
  bounds = some (record { min = str ""; max = str "" });
  categorical_values = some [];
  default_value = undefined;
  grid = none;
  conditions = [];
  edit_key = some key;
  is_new = true;
  rest = end;
}

unfoldable pub default_conditional : String → String → Conditional
default_conditional value_key key = record {
  name = "";
  values = record { name = ""; edit_key = value_key } ∷ [];
  edit_key = key;
}

unfoldable pub default_experiment : String → ExperimentInput
unfolding default_parameter default_metric
default_experiment key = record {
  name = null;
  metrics = default_metric ∷ [];
  project = null;
  observation_budget = undefined;
  budget = undefined;
  parallel_bandwidth = undefined;
  parameters = default_parameter key ∷ [];
  conditionals = [];
  rest = end;
}

-- `p.editKey || p.name`; a key that was drawn is not empty.
unfoldable pub parameter_key : Parameter → String
parameter_key p = get_or p.edit_key p.name
