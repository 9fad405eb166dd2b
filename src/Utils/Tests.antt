-- ===== src/Utils/Tests.antt =====
-- web/js/utils.js: the theorems about JSON and colours at small inputs.
use sigopt_server.Base.{◌≡◌, ◌↔◌}
use sigopt_server.Utils.Json.{Json, null, number, object, end, field, recursively_condense_object}
use sigopt_server.Utils.Json.Condense.{IsCondensed, recursively_condense_object-IsCondensed}

abbrev sample : Json
sample = object (field "a" (object (field "object" (number 1) (field "b" null end))) end)

recursively_condense_object-IsCondensed_example :
    IsCondensed (recursively_condense_object sample)
    × (IsCondensed sample ↔ (recursively_condense_object sample ≡ sample))
recursively_condense_object-IsCondensed_example = recursively_condense_object-IsCondensed sample
