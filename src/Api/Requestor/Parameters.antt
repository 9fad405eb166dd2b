-- ===== src/Api/Requestor/Parameters.antt =====
-- web/js/api/api-requestor.js: which parameters are sent.
use Prim.Native.String.{String}
use text.Mathlib.Text.{◌==◌ as str_eq}
use text.Mathlib.TextEquality.{eq_iff}
use sigopt_server.Base.{◌≡◌, refl, true, some, [], ◌∷◌, if◌then◌else◌, arith}
use sigopt_server.Api.Requestor.{
  Method, is_get_or_delete, Param, undefined, value, Params, remove_null_params, sanitize_params,
}

abbrev pub param_at : {P : Type 0} → String → Params P → Param P
param_at key [] = undefined
param_at key ((k, p) ∷ params) = if str_eq k key then p else param_at key params

-- No key stands twice.
abbrev pub IsObject : {P : Type 0} → Params P → Type 0
IsObject [] = Unit
IsObject ((k, p) ∷ params) = (param_at k params ≡ undefined) × IsObject params

-- A parameter that is null is not sent.
abbrev pub sent : {P : Type 0} → Param P → Param P
sent (value p) = value p
sent p = undefined

removed :
    {P : Type 0} (key : String) (params : Params P)
    → IsObject params
    → param_at key (remove_null_params params) ≡ sent (param_at key params)
unfolding remove_null_params
removed key [] o = refl
removed key ((k, p) ∷ params) (fresh, o) =
    ground (arith, removed key params o, removed k params o, eq_iff k key)

-- For a GET or a DELETE, the parameters that have a value are sent as they are, and the others are
-- left out.
param_at-sanitize_params :
    {P : Type 0} (method : Method) (key : String) (params : Params P)
    → is_get_or_delete method ≡ true
    → IsObject params
    → (left : Params P) × (sanitize_params method (some params) ≡ some left)
      × (param_at key left ≡ sent (param_at key params))
unfolding sanitize_params
param_at-sanitize_params method key params g o =
    rw g (remove_null_params params, refl, removed key params o)
