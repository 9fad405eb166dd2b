-- ===== src/Experiment/Bulk/Download/ColumnNames.antt =====
-- web/js/pages/experiment/core/bulkdownload/endpoint.js, bulkupload/page.js: which of the columns of a
-- downloaded file the upload takes for assignments.
use Prim.Native.String.{String}
use package.text.Mathlib.Text.{◌==◌ as str_eq}
use package.text.Mathlib.TextEquality.{eq_iff}
use sigopt_server.Base.{
  ◌≡◌, refl, arith, sym, subst, ◌⊎◌, true, false, List, [], ◌∷◌, All, Bool-cases, inl, inr,
}
use sigopt_server.Experiment.Bulk.Columns.{
  prefixed, starts_with, parse_assignment_name, after_prefix-prefixed,
}
use sigopt_server.Experiment.Bulk.Download.{metric_column}
use sigopt_server.Experiment.Bulk.Observations.{reserved_columns, is_assignment_column}
use sigopt_server.Utils.Json.{Json, str, has_key}

pub All-every {ℓ} : {A : Type ℓ} (P : A → Type 0) (xs : List A) → ((x : A) → P x) → All P xs
All-every P [] f = tt
All-every P (x ∷ xs) f = (f x, All-every P xs f)

-- A name with the prefix is none of the names without it.
pub has_key-prefix :
    (prefix k : String) (keys : List String)
    → starts_with prefix k ≡ true
    → All (λ l. starts_with prefix l ≡ false) keys
    → has_key keys k ≡ false
has_key-prefix prefix k [] h others = refl
has_key-prefix prefix k (l ∷ keys) h (other, others) = elim (Bool-cases (str_eq l k)) [
  | inl same ↦
      absurd (cc (subst (λ m. starts_with prefix m ≡ true) (sym ((eq_iff l k).0 same)) h, other))
  | inr apart ↦ rw apart (has_key-prefix prefix k keys h others)
]

-- The columns that are assignments, and the names that they assign.
pub parameter_column :
    (s : String)
    → (is_assignment_column (prefixed "parameter-" s) ≡ true)
      × (parse_assignment_name (prefixed "parameter-" s) ≡ s)
unfolding is_assignment_column prefixed parse_assignment_name
parameter_column s = (
  rw
      (has_key-prefix "parameter-" (prefixed "parameter-" s) reserved_columns refl
        (refl, (refl, (refl, (refl, (refl, tt))))))
      refl,
  refl,
)

pub conditional_column :
    (s : String)
    → (is_assignment_column (prefixed "conditional-" s) ≡ true)
      × (parse_assignment_name (prefixed "conditional-" s) ≡ s)
unfolding is_assignment_column prefixed parse_assignment_name
conditional_column s = (
  rw
      (has_key-prefix "conditional-" (prefixed "conditional-" s) reserved_columns refl
        (refl, (refl, (refl, (refl, (refl, tt))))))
      refl,
  refl,
)

pub other_column :
    (k : String)
    → (starts_with "value" k ≡ true)
      ⊎ ((starts_with "metadata-" k ≡ true) ⊎ (has_key reserved_columns k ≡ true))
    → is_assignment_column k ≡ false
unfolding is_assignment_column
other_column k (inl h) = rw h (ground arith)
other_column k (inr (inl h)) = rw h (ground arith)
other_column k (inr (inr h)) = rw h refl

pub metric_column-value :
    (prefix bare : String) (name : Json)
    → starts_with "value" bare ≡ true
    → ((s : String) → starts_with "value" (prefixed prefix s) ≡ true)
    → starts_with "value" (metric_column prefix bare name) ≡ true
unfolding metric_column
metric_column-value prefix bare (str s) b h = elim (Bool-cases (str_eq s "")) [
  | inl empty ↦ rw empty b
  | inr named ↦ rw named (h s)
]
metric_column-value prefix bare _ b h = b

pub starts_with-prefixed : (prefix s : String) → starts_with prefix (prefixed prefix s) ≡ true
unfolding starts_with
starts_with-prefixed prefix s = rw (after_prefix-prefixed prefix s) refl
