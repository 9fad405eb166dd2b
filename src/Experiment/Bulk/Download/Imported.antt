-- ===== src/Experiment/Bulk/Download/Imported.antt =====
-- web/js/pages/experiment/core/bulkdownload/endpoint.js, bulkupload/page.js: a file that was downloaded
-- and is uploaded again.
use Prim.Native.Char.{code}
use Prim.Native.String.{String}
use sigopt_server.Base.{
  ℕ, ◌≡◌, refl, arith, ◌==◌, ap, ◌∙◌, Bool, true, false, Option, List, [], ◌∷◌, ◌++◌, map, filter,
  All, All-map, All-append, Bool-cases, inl, inr,
}
use sigopt_server.Experiment.Bulk.Columns.{prefixed, starts_with}
use sigopt_server.Experiment.Bulk.Csv.{text, excel_unsanitize, excel_unsanitize-excel_sanitize}
use sigopt_server.Experiment.Bulk.Download.{
  text_of, as_string, StoredObservation, download_cells, read_back, metric_column, parameter_cell,
  conditional_cell, other_cells, all_value_cells, task_cells, metadata_cell,
}
use sigopt_server.Experiment.Bulk.Download.ColumnNames.{
  All-every, parameter_column, conditional_column, other_column, metric_column-value,
  starts_with-prefixed,
}
use sigopt_server.Experiment.Bulk.Observations.{
  is_assignment_column, as_assignment, assignment_of, assignments_of, defined,
}
use sigopt_server.Experiment.Model.{Parameter, Metric}
use sigopt_server.Experiment.Ui.{Conditional, Experiment}
use sigopt_server.Utils.Dict.{Dict, IsObject, is_key, extend, extend-IsObject}
use sigopt_server.Utils.Json.{
  Json, undefined, null, boolean, number, str, array, object, Fields, value_at,
}

unspaced :
    (s : String) → starts_with " " s ≡ false → text_of (excel_unsanitize {A = Json} (text s)) ≡ s
unfolding excel_unsanitize starts_with
unspaced String.[] h = refl
unspaced (String.◌∷◌ c s) h = elim (Bool-cases (code c == b' ')) [
  | inl space ↦ absurd (ground (arith, h, space))
  | inr other ↦ rw other (ground arith)
]

is_key-read :
    (read : Json → String) (k : String) (cells : Dict Json)
    → is_key k (map (λ (k, j). (k, read j)) cells) ≡ is_key k cells
is_key-read read k [] = refl
is_key-read read k ((l, j) ∷ cells) = rw (is_key-read read k cells) refl

IsObject-read :
    (read : Json → String) (cells : Dict Json)
    → IsObject cells
    → IsObject (map (λ (k, j). (k, read j)) cells)
IsObject-read read [] o = tt
IsObject-read read ((k, j) ∷ cells) (a, o) =
    (is_key-read read k cells ∙ a, IsObject-read read cells o)

module _ (to_string : Json → String) where
  -- The text that a value is shown as.
  abbrev pub shown : Json → String
  shown (str s) = s
  shown j = as_string to_string j

  value_cells-none :
      (o : StoredObservation) (metrics : List Metric)
      → All (λ (k, j). is_assignment_column k ≡ false) (all_value_cells to_string o metrics)
  unfolding prefixed starts_with
  value_cells-none o [] = tt
  value_cells-none o (m ∷ metrics) = (
    other_column (metric_column "value-" "value" m.name)
        (inl (metric_column-value "value-" "value" m.name refl (λ s. refl))),
    (
      other_column (metric_column "value_stddev-" "value_stddev" m.name)
          (inl (metric_column-value "value_stddev-" "value_stddev" m.name refl (λ s. refl))),
      value_cells-none o metrics,
    ),
  )

  task_cells-none :
      (has_tasks : Bool) (o : StoredObservation)
      → All (λ (k, j). is_assignment_column k ≡ false) (task_cells to_string has_tasks o)
  task_cells-none false o = tt
  task_cells-none true o =
      (other_column "task_name" (inr (inr refl)), (other_column "task_cost" (inr (inr refl)), tt))

  -- Every column behind those of the parameters and conditionals.
  other_cells-none :
      (experiment : Experiment) (has_tasks : Bool) (metadata_keys : List String)
      (o : StoredObservation)
      → All
          (λ (k, j). is_assignment_column k ≡ false)
          (other_cells to_string experiment has_tasks metadata_keys o)
  other_cells-none experiment has_tasks metadata_keys o =
      All-append _ (all_value_cells to_string o experiment.metrics) _
        (value_cells-none o experiment.metrics)
        (All-append _ (task_cells to_string has_tasks o) _ (task_cells-none has_tasks o) (
          other_column "failed" (inr (inr refl)),
          (
            other_column "created" (inr (inr refl)),
            All-append _ (map (metadata_cell to_string o) metadata_keys) _
                (All-map _ (metadata_cell to_string o) metadata_keys (
                  All-every _ metadata_keys (λ k.
                    other_column (prefixed "metadata-" k)
                      (inr (inl (starts_with-prefixed "metadata-" k))))))
                (other_column "id" (inr (inr refl)), tt),
          ),
        ))

  abbrev pub read_cells : Dict Json → Dict String
  read_cells cells = map (λ (k, j). (k, read_back to_string j)) cells

  -- The object that csv-parse makes of a row of the file.
  abbrev pub read_row : Dict Json → Dict String
  read_row cells = extend [] (read_cells cells)

  -- The value is a text, or its text as `toString` has it does not begin with a space.
  abbrev pub Spaceless : Json → Type 0
  Spaceless (str s) = Unit
  Spaceless undefined = Unit
  Spaceless null = Unit
  Spaceless j = starts_with " " (to_string j) ≡ false

  read_back-shown : (j : Json) → Spaceless j → read_back to_string j ≡ shown j
  unfolding read_back
  read_back-shown (str s) h = ap text_of (excel_unsanitize-excel_sanitize {A = Json} (text s)).0
  read_back-shown undefined h = refl
  read_back-shown null h = refl
  read_back-shown (number n) h = unspaced (to_string (number n)) h
  read_back-shown (boolean b) h = unspaced (to_string (boolean b)) h
  read_back-shown (array items) h = unspaced (to_string (array items)) h
  read_back-shown (object fields) h = unspaced (to_string (object fields)) h

  module _ (as_number : String → Option ℕ) (to_lower_case : String → String) where
    -- What an assignment that is shown so is read as.
    abbrev pub read_as : List Parameter → Fields → String → String × Json
    read_as parameters ra name =
        (name, as_assignment as_number to_lower_case parameters name (shown (value_at name ra)))

    abbrev assigned : List Parameter → Dict String → Dict Json
    assigned parameters row =
        map (assignment_of as_number to_lower_case parameters)
          (filter (λ (k, t). is_assignment_column k) row)

    assigned-others :
        (parameters : List Parameter) (cells : Dict Json)
        → All (λ (k, j). is_assignment_column k ≡ false) cells
        → assigned parameters (read_cells cells) ≡ []
    assigned-others parameters [] h = refl
    assigned-others parameters ((k, j) ∷ cells) (gone, h) =
        rw gone (assigned-others parameters cells h)

    assigned-conditionals :
        (parameters : List Parameter) (ra : Fields) (conditionals : List Conditional)
        (others : Dict Json)
        → All (λ (c : Conditional). Spaceless (value_at c.name ra)) conditionals
        → All (λ (k, j). is_assignment_column k ≡ false) others
        → assigned parameters
            (read_cells (map (conditional_cell to_string ra) conditionals ++ others))
          ≡ map (λ (c : Conditional). read_as parameters ra c.name) conditionals
    assigned-conditionals parameters ra [] others spaceless h = assigned-others parameters others h
    assigned-conditionals parameters ra (c ∷ conditionals) others (shows, spaceless) h =
        rw
          (
            (conditional_column c.name).0,
            (conditional_column c.name).1,
            read_back-shown (value_at c.name ra) shows,
          )
          (ap (λ l. read_as parameters ra c.name ∷ l)
            (assigned-conditionals parameters ra conditionals others spaceless h))

    assigned-parameters :
        (parameters : List Parameter) (ra : Fields) (ps : List Parameter)
        (conditionals : List Conditional) (others : Dict Json)
        → All (λ (p : Parameter). Spaceless (value_at p.name ra)) ps
        → All (λ (c : Conditional). Spaceless (value_at c.name ra)) conditionals
        → All (λ (k, j). is_assignment_column k ≡ false) others
        → assigned parameters (
            read_cells (
              map (parameter_cell to_string ra) ps
              ++ (map (conditional_cell to_string ra) conditionals ++ others)))
          ≡ map (λ (p : Parameter). read_as parameters ra p.name) ps
            ++ map (λ (c : Conditional). read_as parameters ra c.name) conditionals
    assigned-parameters parameters ra [] conditionals others spaceless also h =
        assigned-conditionals parameters ra conditionals others also h
    assigned-parameters parameters ra (p ∷ ps) conditionals others (shows, spaceless) also h =
        rw
          (
            (parameter_column p.name).0,
            (parameter_column p.name).1,
            read_back-shown (value_at p.name ra) shows,
          )
          (ap (λ l. read_as parameters ra p.name ∷ l)
            (assigned-parameters parameters ra ps conditionals others spaceless also h))

    -- When the header names each column once, and no text of an assignment that is not itself a
    -- text begins with a space, what is downloaded and uploaded again assigns, in this order and to
    -- each under its own name, the parameters and the conditionals, and nothing else: the value is
    -- what the upload reads in the text that was shown, the sanitizing of formulas undone, and what
    -- is read as null is left out.
    pub assignments_of-download_cells :
        (experiment : Experiment) (has_tasks : Bool) (metadata_keys : List String) (ra : Fields)
        (o : StoredObservation)
        → IsObject (download_cells to_string experiment has_tasks metadata_keys ra o)
        → All (λ (p : Parameter). Spaceless (value_at p.name ra)) experiment.parameters
        → All (λ (c : Conditional). Spaceless (value_at c.name ra)) experiment.conditionals
        → assignments_of as_number to_lower_case experiment.parameters
            (read_row (download_cells to_string experiment has_tasks metadata_keys ra o))
          ≡ extend [] (
              defined (
                map
                  (λ (p : Parameter). read_as experiment.parameters ra p.name)
                  experiment.parameters
                ++ map
                    (λ (c : Conditional). read_as experiment.parameters ra c.name)
                    experiment.conditionals))
    unfolding assignments_of download_cells
    assignments_of-download_cells experiment has_tasks metadata_keys ra o h spaceless also =
        rw
          (
            extend-IsObject _ (IsObject-read (read_back to_string) _ h),
            assigned-parameters experiment.parameters ra experiment.parameters
                experiment.conditionals _ spaceless also
                (other_cells-none experiment has_tasks metadata_keys o),
          )
          refl
