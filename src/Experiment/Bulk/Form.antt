-- ===== src/Experiment/Bulk/Form.antt =====
-- web/js/pages/experiment/core/bulkupload/page.js: the form that imports a file. csv-parse is seen by
-- what it calls back with: an error, or the rows. An alert is what the broker is asked to show.
use Prim.Native.String.{String}
use sigopt_server.Base.{ℕ, Bool, true, false, Option, none, some, get_or, List, [], ◌∷◌, length}
use sigopt_server.Experiment.Bulk.Calls.{sent, failed, unfinished, Run}
use sigopt_server.Experiment.Bulk.Observations.{Observation, observations}
use sigopt_server.Experiment.Bulk.Upload.{upload_all}
use sigopt_server.Experiment.Model.{Parameter}
use sigopt_server.Utils.Dict.{Dict}

pub record Form (F : Type 0) : Type 0 where
  pub loading : Bool
  pub file : Option F

pub data Parsed (E : Type 0) : Type 0 where
  parse_error : E → Parsed E
  rows : List (Dict String) → Parsed E

pub data Shown : Type 0 where
  success : String → Shown
  error : String → Shown

-- The form, what is shown, and the calls made.
pub record Imported (F : Type 0) : Type 0 where
  pub form : Form F
  pub alerts : List Shown
  pub calls : List (List Observation × Bool)

module _ {F : Type 0} where
  unfoldable pub handle_change : Option F → Form F → Form F
  handle_change file form = record form { file = file }

  -- With no file nothing is read.
  unfoldable pub handle_submit : Form F → Form F
  handle_submit form = elim form.file [ none ↦ form | some file ↦ record form { loading = true } ]

  abbrev pub reset : Form F
  reset = record { loading = false; file = none }

  module _ {E : Type 0} (message : E → Option String) where
    unfoldable pub handle_success : List (List Observation × Bool) → Imported F
    handle_success calls = record {
      form = reset;
      alerts = success "Successfully uploaded CSV" ∷ [];
      calls = calls;
    }

    unfoldable pub handle_error : E → List (List Observation × Bool) → Imported F
    handle_error e calls = record {
      form = reset;
      alerts = error (get_or (message e) "There was an error during the upload process.") ∷ [];
      calls = calls;
    }

    unfoldable pub finish : Form F → Run (List Observation × Bool) E → Imported F
    unfolding handle_success handle_error
    finish form (calls, sent) = handle_success calls
    finish form (calls, failed e) = handle_error e calls
    finish form (calls, unfinished) = record { form = form; alerts = []; calls = calls }

    module _ (as_number : String → Option ℕ) (to_lower_case : String → String)
        (missing_batch_size : E) (answers : ℕ → Option E) where
      -- A row that throws leaves the form as it is, without a message.
      unfoldable pub bulk_upload : List Parameter → ℕ → Parsed E → Form F → Imported F
      unfolding finish upload_all observations
      bulk_upload parameters batch_size (parse_error e) form = handle_error e []
      bulk_upload parameters batch_size (rows data_rows) form =
          elim (observations as_number to_lower_case parameters data_rows) [
            | none ↦ record { form = form; alerts = []; calls = [] }
            | some os ↦
                finish form (upload_all missing_batch_size answers (length os) batch_size os)
          ]
