-- ===== src/Experiment/Bulk/Upload.antt =====
-- web/js/pages/experiment/core/bulkupload/page.js: the upload of observations in batches. `batchSize` 0
-- stands for a missing one. A call is the batch and whether it is a dry run.
pub mod Batches
use sigopt_server.Base.{
  ℕ, zero, suc, Bool, true, false, Option, none, some, List, [], ◌∷◌, take, drop,
}
use sigopt_server.Experiment.Bulk.Calls.{sent, failed, unfinished, Run, answered, and_then}

module _ {A E : Type 0} (missing_batch_size : E) (answers : ℕ → Option E) where
  unfoldable pub upload : ℕ → ℕ → ℕ → List A → Bool → Run (List A × Bool) E
  upload fuel n batch_size [] dry_run = ([], sent)
  upload zero n batch_size (o ∷ remaining) dry_run = ([], unfinished)
  upload (suc fuel) n zero (o ∷ remaining) dry_run = ([], failed missing_batch_size)
  upload (suc fuel) n (suc size) (o ∷ remaining) dry_run =
      answered (answers n) (take (suc size) (o ∷ remaining), dry_run)
        (upload fuel (suc n) (suc size) (drop (suc size) (o ∷ remaining)) dry_run)

  -- `upload(observations, true).then(() => upload(observations, false))`.
  unfoldable pub upload_all : ℕ → ℕ → List A → Run (List A × Bool) E
  unfolding upload
  upload_all fuel batch_size observations =
      and_then 0 (upload fuel 0 batch_size observations true)
        (λ n. upload fuel n batch_size observations false)
