-- ===== src/Experiment/Bulk/Upload/Batches.antt =====
-- web/js/pages/experiment/core/bulkupload/page.js: which batches are sent, and when the upload stops.
use mathlib.Core.Path.{fun_ext}
use sigopt_server.Base.{
  ℕ, zero, suc, ◌≡◌, refl, ap, Bool, true, false, Option, List, [], ◌++◌, map, length, arith,
}
use sigopt_server.Experiment.Bulk.Cut.{IsCut, run-IsCut}
use sigopt_server.Experiment.Bulk.Calls.{sent, and_then, until_error, until_error-append}
use sigopt_server.Experiment.Bulk.Upload.{upload, upload_all}

module _ {A E : Type 0} (missing_batch_size : E) (answers : ℕ → Option E) where
  -- The uploads of both kinds send the same batches.
  upload-batches :
      (size : ℕ) (observations : List A)
      → (batches : List (List A)) × IsCut (suc size) observations batches
        × ((n : ℕ) (dry_run : Bool)
            → upload missing_batch_size answers
                (length observations)
                n
                (suc size)
                observations
                dry_run
              ≡ until_error answers n (map (λ batch. (batch, dry_run)) batches))
  unfolding upload
  upload-batches size observations =
      run-IsCut (λ dry_run batch. (batch, dry_run)) answers size
        (λ fuel n dry_run xs. upload missing_batch_size answers fuel n (suc size) xs dry_run)
        (λ fuel n dry_run. at_end fuel n dry_run) (λ fuel n dry_run o os. refl)
        (length observations) observations (omega arith)
    where
      at_end :
          (fuel n : ℕ) (dry_run : Bool)
          → upload {A = A} missing_batch_size answers fuel n (suc size) [] dry_run ≡ ([], sent)
      at_end zero n dry_run = refl
      at_end _ n dry_run = refl

  -- With a batch size, the observations are cut into batches of at most so many, in order. All of
  -- them are sent as dry runs first, and then for real, one after another, until one is refused: the
  -- upload fails with that error, and otherwise succeeds.
  pub upload_all-until_error :
      (size : ℕ) (observations : List A)
      → (batches : List (List A)) × IsCut (suc size) observations batches
        × (upload_all missing_batch_size answers (length observations) (suc size) observations
            ≡ until_error answers 0
                (map (λ batch. (batch, true)) batches ++ map (λ batch. (batch, false)) batches))
  unfolding upload_all
  upload_all-until_error size observations =
      let (batches, cut, same) = upload-batches size observations in
      (
        batches,
        cut,
        rw
            (
              same 0 true,
              until_error-append {C = List A × Bool} answers 0
                  (map (λ batch. (batch, true)) batches) (map (λ batch. (batch, false)) batches),
            )
            (ap (and_then 0 (until_error answers 0 (map (λ batch. (batch, true)) batches)))
              (fun_ext (λ n. same n false))),
      )
