-- ===== src/Attachments/Upload/Laws.antt =====
-- What the sequential uploads of frontend/src/attachments report.
use my_cars.Prelude.{
  ℕ, zero, suc, ◌+◌, ◌≡◌, refl, sym, ap, ◌∙◌, List, [], ◌∷◌, ◌++◌, Text, length, map, append_assoc,
  append-nil,
}
use my_cars.Json.{Value}
use my_cars.Client.Http.{Platform, Result, ok, err, File}
use my_cars.Client.Query.{AttachmentOwner}
use my_cars.Client.Account.{upload_attachment}
use my_cars.Attachments.Prepare.{Refusal}
use my_cars.Attachments.Upload.{
  Progress, UploadState, failed_name, failed_refusal, upload_one, upload_from, upload_queued_files,
  upload_all_from, upload_all,
}

-- The steps from `done` to the total, when `n` are left.
abbrev pub steps_from : ℕ → ℕ → ℕ → List Progress
steps_from done total zero = []
steps_from done total (suc n) =
    record { done = done; total = total } ∷ steps_from (done + 1) total n

module _ {W : Type 0} (p : Platform W) (owner : AttachmentOwner) where
  -- The answers to uploading the files in order, each in the world that the one before it left.
  pub answers : List File → W → List (Text × Result Value)
  answers [] w = []
  answers (file ∷ files) w =
      let (result, w') = upload_attachment p owner file w in (file.name, result) ∷ answers files w'

  pub last_world : List File → W → W
  last_world [] w = w
  last_world (file ∷ files) w = last_world files (upload_attachment p owner file w).1

-- The names of the files that were not taken.
abbrev pub failures : List (Text × Result Value) → List Text
failures [] = []
failures ((name, ok v) ∷ rest) = failures rest
failures ((name, err e) ∷ rest) = name ∷ failures rest

failures-cons :
    (result : Result Value) (name : Text) (rest : List (Text × Result Value))
    → failures ((name, result) ∷ rest) ≡ failed_name result name ++ failures rest
failures-cons (ok v) name rest = refl
failures-cons (err e) name rest = refl

abbrev pub refusals : List (Text × Result Value) → List Refusal
refusals [] = []
refusals ((name, result) ∷ rest) = failed_refusal result name ++ refusals rest

names-refusals :
    (rest : List (Text × Result Value))
    → map (λ (r : Refusal). r.name) (refusals rest) ≡ failures rest
names-refusals [] = refl
names-refusals ((name, ok v) ∷ rest) = names-refusals rest
names-refusals ((name, err e) ∷ rest) = ap (λ ns. name ∷ ns) (names-refusals rest)

module _ {W : Type 0} (p : Platform W) (owner : AttachmentOwner) where
  upload_from_lem :
      (index total : ℕ) (s : UploadState W) (files : List File)
      → upload_from p owner index total s files ≡ record {
        failed = s.failed ++ failures (answers p owner files s.world);
        progress = s.progress ++ steps_from (index + 1) total (length files);
        world = last_world p owner files s.world;
      }
  unfolding upload_from answers last_world
  upload_from_lem index total s [] = rw (append-nil s.failed, append-nil s.progress)
  upload_from_lem index total s (file ∷ files) =
      let (result, w) = upload_attachment p owner file s.world in
      upload_from_lem (index + 1) total (upload_one p owner index total s file) files
      ∙ rw (failures-cons result file.name (answers p owner files w)) (simp append_assoc)

  -- However the uploads go, each file is sent once and in order; progress counts from 0 to the
  -- number of files, and the names reported are those of exactly the files that were refused,
  -- in order.
  pub upload_queued_files_lem :
      (files : List File) (w : W)
      → upload_queued_files p owner files w ≡ record {
        failed = failures (answers p owner files w);
        progress = steps_from 0 (length files) (suc (length files));
        world = last_world p owner files w;
      }
  unfolding upload_queued_files
  upload_queued_files_lem files w = upload_from_lem 0 (length files) _ files

  upload_all_from_lem :
      (failed : List Refusal) (files : List File) (w : W)
      → upload_all_from p owner failed files w
        ≡ (failed ++ refusals (answers p owner files w), last_world p owner files w)
  unfolding upload_all_from answers last_world
  upload_all_from_lem failed [] w = rw (append-nil failed)
  upload_all_from_lem failed (file ∷ files) w =
      upload_all_from_lem (failed ++ _) files _ ∙ simp append_assoc

  -- The attachment card and the queue send the same requests and meet the same answers; the card
  -- reports the same files, with a reason for each.
  pub upload_all_lem :
      (files : List File) (w : W)
      → (upload_all p owner files w
          ≡ (refusals (answers p owner files w), last_world p owner files w))
        × (map (λ r. r.name) (upload_all p owner files w).0
            ≡ (upload_queued_files p owner files w).failed)
  unfolding upload_all
  upload_all_lem files w =
      let sent = upload_all_from_lem [] files w in
      (
        sent,
        ap (λ x. map (λ (r : Refusal). r.name) x.0) sent
            ∙ names-refusals (answers p owner files w)
            ∙ ap (λ s. s.failed) (sym (upload_queued_files_lem files w)),
      )
