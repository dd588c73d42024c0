-- ===== src/Attachments/Upload.antt =====
-- frontend/src/attachments/upload.ts, and the uploads of attachment-manager.tsx and
-- attachment-queue.tsx: files are sent one after another.
pub mod Laws
use my_cars.Prelude.{
  ℕ, suc, ◌+◌, Bool, List, [], ◌∷◌, ◌++◌, Option, none, some, Text, codes, text_eq, length,
  if◌then◌else◌,
}
use my_cars.Json.{Value}
use my_cars.Client.Http.{Platform, Result, ok, err, ApiError, code_of, File}
use my_cars.Client.Query.{AttachmentOwner}
use my_cars.Client.Account.{upload_attachment}
use my_cars.Attachments.Prepare.{Refusal, RefusalReason, by_type, by_size, by_count, by_upload}

-- A call of `onProgress`.
pub record Progress : Type 0 where
  pub done : ℕ
  pub total : ℕ

-- `failed`, the calls of `onProgress` so far, and the outside world.
pub record UploadState (W : Type 0) : Type 0 where
  pub failed : List Text
  pub progress : List Progress
  pub world : W

abbrev pub failed_name : Result Value → Text → List Text
failed_name (ok v) name = []
failed_name (err e) name = name ∷ []

-- `reasonsByCode[error.code] ?? 'upload'`
unfoldable pub reason_of : ApiError → RefusalReason
reason_of e =
    if text_eq (code_of e) (codes "unsupported_media_type")
    then by_type
    else if text_eq (code_of e) (codes "file_too_large")
    then by_size
    else if text_eq (code_of e) (codes "attachment_limit_reached")
    then by_count
    else by_upload

abbrev pub failed_refusal : Result Value → Text → List Refusal
failed_refusal (ok v) name = []
failed_refusal (err e) name = record { name = name; reason = reason_of e } ∷ []

module _ {W : Type 0} (p : Platform W) (owner : AttachmentOwner) where
  -- One round of the loop: the file at `index` of `total`.
  abbrev upload_one : ℕ → ℕ → UploadState W → File → UploadState W
  upload_one index total s file =
      let (result, w) = upload_attachment p owner file s.world in
      record {
        failed = s.failed ++ failed_name result file.name;
        progress = s.progress ++ record { done = index + 1; total = total } ∷ [];
        world = w;
      }

  pub upload_from : ℕ → ℕ → UploadState W → List File → UploadState W
  upload_from index total s [] = s
  upload_from index total s (file ∷ files) =
      upload_from (index + 1) total (upload_one index total s file) files

  unfoldable pub upload_queued_files : List File → W → UploadState W
  unfolding upload_from
  upload_queued_files files w =
      upload_from 0 (length files)
        (record {
          failed = [];
          progress = record { done = 0; total = length files } ∷ [];
          world = w;
        })
        files

  -- The mutation of the attachment card: what was refused, with reasons.
  pub upload_all_from : List Refusal → List File → W → List Refusal × W
  unfolding reason_of
  upload_all_from failed [] w = (failed, w)
  upload_all_from failed (file ∷ files) w =
      let (result, w') = upload_attachment p owner file w in
      upload_all_from (failed ++ failed_refusal result file.name) files w'

  unfoldable pub upload_all : List File → W → List Refusal × W
  unfolding upload_all_from
  upload_all files w = upload_all_from [] files w

-- The queue of a create form: `upload` sends its files, if it has any, and clears the progress.
pub record Queue : Type 0 where
  pub files : List File
  pub progress : Option Progress

unfoldable pub queue_upload :
    {W : Type 0} → Platform W → AttachmentOwner → Queue → W → List Text × (Queue × W)
unfolding upload_queued_files
queue_upload p owner q w = elim q.files [
  | [] ↦ ([], (q, w))
  | f ∷ fs ↦
      let s = upload_queued_files p owner (f ∷ fs) w in
      (s.failed, (record q { progress = none }, s.world))
]
