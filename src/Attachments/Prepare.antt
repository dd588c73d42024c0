-- ===== src/Attachments/Prepare.antt =====
-- frontend/src/attachments/files.ts: which picked files go on to be uploaded.
pub mod Laws
use my_cars.Prelude.{
  ℕ, suc, ◌+◌, ◌*◌, ◌/◌, ◌^◌, Bool, not, ◌&&◌, List, [], ◌∷◌, ◌++◌, Text, codes, text_eq, any, leb,
  ltb, length, starts_with, if◌then◌else◌,
}
use my_cars.Client.Http.{File}
use my_cars.Attachments.Downscale.{Images, downscale_image}

pub data RefusalReason : Type 0 where
  by_type by_size by_count by_upload : RefusalReason

pub record Refusal : Type 0 where
  pub name : Text
  pub reason : RefusalReason

pub record AttachmentLimits : Type 0 where
  pub max_file_bytes : ℕ
  pub max_files_per_entry : ℕ
  pub allowed_content_types : List Text

pub record Prepared : Type 0 where
  pub accepted : List File
  pub refused : List Refusal

module _ {N : Type 0} (im : Images N) (limits : AttachmentLimits) (existing_count : ℕ) where
  abbrev refuse : Prepared → File → RefusalReason → Prepared
  refuse s original reason = record s {
    refused = s.refused ++ record { name = original.name; reason = reason } ∷ [];
  }

  -- One round of the loop.
  pub prepare_one : Prepared → File → Prepared
  prepare_one s original =
      if not (any (λ type. text_eq type original.content_type) limits.allowed_content_types)
      then refuse s original by_type
      else if leb limits.max_files_per_entry (existing_count + length s.accepted)
      then refuse s original by_count
      else let file = downscale_image im original in
        if ltb limits.max_file_bytes file.size
        then refuse s original by_size
        else record s { accepted = s.accepted ++ file ∷ [] }

  pub prepare_from : Prepared → List File → Prepared
  unfolding prepare_one
  prepare_from s [] = s
  prepare_from s (original ∷ picked) = prepare_from (prepare_one s original) picked

  unfoldable pub prepare_files : List File → Prepared
  unfolding prepare_from
  prepare_files picked = prepare_from (record { accepted = []; refused = [] }) picked

unfoldable pub is_image : Text → Bool
is_image content_type = starts_with content_type (codes "image/")
