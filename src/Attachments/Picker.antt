-- ===== src/Attachments/Picker.antt =====
-- The queue of picked files on a create form: frontend/src/attachments/file-picker.tsx and
-- attachment-queue.tsx. Preparing the picked files takes time, in which files can be removed.
pub mod Laws
use my_cars.Prelude.{
  ℕ, zero, suc, Bool, true, false, ◌||◌, List, [], ◌∷◌, ◌++◌, Option, none, some, leb, length,
  if◌then◌else◌,
}
use my_cars.Client.Http.{File}
use my_cars.Attachments.Downscale.{Images}
use my_cars.Attachments.Prepare.{AttachmentLimits, Prepared, Refusal, prepare_files}

-- The queue's files; the files that are being prepared, with the `existingCount` that they were
-- picked at; and the states `refused`.
pub record PickerState : Type 0 where
  pub files : List File
  pub preparing : Option (List File × ℕ)
  pub refused : List Refusal

-- Files are picked; the preparation ends; the file at a place is removed.
pub data PickerEvent : Type 0 where
  picked : List File → PickerEvent
  prepared : PickerEvent
  removed : ℕ → PickerEvent

abbrev is_preparing : Option (List File × ℕ) → Bool
is_preparing none = false
is_preparing (some p) = true

-- `current.filter((f) => f !== file)`, of the file at a place: no File stands in the list twice.
abbrev pub remove_at : ℕ → List File → List File
remove_at i [] = []
remove_at zero (f ∷ fs) = fs
remove_at (suc i) (f ∷ fs) = f ∷ remove_at i fs

module _ {N : Type 0} (im : Images N) (limits : AttachmentLimits) where
  -- `unavailable`
  abbrev pub is_unavailable : Bool → PickerState → Bool
  is_unavailable disabled s =
      disabled || (is_preparing s.preparing || leb limits.max_files_per_entry (length s.files))

  -- `pick(event)`, up to the wait. An input that is not available picks nothing.
  abbrev pub start : Bool → PickerState → List File → PickerState
  start disabled s [] = s
  start disabled s (f ∷ fs) =
      if is_unavailable disabled s
      then s
      else record s { preparing = some (f ∷ fs, length s.files) }

  -- `pick(event)`, behind the wait.
  abbrev pub finish : Option (List File × ℕ) → PickerState → PickerState
  unfolding prepare_files
  finish none s = s
  finish (some (fs, existing_count)) s =
      let result = prepare_files im limits existing_count fs in
      record { files = s.files ++ result.accepted; preparing = none; refused = result.refused }

  unfoldable pub picker_step : PickerState → Bool × PickerEvent → PickerState
  unfolding finish
  picker_step s (disabled, picked fs) = start disabled s fs
  picker_step s (disabled, prepared) = finish s.preparing s
  picker_step s (disabled, removed i) =
      if disabled then s else record s { files = remove_at i s.files }

  -- Events, each with whether the form is disabled.
  unfoldable pub picker_run : PickerState → List (Bool × PickerEvent) → PickerState
  unfolding picker_step
  picker_run s [] = s
  picker_run s (e ∷ es) = picker_run (picker_step s e) es
