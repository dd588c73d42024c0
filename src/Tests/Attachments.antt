-- ===== src/Tests/Attachments.antt =====
-- Images of which one is scaled, files that are picked and sent, and a queue of picked files.
use my_cars.Prelude.{
  ℕ, zero, ◌+◌, ◌*◌, ◌/◌, ap, Bool, false, List, suc, ◌≤◌, ◌<◌, ◌≡◌, refl, ◌⊎◌, max, [], ◌∷◌, none,
  some, codes, arith,
}
use my_cars.Client.Http.{File, Platform}
use my_cars.Client.Query.{AttachmentOwner, OwnerKind}
use my_cars.Attachments.Downscale.{Images, Size, scaled_size}
use my_cars.Attachments.Downscale.Rounding.{Near}
use my_cars.Attachments.Downscale.Laws.{IsDoubles, scaled_size_lem}
use my_cars.Attachments.Prepare.{AttachmentLimits, prepare_files}
use my_cars.Attachments.Prepare.Laws.{IsSorted, prepare_files-IsSorted}
use my_cars.Attachments.Upload.{upload_queued_files}
use my_cars.Attachments.Upload.Laws.{
  answers, failures, steps_from, last_world, upload_queued_files_lem,
}
use my_cars.Attachments.Picker.{PickerState, PickerEvent, picked, prepared, removed, picker_run}
use my_cars.Attachments.Picker.Laws.{IsWithin, picker_run-IsWithin}

-- A browser whose numbers are exact fractions.
abbrev images : Images (ℕ × ℕ)
images = record {
  decode = λ file. some (record { width = 4000; height = 3000 });
  draw = λ file size. some (record { content_type = file.content_type; size = size.width });
  double = λ x. (x, 1);
  over = λ a b. (a.0 * b.1, a.1 * b.0);
  times = λ a b. (a.0 * b.0, a.1 * b.1);
  round = λ a. (2 * a.0 + max 1 a.1) / (2 * max 1 a.1);
}

den-length : (l : ℕ) → 1 ≤ l → max 1 (1 * l) ≡ l
den-length l h = omega arith

Near-same : (a b : ℕ) → a ≡ b → Near a b
Near-same a b e = (omega arith, omega arith)

half_up :
    (n d : ℕ)
    → 1 ≤ d
    → (2 * (d * ((2 * n + d) / (2 * d))) ≤ 2 * n + d)
      × (2 * n + d < 2 * (d * ((2 * n + d) / (2 * d) + 1)))
half_up n d h = (omega arith, omega arith)

images-IsDoubles : IsDoubles images
images-IsDoubles = record {
  num = λ a. a.0;
  den = λ a. max 1 a.1;
  den_pos = λ a. omega arith;
  over_near = λ m l h s t. Near-same _ _ (rw (den-length l h) (omega arith));
  times_near = λ x m l h r s t. Near-same _ _ (ap (λ y. x * (m * 1) * max 1 y) (omega arith));
  round_half_up = λ x m l h r s t. half_up (x * (m * 1)) (max 1 (1 * (1 * l))) (omega arith);
}

scaled_size_lem_example :
    ((scaled_size images 4000 3000 2000 ≡ none) × (max 4000 3000 ≤ 2000))
    ⊎ ((s : Size) × (scaled_size images 4000 3000 2000 ≡ some s)
        × (2000 < max 4000 3000)
        × (max s.width s.height ≡ 2000)
        × (1 ≤ s.width)
        × (1 ≤ s.height))
scaled_size_lem_example =
    scaled_size_lem images images-IsDoubles 4000 3000 2000 (omega arith) (omega arith) (omega arith)

scaled : scaled_size images 4000 3000 2000 ≡ some (record { width = 2000; height = 1500 })
unfolding scaled_size
scaled = refl

abbrev photo : File
photo = record { name = codes "a.jpg"; content_type = codes "image/jpeg"; size = 9000 }

abbrev note : File
note = record { name = codes "b.txt"; content_type = codes "text/plain"; size = 10 }

abbrev limits : AttachmentLimits
limits = record {
  max_file_bytes = 5000;
  max_files_per_entry = 3;
  allowed_content_types = codes "image/jpeg" ∷ codes "application/pdf" ∷ [];
}

prepare_files-IsSorted_example :
    IsSorted limits 2 3 (prepare_files images limits 2 (note ∷ photo ∷ photo ∷ []))
prepare_files-IsSorted_example = prepare_files-IsSorted images limits 2 (note ∷ photo ∷ photo ∷ [])

-- A server that takes nothing.
abbrev refusing : Platform ℕ
refusing = record {
  fetch = λ request w. (some (record { status = 413; status_text = []; body = none }), suc w);
  encode_uri_component = λ t. t;
  url_search_params = λ es. [];
}

abbrev owner : AttachmentOwner
owner = record { kind = OwnerKind.repairs; id = codes "r1" }

upload_queued_files_lem_example :
    upload_queued_files refusing owner (photo ∷ note ∷ []) 0 ≡ record {
      failed = failures (answers refusing owner (photo ∷ note ∷ []) 0);
      progress = steps_from 0 2 3;
      world = last_world refusing owner (photo ∷ note ∷ []) 0;
    }
upload_queued_files_lem_example = upload_queued_files_lem refusing owner (photo ∷ note ∷ []) 0

abbrev no_files : PickerState
no_files = record { files = []; preparing = none; refused = [] }

abbrev removed_while_preparing : List (Bool × PickerEvent)
removed_while_preparing =
    (false, picked (note ∷ photo ∷ []))
    ∷ (false, prepared)
    ∷ (false, picked (photo ∷ photo ∷ photo ∷ []))
    ∷ (false, removed zero)
    ∷ (false, prepared)
    ∷ []

no_files-IsWithin : IsWithin limits no_files
no_files-IsWithin = record { allowed = tt; room = omega arith; pending = tt }

picker_run-IsWithin_example :
    IsWithin limits (picker_run images limits no_files removed_while_preparing)
picker_run-IsWithin_example =
    picker_run-IsWithin images limits no_files removed_while_preparing no_files-IsWithin
