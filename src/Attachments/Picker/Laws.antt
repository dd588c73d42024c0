-- ===== src/Attachments/Picker/Laws.antt =====
-- What the queue of picked files never exceeds.
use my_cars.Prelude.{
  ℕ, zero, suc, ◌≤◌, inl, inr, Bool, true, false, List, [], ◌∷◌, Option, none, some, length,
  length-append, All, All-append, arith, Bool-cases,
}
use my_cars.Client.Http.{File}
use my_cars.Attachments.Downscale.{Images}
use my_cars.Attachments.Prepare.{AttachmentLimits, prepare_files}
use my_cars.Attachments.Prepare.Laws.{IsAllowed, prepare_files-IsSorted}
use my_cars.Attachments.Picker.{
  PickerState, PickerEvent, picked, prepared, removed, remove_at, is_unavailable, start, finish,
  picker_step, picker_run,
}

-- Files that are being prepared were picked while the queue had room and was no shorter than now.
abbrev pub IsPending : AttachmentLimits → ℕ → Option (List File × ℕ) → Type 0
IsPending limits n none = Unit
IsPending limits n (some (fs, existing)) = (n ≤ existing) × (existing ≤ limits.max_files_per_entry)

-- The queue holds allowed files only, and not too many.
pub record IsWithin (limits : AttachmentLimits) (s : PickerState) : Type 0 where
  pub allowed : All (IsAllowed limits) s.files
  pub room : length s.files ≤ limits.max_files_per_entry
  pub pending : IsPending limits (length s.files) s.preparing

remove_at-All :
    (limits : AttachmentLimits) (i : ℕ) (fs : List File)
    → All (IsAllowed limits) fs
    → All (IsAllowed limits) (remove_at i fs)
remove_at-All limits i [] h = tt
remove_at-All limits zero (f ∷ fs) h = h.1
remove_at-All limits (suc i) (f ∷ fs) (h, hs) = (h, remove_at-All limits i fs hs)

length-remove_at : (i : ℕ) (fs : List File) → length (remove_at i fs) ≤ length fs
length-remove_at i [] = omega arith
length-remove_at zero (f ∷ fs) = omega arith
length-remove_at (suc i) (f ∷ fs) = omega (arith, length-remove_at i fs)

fewer-IsPending :
    (limits : AttachmentLimits) (n m : ℕ) (p : Option (List File × ℕ))
    → m ≤ n
    → IsPending limits n p
    → IsPending limits m p
fewer-IsPending limits n m none h k = tt
fewer-IsPending limits n m (some (fs, existing)) h k = omega (arith, k.0, k.1)

module _ {N : Type 0} (im : Images N) (limits : AttachmentLimits) where
  start-IsWithin :
      (disabled : Bool) (s : PickerState) (fs : List File)
      → IsWithin limits s
      → IsWithin limits (start im limits disabled s fs)
  start-IsWithin disabled s [] h = h
  start-IsWithin disabled s (f ∷ fs) h = elim (Bool-cases (is_unavailable im limits disabled s)) [
    | inl e ↦ rw e h
    | inr e ↦ rw e (record { allowed = h.allowed; room = h.room; pending = (omega arith, h.room) })
  ]

  finish-IsWithin :
      (p : Option (List File × ℕ)) (s : PickerState)
      → IsWithin limits s
      → IsPending limits (length s.files) p
      → IsWithin limits (finish im limits p s)
  unfolding finish
  finish-IsWithin none s h k = h
  finish-IsWithin (some (fs, existing)) s h k =
      let sorted = prepare_files-IsSorted im limits existing fs in
      let accepted = (prepare_files im limits existing fs).accepted in
      record {
        allowed = All-append (IsAllowed limits) s.files accepted h.allowed sorted.allowed;
        room = omega (arith, length-append s.files accepted, sorted.room, k.0, k.1);
        pending = tt;
      }

  picker_step-IsWithin :
      (s : PickerState) (e : Bool × PickerEvent)
      → IsWithin limits s
      → IsWithin limits (picker_step im limits s e)
  unfolding picker_step
  picker_step-IsWithin s (disabled, picked fs) h = start-IsWithin disabled s fs h
  picker_step-IsWithin s (disabled, prepared) h = finish-IsWithin s.preparing s h h.pending
  picker_step-IsWithin s (true, removed i) h = h
  picker_step-IsWithin s (false, removed i) h = record {
    allowed = remove_at-All limits i s.files h.allowed;
    room = omega (arith, length-remove_at i s.files, h.room);
    pending =
        fewer-IsPending limits (length s.files) (length (remove_at i s.files)) s.preparing
          (length-remove_at i s.files) h.pending;
  }

  -- However files are picked, prepared and removed, also while others are being prepared, a queue
  -- that starts within the limits never holds more files than an entry may have, and each of its
  -- files has an allowed type and a size within the limit.
  pub picker_run-IsWithin :
      (s : PickerState) (es : List (Bool × PickerEvent))
      → IsWithin limits s
      → IsWithin limits (picker_run im limits s es)
  unfolding picker_run
  picker_run-IsWithin s [] h = h
  picker_run-IsWithin s (e ∷ es) h =
      picker_run-IsWithin (picker_step im limits s e) es (picker_step-IsWithin s e h)
