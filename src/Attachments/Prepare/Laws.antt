-- ===== src/Attachments/Prepare/Laws.antt =====
-- What frontend/src/attachments/files.ts lets through.
use my_cars.Prelude.{
  ℕ, suc, ◌+◌, ◌≤◌, ◌≡◌, refl, true, false, List, [], ◌∷◌, ◌++◌, text_eq, any, leb, ltb, length,
  max, length-append, All, All-append, arith, Bool-cases, inl, inr,
}
use native.Mathlib.Nat.{add-zero, zero-add}
use my_cars.Client.Http.{File}
use my_cars.Attachments.Downscale.{Images, downscale_image, downscale_image_keeps}
use my_cars.Attachments.Prepare.{
  AttachmentLimits, Prepared, Refusal, prepare_one, prepare_from, prepare_files,
}

-- A file that the limits allow.
pub record IsAllowed (limits : AttachmentLimits) (f : File) : Type 0 where
  pub type_allowed : any (λ type. text_eq type f.content_type) limits.allowed_content_types ≡ true
  pub fits : f.size ≤ limits.max_file_bytes

-- `n` files have been sorted so far.
pub record IsSorted (limits : AttachmentLimits) (existing n : ℕ) (s : Prepared) : Type 0 where
  pub allowed : All (IsAllowed limits) s.accepted
  pub room : existing + length s.accepted ≤ max existing limits.max_files_per_entry
  pub counted : length s.accepted + length s.refused ≡ n

module _ {N : Type 0} (im : Images N) (limits : AttachmentLimits) (existing : ℕ) where
  accept-IsAllowed :
      (f : File)
      → any (λ type. text_eq type f.content_type) limits.allowed_content_types ≡ true
      → ltb limits.max_file_bytes (downscale_image im f).size ≡ false
      → IsAllowed limits (downscale_image im f)
  accept-IsAllowed f h k = record {
    type_allowed = rw ((downscale_image_keeps im f).1) h;
    fits = ground arith;
  }

  refuse-IsSorted :
      {n : ℕ} {s : Prepared} (r : Refusal)
      → IsSorted limits existing n s
      → IsSorted limits existing (suc n) (record s { refused = s.refused ++ r ∷ [] })
  refuse-IsSorted {s} r h = record {
    allowed = h.allowed;
    room = h.room;
    counted = omega (arith, length-append s.refused (r ∷ []), h.counted);
  }

  accept-IsSorted :
      {n : ℕ} {s : Prepared} (f : File)
      → IsSorted limits existing n s
      → IsAllowed limits f
      → leb limits.max_files_per_entry (existing + length s.accepted) ≡ false
      → IsSorted limits existing (suc n) (record s { accepted = s.accepted ++ f ∷ [] })
  accept-IsSorted {s} f h a k = record {
    allowed = All-append (IsAllowed limits) s.accepted (f ∷ []) h.allowed (a, tt);
    room = ground (arith, length-append s.accepted (f ∷ []), h.room);
    counted = omega (arith, length-append s.accepted (f ∷ []), h.counted);
  }

  prepare_one-IsSorted :
      {n : ℕ} {s : Prepared} (f : File)
      → IsSorted limits existing n s
      → IsSorted limits existing (suc n) (prepare_one im limits existing s f)
  unfolding prepare_one
  prepare_one-IsSorted {s} f h =
      elim (Bool-cases (any (λ type. text_eq type f.content_type) limits.allowed_content_types)) [
        | inr banned ↦ rw banned (refuse-IsSorted _ h)
        | inl allowed ↦
            rw allowed
              (elim (Bool-cases (leb limits.max_files_per_entry (existing + length s.accepted))) [
                | inl full ↦ rw full (refuse-IsSorted _ h)
                | inr room ↦
                    rw room
                      (elim (Bool-cases (ltb limits.max_file_bytes (downscale_image im f).size)) [
                        | inl large ↦ rw large (refuse-IsSorted _ h)
                        | inr small ↦ rw small (
                            accept-IsSorted (downscale_image im f) h
                              (accept-IsAllowed f allowed small) room)
                      ])
              ])
      ]

  prepare_from-IsSorted :
      (n : ℕ) (s : Prepared) (picked : List File)
      → IsSorted limits existing n s
      → IsSorted limits existing (n + length picked) (prepare_from im limits existing s picked)
  unfolding prepare_from
  prepare_from-IsSorted n s [] h = rw add-zero h
  prepare_from-IsSorted n s (f ∷ picked) h =
      let e : n + suc (length picked) ≡ suc n + length picked = omega arith in
      rw e (
        prepare_from-IsSorted (suc n) (prepare_one im limits existing s f) picked
          (prepare_one-IsSorted f h))

-- Every picked file is accepted or refused; an accepted file has an allowed type and, after
-- downscaling, a size within the limit; and the accepted files do not bring an entry over its
-- limit of files.
pub prepare_files-IsSorted :
    {N : Type 0} (im : Images N) (limits : AttachmentLimits) (existing : ℕ) (picked : List File)
    → IsSorted limits existing (length picked) (prepare_files im limits existing picked)
unfolding prepare_files
prepare_files-IsSorted im limits existing picked = rw (← zero-add (length picked)) (
    prepare_from-IsSorted im limits existing 0 (record { accepted = []; refused = [] }) picked
      (record { allowed = tt; room = omega arith; counted = refl }))
