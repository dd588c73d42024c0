-- ===== src/Attachments/Downscale.antt =====
-- frontend/src/attachments/downscale.ts. Decoding, drawing and encoding images, and the arithmetic
-- of doubles, are the browser's, and parameters.
pub mod Rounding
pub mod Laws
use my_cars.Prelude.{
  ℕ, ◌≤◌, ◌<◌, ◌≡◌, ◌∙◌, ap, ◌⊎◌, inl, inr, Bool-cases, not, List, [], ◌∷◌, Option, none, some,
  Text, codes, text_eq, any, leb, max, arith, if◌then◌else◌,
}
use my_cars.Client.Http.{File}

pub record Size : Type 0 where
  pub width : ℕ
  pub height : ℕ

pub record Blob : Type 0 where
  pub content_type : Text
  pub size : ℕ

-- `decode` is createImageBitmap with its width and height, and none where it rejects. `draw` draws
-- the file at a size on a canvas and encodes it: none where there is no context, no blob, or an
-- error. A whole number as a double, quotients and products of doubles, and `Math.round` of one that
-- is not negative.
pub record Images (N : Type 0) : Type 0 where
  pub decode : File → Option Size
  pub draw : File → Size → Option Blob
  pub double : ℕ → N
  pub over : N → N → N
  pub times : N → N → N
  pub round : N → ℕ

abbrev pub max_image_edge : ℕ
max_image_edge = 2000

abbrev resizable_types : List Text
resizable_types = codes "image/jpeg" ∷ codes "image/png" ∷ codes "image/webp" ∷ []

module _ {N : Type 0} (im : Images N) where
  -- `maxEdge / longer`
  abbrev pub factor : ℕ → ℕ → N
  factor max_edge longer = im.over (im.double max_edge) (im.double longer)

  -- `Math.max(1, Math.round(edge * factor))`
  abbrev pub scaled_edge : ℕ → N → ℕ
  scaled_edge edge by = max 1 (im.round (im.times (im.double edge) by))

  unfoldable pub scaled_size : ℕ → ℕ → ℕ → Option Size
  scaled_size width height max_edge =
      let longer = max width height in
      if leb longer max_edge
      then none
      else let by = factor max_edge longer in
        some (record { width = scaled_edge width by; height = scaled_edge height by })

  -- `new File([blob], file.name, { type: file.type })`, unless the format fell back to another.
  abbrev replaced : File → Option Blob → File
  replaced file none = file
  replaced file (some blob) =
      if not (text_eq blob.content_type file.content_type)
      then file
      else record { name = file.name; content_type = file.content_type; size = blob.size }

  abbrev redraw : File → Option Size → File
  redraw file none = file
  redraw file (some size) = replaced file (im.draw file size)

  abbrev downscale_decoded : File → Option Size → File
  unfolding scaled_size
  downscale_decoded file none = file
  downscale_decoded file (some bitmap) =
      redraw file (scaled_size bitmap.width bitmap.height max_image_edge)

  unfoldable pub downscale_image : File → File
  unfolding scaled_size
  downscale_image file =
      if not (any (text_eq file.content_type) resizable_types)
      then file
      else downscale_decoded file (im.decode file)

  -- Downscaling keeps a file's name and type.
  pub downscale_image_keeps :
      (file : File)
      → ((downscale_image file).name ≡ file.name)
        × ((downscale_image file).content_type ≡ file.content_type)
  unfolding downscale_image
  downscale_image_keeps file = ground arith
