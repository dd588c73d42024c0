-- ===== src/Forms/Reasons.antt =====
-- Which fields of an entry form are marked, from the reasons that the server and the form itself
-- give. The forms share this (frontend/src/refuels/refuel-form.tsx and its likes).
use my_cars.Prelude.{
  ◌==◌, Bool, true, false, ◌&&◌, List, [], ◌∷◌, Option, none, some, Text, text_eq, keep,
  if◌then◌else◌,
}
use my_cars.Client.Http.{ApiError, api_error}

-- The error of a mutation: an ApiError, or another.
pub data FormError : Type 0 where
  api : ApiError → FormError
  other : FormError

abbrev or_no_fields : Option (List (Text × Text)) → List (Text × Text)
or_no_fields none = []
or_no_fields (some fields) = fields

-- `error instanceof ApiError && error.status === 400 ? (error.fields ?? {}) : {}`
unfoldable pub server_reasons : Option FormError → List (Text × Text)
server_reasons (some (api (api_error status code message fields))) =
    if status == 400 then or_no_fields fields else []
server_reasons _ = []

-- `reasons[name]`; none stands for undefined.
abbrev pub find_reason : Text → List (Text × Text) → Option Text
find_reason name [] = none
find_reason name ((k, reason) ∷ rs) =
    let rest = find_reason name rs in if text_eq k name then some reason else rest

-- Of `{ ...serverReasons, ...localReasons }`.
abbrev pub merged_reason : List (Text × Text) → List (Text × Text) → Text → Option Text
merged_reason server local name = elim (find_reason name local) [
  | some reason ↦ some reason
  | none ↦ find_reason name server
]

-- Whether a reason is truthy.
abbrev pub is_given : Option Text → Bool
is_given none = false
is_given (some []) = false
is_given (some (c ∷ s)) = true

-- `fieldNames.filter((name) => reasons[name])`
unfoldable pub invalid_fields : List Text → Option FormError → List (Text × Text) → List Text
unfolding server_reasons
invalid_fields names error local =
    keep (λ name. is_given (merged_reason (server_reasons error) local name)) names

abbrev pub is_error : Option FormError → Bool
is_error none = false
is_error (some e) = true

abbrev pub is_none : List Text → Bool
is_none [] = true
is_none (n ∷ ns) = false

-- `error !== null && invalidFields.length === 0`
unfoldable pub form_error : List Text → Option FormError → List (Text × Text) → Bool
unfolding invalid_fields
form_error names error local = is_error error && is_none (invalid_fields names error local)

-- The known reasons have texts of their own; any other is shown as 'invalid'.
unfoldable pub shown_reason : List Text → Text → Text → Text
shown_reason known invalid reason = elim (keep (text_eq reason) known) [
  | [] ↦ invalid
  | k ∷ ks ↦ reason
]
