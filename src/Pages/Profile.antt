-- ===== src/Pages/Profile.antt =====
-- The form of frontend/src/routes/_authenticated/profile.tsx.
pub mod Laws
use my_cars.Prelude.{
  ◌&&◌, Bool, true, false, List, [], ◌∷◌, Option, none, some, Text, codes, text_eq, if◌then◌else◌,
}
use my_cars.Json.{Value, Members, str, obj, end, member, read}
use my_cars.Client.Http.{Platform, Result, ok, err, string_or}
use my_cars.Client.Account.{update_me}
use my_cars.Forms.Reasons.{
  FormError, api, server_reasons, find_reason, invalid_fields, is_error, is_none, shown_reason,
}
use my_cars.Pages.Cache.{QueryClient, update_query_data}
use my_cars.Pages.Keys.{session_query_key, profile_query_key}
use my_cars.Pages.Account.{is_absent}

pub record FormValues : Type 0 where
  pub first_name : Text
  pub last_name : Text
  pub currency : Text
  pub volume_unit : Text
  pub distance_unit : Text

pub data FormField : Type 0 where
  first_name last_name currency volume_unit distance_unit : FormField

abbrev pub form_fields : List Text
form_fields =
    codes "firstName"
    ∷ codes "lastName"
    ∷ codes "currency"
    ∷ codes "volumeUnit"
    ∷ codes "distanceUnit"
    ∷ []

-- A member that the guard has found to be a text.
abbrev text_of : Value → Text
text_of v = string_or [] v

-- `formValues(profile)`
unfoldable pub form_values : Value → FormValues
form_values profile = record {
  first_name = text_of (read profile "firstName");
  last_name = text_of (read profile "lastName");
  currency = text_of (read profile "currency");
  volume_unit = text_of (read profile "volumeUnit");
  distance_unit = text_of (read profile "distanceUnit");
}

-- The values as `updateMe` sends them.
abbrev pub input_of : FormValues → Value
input_of v = obj (
    member (codes "firstName") (str v.first_name) (
      member (codes "lastName") (str v.last_name) (
        member (codes "currency") (str v.currency) (
          member (codes "volumeUnit") (str v.volume_unit)
            (member (codes "distanceUnit") (str v.distance_unit) end)))))

-- `{ ...value, k: v }` of an object's members.
abbrev pub with_member : Text → Value → Members → Members
with_member k v end = member k v end
with_member k v (member j u ms) =
    let rest = with_member k v ms in if text_eq j k then member j v ms else member j u rest

abbrev pub with_profile : Value → Value → Value
with_profile saved (obj ms) = obj (with_member (codes "profile") saved ms)
with_profile saved session = session

-- `session ? { ...session, profile: saved } : session`; undefined is none.
abbrev pub updated_session : Value → Option Value → Option Value
updated_session saved none = none
updated_session saved (some session) =
    some (if is_absent session then session else with_profile saved session)

-- The values, the state of the mutation `save`, and the cache.
pub record ProfileForm (C : Type 0) : Type 0 where
  pub values : FormValues
  pub error : Option FormError
  pub succeeded : Bool
  pub cache : C

abbrev set_value : FormField → Text → FormValues → FormValues
set_value FormField.first_name value v = record v { first_name = value }
set_value FormField.last_name value v = record v { last_name = value }
set_value FormField.currency value v = record v { currency = value }
set_value FormField.volume_unit value v = record v { volume_unit = value }
set_value FormField.distance_unit value v = record v { distance_unit = value }

-- `change(field, value)`: the mutation is reset, so its result is shown no more.
unfoldable pub change : {C : Type 0} → FormField → Text → ProfileForm C → ProfileForm C
change field value f = record f {
  values = set_value field value f.values;
  error = none;
  succeeded = false;
}

-- `fieldErrors`
unfoldable pub field_errors : Option FormError → List Text
unfolding invalid_fields
field_errors error = invalid_fields form_fields error []

-- `formError`
unfoldable pub form_error : Option FormError → Bool
unfolding field_errors
form_error error = is_error error && is_none (field_errors error)

module _ {C W : Type 0} (q : QueryClient C W) where
  -- `save.onSuccess`
  unfoldable pub saved : Value → ProfileForm C → ProfileForm C
  unfolding form_values
  saved profile f = record {
    values = form_values profile;
    error = none;
    succeeded = true;
    cache =
        update_query_data q session_query_key (updated_session profile)
          (q.set_query_data profile_query_key profile f.cache);
  }

  abbrev finished : Result Value → ProfileForm C → ProfileForm C
  unfolding saved
  finished (ok profile) f = saved profile f
  finished (err e) f = record f { error = some (api e); succeeded = false }

  -- `submit(event)`, and the mutation to its end.
  unfoldable pub submit : Platform W → ProfileForm C → W → ProfileForm C × W
  unfolding finished
  submit p f w = let (r, w') = update_me p (input_of f.values) w in (finished r f, w')
