-- ===== src/Tests/Pages.antt =====
-- The pages against a server that gives one answer, with a cache that is a function of the keys.
use my_cars.Prelude.{
  ℕ, ◌≡◌, refl, true, false, List, [], ◌∷◌, none, some, Text, codes, if◌then◌else◌,
}
use my_cars.Json.{Value, null, str, obj, arr, item, nil, end, member}
use my_cars.Client.Http.{api_error, Platform, ok, fetch_api, decoded, deleted, json_body}
use my_cars.Client.Guards.{is_car, is_profile}
use my_cars.Client.Query.{ExpenseFilter, OwnerKind, AttachmentOwner}
use my_cars.Client.Entries.{create_car, update_car, delete_car, fetch_decoded, fetch_deleted}
use my_cars.Client.Account.{logout, delete_passkey, update_me}
use my_cars.Attachments.Upload.{Queue}
use my_cars.Auth.ReturnTo.{UrlPlatform}
use my_cars.Dates.{DateRuntime}
use my_cars.Pages.Keys.{car_query_key, session_query_key, passkeys_query_key, refuel_stations_key}
use my_cars.Pages.Entries.{
  App, PickCar, start_page, refuels, create_page, save_entry, remove_entry, without_car,
}
use my_cars.Pages.Entries.Laws.{succeeded, kept_unless, entry-lookup}
use my_cars.Pages.Cars
use my_cars.Pages.Cars.Laws.{detail_key, remove_car-lookup}
use my_cars.Pages.Account.{before_load, log_out}
use my_cars.Pages.Account.Laws.{is_signed_out, turned_away, log_out-before_load}
use my_cars.Pages.Profile.{ProfileForm, form_values, input_of}
use my_cars.Pages.Login.{LoginError, api}
use my_cars.Pages.Login.Messages.{passkey_message, link_messages}
use my_cars.Pages.Login.Messages.Laws.{of_passkey, of_links, login_messages_lem}
use my_cars.Pages.Passkeys.{Section}
use my_cars.Pages.Passkeys.Changes.{
  Change, added, renamed, removed, append, replace, drop, update, update_all,
}
use my_cars.Pages.Passkeys.Changes.Laws.{lookup, store_steps, AreFresh, lookup-update_all}
use my_cars.Tests.Client.{with_texts, sample_car, response, server}
use my_cars.Tests.QueryCache.{Queries, queries, queries-IsQueryClient, no_queries, stored}

abbrev no_files : Queue
no_files = record { files = []; progress = none }

-- An app whose cache holds a car, the stations of refuels and a session.
abbrev cached : Queries
cached = stored (car_query_key (codes "x")) sample_car (
    stored (codes "refuels" ∷ codes "stations" ∷ []) null
      (stored session_query_key sample_car no_queries))

abbrev app : App Queries
app = record { cache = cached; page = start_page }

abbrev car_server : Platform ℕ
car_server = server (response 200 (some sample_car))

abbrev no_content : Platform ℕ
no_content = server (response 204 none)

abbrev no_filter : ExpenseFilter
no_filter = record { car_id = none; from = none; to = none }

entry-lookup_example :
    ((queries ℕ).get_query_data refuel_stations_key
        (create_page (queries ℕ) no_content (refuels no_content) sample_car no_files app 0).0.cache
      ≡ kept_unless
          (queries ℕ)
          (refuels no_content)
          app
          (succeeded ((refuels no_content).create sample_car 0).0)
          refuel_stations_key)
    × ((queries ℕ).get_query_data refuel_stations_key
          (save_entry (queries ℕ) (refuels no_content) (codes "r1") sample_car app 0).0.cache
        ≡ kept_unless
            (queries ℕ)
            (refuels no_content)
            app
            (succeeded ((refuels no_content).update (codes "r1") (without_car sample_car) 0).0)
            refuel_stations_key)
    × ((queries ℕ).get_query_data refuel_stations_key
          (remove_entry (queries ℕ) (refuels no_content) (codes "r1") app 0).0.cache
        ≡ kept_unless
            (queries ℕ)
            (refuels no_content)
            app
            (succeeded ((refuels no_content).delete (codes "r1") 0).0)
            refuel_stations_key)
entry-lookup_example =
    entry-lookup (queries ℕ) (queries-IsQueryClient ℕ) no_content (refuels no_content) app
      (codes "r1") sample_car no_files 0 refuel_stations_key

create_runs : create_car car_server sample_car 0 ≡ (ok sample_car, 1)
unfolding create_car fetch_api decoded json_body is_car fetch_decoded
create_runs = refl

update_runs : update_car car_server (codes "x") sample_car 0 ≡ (ok sample_car, 1)
unfolding update_car fetch_api decoded json_body is_car fetch_decoded
update_runs = refl

delete_runs : delete_car no_content (codes "x") 0 ≡ (ok tt, 1)
unfolding delete_car fetch_api deleted fetch_deleted
delete_runs = refl

remove_car-lookup_example :
    (queries ℕ).get_query_data
      (detail_key (codes "x"))
      (Cars.remove_car (queries ℕ) no_content (codes "x") app 0).0.cache
    ≡ none
remove_car-lookup_example =
    remove_car-lookup (queries ℕ) (queries-IsQueryClient ℕ) no_content app (codes "x") 0 1
      (detail_key (codes "x")) delete_runs

-- A browser that decodes every address.
abbrev browser : UrlPlatform
browser = record {
  window_origin = codes "https://cars.example";
  parse_url = λ value base. none;
  decodes = λ value. true;
  url_search_params = λ es. [];
}

log_out-before_load_example :
    before_load
      (queries ℕ)
      no_content
      browser
      (codes "/cars")
      (log_out (queries ℕ) no_content app 0).0.cache
      7
    ≡ (if is_signed_out (logout no_content 0).0
        then (
          turned_away (queries ℕ) (queries-IsQueryClient ℕ) no_content browser (codes "/cars"),
          ((queries ℕ).set_query_data session_query_key null cached, 7),
        )
        else before_load (queries ℕ) no_content browser (codes "/cars") cached 7)
log_out-before_load_example =
    log_out-before_load (queries ℕ) (queries-IsQueryClient ℕ) no_content browser (codes "/cars") app
      0 7

-- A prompt that the server refuses, since there were too many.
abbrev refused : LoginError
refused = api (api_error 429 [] [] none)

login_messages_lem_example :
    (passkey_message (some refused) ≡ of_passkey (some refused))
    × (link_messages false (some refused) ≡ of_links (some refused))
login_messages_lem_example = login_messages_lem (some refused)

-- A passkey under an id.
abbrev passkey : Text → Text → Value
passkey id name = obj (member (codes "id") (str id) (member (codes "name") (str name) end))

abbrev changes : List Change
changes =
    added (passkey (codes "p2") (codes "phone"))
    ∷ renamed (passkey (codes "p1") (codes "key ring"))
    ∷ removed (codes "p2")
    ∷ added (passkey (codes "p2") (codes "tablet"))
    ∷ []

abbrev one_passkey : List Value
one_passkey = passkey (codes "p1") (codes "laptop") ∷ []

changes-AreFresh : AreFresh changes one_passkey
unfolding AreFresh update append replace drop
changes-AreFresh = (refl, (tt, (tt, (refl, tt))))

lookup-update_all_example :
    lookup (update_all changes one_passkey) ≡ store_steps changes (lookup one_passkey)
lookup-update_all_example = lookup-update_all changes one_passkey changes-AreFresh

abbrev section : Section Queries
section = record {
  notice = none;
  add_error = none;
  cache = stored passkeys_query_key (arr (item (passkey (codes "p1") (codes "laptop")) nil)) cached;
  left = none;
}

deleted_runs : delete_passkey no_content (codes "p1") 0 ≡ (ok tt, 1)
unfolding delete_passkey fetch_api deleted fetch_deleted
deleted_runs = refl

abbrev owner : AttachmentOwner
owner = record { kind = OwnerKind.refuels; id = codes "r1" }

-- A Date that is always the same day.
abbrev one_day : DateRuntime Unit
one_day = record {
  make = λ y m d. tt;
  full_year = λ t. 2024;
  month = λ t. 0;
  date = λ t. 1;
  to_iso_string = λ t. [];
}

abbrev pick_cars : List PickCar
pick_cars =
    record {
      id = codes "old";
      state = record { deregistration_date = some (codes "2020-01-01"); is_active = true };
    }
    ∷ record { id = codes "new"; state = record { deregistration_date = none; is_active = true } }
    ∷ []

abbrev sample_profile : Value
sample_profile = obj (
    with_texts (codes "id" ∷ codes "email" ∷ codes "firstName" ∷ codes "lastName" ∷ []) (
      member (codes "currency") (str (codes "EUR")) (
        member (codes "volumeUnit") (str (codes "liter"))
          (member (codes "distanceUnit") (str (codes "kilometer")) end))))

abbrev profile_server : Platform ℕ
profile_server = server (response 200 (some sample_profile))

abbrev profile_form : ProfileForm Queries
profile_form = record {
  values = form_values sample_profile;
  error = none;
  succeeded = false;
  cache = stored session_query_key (obj (member (codes "id") (str (codes "s1")) end)) no_queries;
}

profile_runs : update_me profile_server (input_of profile_form.values) 0 ≡ (ok sample_profile, 1)
unfolding update_me fetch_api decoded json_body is_profile fetch_decoded
profile_runs = refl
