-- ===== src/Client/Guards/Laws.antt =====
-- The guards of frontend/src/api/client.ts against the schemas of their resources.
use mathlib.Core.Path.{fun_ext}
use my_cars.Prelude.{◌≡◌, refl, ◌↔◌, true, Bool, Text, and_assoc, and-true}
use my_cars.Json.{Value, num, str, arr, obj, integer}
use my_cars.Prelude.Int.{pos}
use my_cars.Json.Schema.{Schema, Conforms, unrefined, text, list_of}
use my_cars.Json.Check.{check, check_iff, Conforms-unrefined, is_object, is_natural, matches}
use my_cars.Client.Guards.{
  is_record, is_count, tests, page_of, items_of, is_expense_row, is_car, is_car_page, is_profile,
  is_repair, is_repair_page, is_ticket, is_ticket_page, is_refuel, is_refuel_page, is_refuel_chart,
  is_expense_statistics, is_attachment, is_attachment_list, is_attachment_limits, is_string_list,
}
use my_cars.Client.Guards.Session.{
  is_session, is_passkey_summary, is_passkey_list, is_web_authn_options,
}
use my_cars.Client.Guards.Schemas.{
  car, profile, repair, ticket, refuel, page, collection, expense_row, attachment, attachment_page,
  attachment_limits, session, passkey_summary, web_authn_options,
}

is_record-object : (v : Value) → is_record v ≡ is_object v
is_record-object (arr vs) = refl
is_record-object (obj ms) = refl
is_record-object _ = refl

is_count-natural : (v : Value) → is_count v ≡ is_natural v
is_count-natural (num (integer (pos n))) = refl
is_count-natural _ = refl

tests-matches : (p : Text → Bool) (v : Value) → tests p v ≡ matches p v
tests-matches p (str s) = refl
tests-matches p _ = refl

ruleset guard_laws = (and_assoc, and-true, is_record-object, is_count-natural, tests-matches)

-- A guard tests a schema less its refinements, so that what conforms to the schema passes.
abbrev pub Fits : Schema → (Value → Bool) → Value → Type 0
Fits t p v = ((p v ≡ true) ↔ Conforms (unrefined t) v) × (Conforms t v → p v ≡ true)

by_check :
    (t : Schema) (p : Value → Bool)
    → ((v : Value) → p v ≡ check (unrefined t) v)
    → (v : Value) → Fits t p v
by_check t p same v =
    let fits : (p v ≡ true) ↔ Conforms (unrefined t) v = rw (same v) (check_iff (unrefined t) v) in
    (fits, λ c. fits.1 (Conforms-unrefined t v c))

module _ (t : Schema) (p : Value → Bool) (same : (v : Value) → p v ≡ check t v) where
  page_of-check : (v : Value) → page_of p v ≡ check (page t) v
  unfolding check
  page_of-check v = rw (fun_ext same) (simp guard_laws)

  items_of-check : (v : Value) → items_of p v ≡ check (collection t) v
  unfolding check
  items_of-check v = rw (fun_ext same) (simp guard_laws)

module _ (format : Text → Text → Bool) where
  is_profile-check : (v : Value) → is_profile v ≡ check (unrefined (profile format)) v
  unfolding is_profile check
  is_profile-check v = simp guard_laws

  is_car-check : (v : Value) → is_car v ≡ check (unrefined (car format)) v
  unfolding is_car check
  is_car-check v = simp guard_laws

  is_repair-check : (v : Value) → is_repair v ≡ check (unrefined (repair format)) v
  unfolding is_repair check
  is_repair-check v = simp guard_laws

  is_ticket-check : (v : Value) → is_ticket v ≡ check (unrefined (ticket format)) v
  unfolding is_ticket check
  is_ticket-check v = simp guard_laws

  is_refuel-check : (v : Value) → is_refuel v ≡ check (unrefined (refuel format)) v
  unfolding is_refuel check
  is_refuel-check v = simp guard_laws

  is_attachment-check : (v : Value) → is_attachment v ≡ check (unrefined (attachment format)) v
  unfolding is_attachment check
  is_attachment-check v = simp guard_laws

  is_passkey_summary-check :
      (v : Value) → is_passkey_summary v ≡ check (unrefined (passkey_summary format)) v
  unfolding is_passkey_summary check
  is_passkey_summary-check v = simp guard_laws

  is_session-check : (v : Value) → is_session v ≡ check (unrefined (session format)) v
  unfolding is_session check
  is_session-check v = simp guard_laws

  is_expense_row-check : (v : Value) → is_expense_row v ≡ check (unrefined (expense_row format)) v
  unfolding check
  is_expense_row-check v = simp guard_laws

  is_attachment_limits-check :
      (v : Value) → is_attachment_limits v ≡ check (unrefined (attachment_limits format)) v
  unfolding is_attachment_limits check
  is_attachment_limits-check v = simp guard_laws

  is_string_list-check : (v : Value) → is_string_list v ≡ check (list_of text) v
  unfolding is_string_list check
  is_string_list-check v = refl

  is_web_authn_options-check : (v : Value) → is_web_authn_options v ≡ check web_authn_options v
  unfolding is_web_authn_options check
  is_web_authn_options-check v = simp guard_laws

  -- Whatever the formats of texts are: a single resource, which is a car, repair, ticket, refuel,
  -- attachment, profile, session, passkey, the attachment limits or passkey options, passes its guard
  -- exactly when it conforms to its documented schema less what the guards do not test: the formats,
  -- the pattern of decimals, the lengths of texts, the least readings, distances and sizes. So what
  -- conforms to the documented schema passes.
  pub guards_iff :
      (v : Value)
      → Fits (car format) is_car v
        × Fits (repair format) is_repair v
        × Fits (ticket format) is_ticket v
        × Fits (refuel format) is_refuel v
        × Fits (attachment format) is_attachment v
        × Fits (attachment_limits format) is_attachment_limits v
        × Fits (profile format) is_profile v
        × Fits (session format) is_session v
        × Fits (passkey_summary format) is_passkey_summary v
        × Fits web_authn_options is_web_authn_options v
  guards_iff v = (
    by_check (car format) is_car is_car-check v,
    by_check (repair format) is_repair is_repair-check v,
    by_check (ticket format) is_ticket is_ticket-check v,
    by_check (refuel format) is_refuel is_refuel-check v,
    by_check (attachment format) is_attachment is_attachment-check v,
    by_check (attachment_limits format) is_attachment_limits is_attachment_limits-check v,
    by_check (profile format) is_profile is_profile-check v,
    by_check (session format) is_session is_session-check v,
    by_check (passkey_summary format) is_passkey_summary is_passkey_summary-check v,
    by_check web_authn_options is_web_authn_options is_web_authn_options-check v,
  )

  -- Whatever the formats of texts are: a page or a list passes its guard exactly when it conforms to
  -- its documented schema less what the guards do not test of the items, and, for attachments, that
  -- there are at most ten and no next page. So what conforms to the documented schema passes.
  pub collections_iff :
      (v : Value)
      → Fits (page (car format)) is_car_page v
        × Fits (page (repair format)) is_repair_page v
        × Fits (page (ticket format)) is_ticket_page v
        × Fits (page (refuel format)) is_refuel_page v
        × Fits (collection (refuel format)) is_refuel_chart v
        × Fits (collection (expense_row format)) is_expense_statistics v
        × Fits (attachment_page format) is_attachment_list v
        × Fits (collection (passkey_summary format)) is_passkey_list v
        × Fits (list_of text) is_string_list v
  unfolding is_car_page is_repair_page is_ticket_page is_refuel_page is_refuel_chart
      is_expense_statistics is_attachment_list is_passkey_list
  collections_iff v = (
    by_check (page (car format)) is_car_page
        (page_of-check (unrefined (car format)) is_car is_car-check) v,
    by_check (page (repair format)) is_repair_page
        (page_of-check (unrefined (repair format)) is_repair is_repair-check) v,
    by_check (page (ticket format)) is_ticket_page
        (page_of-check (unrefined (ticket format)) is_ticket is_ticket-check) v,
    by_check (page (refuel format)) is_refuel_page
        (page_of-check (unrefined (refuel format)) is_refuel is_refuel-check) v,
    by_check (collection (refuel format)) is_refuel_chart
        (items_of-check (unrefined (refuel format)) is_refuel is_refuel-check) v,
    by_check (collection (expense_row format)) is_expense_statistics
        (items_of-check (unrefined (expense_row format)) is_expense_row is_expense_row-check) v,
    by_check (attachment_page format) is_attachment_list
        (items_of-check (unrefined (attachment format)) is_attachment is_attachment-check) v,
    by_check (collection (passkey_summary format)) is_passkey_list
        (items_of-check (unrefined (passkey_summary format)) is_passkey_summary
          is_passkey_summary-check)
        v,
    by_check (list_of text) is_string_list (is_string_list-check) v,
  )
