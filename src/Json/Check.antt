-- ===== src/Json/Check.antt =====
-- A checker for the schemas of Json/Schema.
use my_cars.Prelude.{
  ◌≡◌, refl, sym, ◌∙◌, ◌↔◌, inl, inr, Bool, true, false, ◌&&◌, ◌||◌, List, [], ◌∷◌, Text, arith,
  all, All, any, all_iff, and_iff, text_eq, text_eq_iff,
}
use my_cars.Prelude.Int.{pos}
use my_cars.Json.{
  Value, null, bool, num, str, arr, obj, integer, items, get, is_string, is_boolean, is_null,
  is_integer, is_array, elements, one_of, Items,
}
use my_cars.Json.Schema.{
  Schema, text, boolean, whole, count, choice, matching, nullable, refined, list_of, object, Fields,
  done, field, Conforms, ConformsFields, IsObject, unrefined, unrefined_fields,
}

abbrev pub is_object : Value → Bool
is_object (arr vs) = true
is_object (obj ms) = true
is_object _ = false

abbrev pub is_natural : Value → Bool
is_natural (num (integer (pos n))) = true
is_natural _ = false

abbrev pub matches : (Text → Bool) → Value → Bool
matches p (str s) = p s
matches p _ = false

unfoldable mutual
  pub check : Schema → Value → Bool
  check text v = is_string v
  check boolean v = is_boolean v
  check whole v = is_integer v
  check count v = is_natural v
  check (choice names) v = one_of names v
  check (matching p) v = matches p v
  check (nullable t) v = is_null v || check t v
  check (refined p t) v = p v && check t v
  check (list_of t) v = is_array v && all (check t) (elements v)
  check (object fs) v = is_object v && check_fields fs v

  pub check_fields : Fields → Value → Bool
  check_fields done v = true
  check_fields (field k t fs) v = check t (get v k) && check_fields fs v

text_eq_comm : (s t : Text) → text_eq s t ≡ text_eq t s
text_eq_comm s t = ground (arith, text_eq_iff s t, text_eq_iff t s)

one_of_str : (names : List Text) (s : Text) → one_of names (str s) ≡ any (text_eq s) names
one_of_str [] s = refl
one_of_str (n ∷ names) s = ground (arith, text_eq_comm n s, one_of_str names s)

one_of_other : (names : List Text) (v : Value) → is_string v ≡ false → one_of names v ≡ false
one_of_other [] v h = refl
one_of_other (n ∷ names) v h = ground (arith, one_of_other names v h)

text_iff : (v : Value) → (is_string v ≡ true) ↔ Conforms text v
text_iff (str s) = (λ _. (s, refl), λ _. refl)
text_iff v = (λ h. cc, λ (s, e). cc)

boolean_iff : (v : Value) → (is_boolean v ≡ true) ↔ Conforms boolean v
boolean_iff (bool b) = (λ _. (b, refl), λ _. refl)
boolean_iff v = (λ h. cc, λ (b, e). cc)

whole_iff : (v : Value) → (is_integer v ≡ true) ↔ Conforms whole v
whole_iff (num (integer z)) = (λ _. (z, refl), λ _. refl)
whole_iff v = (λ h. cc, λ (z, e). cc)

count_iff : (v : Value) → (is_natural v ≡ true) ↔ Conforms count v
count_iff (num (integer (pos n))) = (λ _. (n, refl), λ _. refl)
count_iff v = (λ h. cc, λ (n, e). cc)

str-injective : {s t : Text} → str s ≡ str t → s ≡ t
str-injective e = cc

choice_iff : (names : List Text) (v : Value) → (one_of names v ≡ true) ↔ Conforms (choice names) v
choice_iff names (str s) = (
  λ h. (s, refl, sym (one_of_str names s) ∙ h),
  λ (t, e, h). one_of_str names s ∙ rw (str-injective e) h,
)
choice_iff names v = (λ h. cc (one_of_other names v refl), λ (s, e, h). cc)

matching_iff : (p : Text → Bool) (v : Value) → (matches p v ≡ true) ↔ Conforms (matching p) v
matching_iff p (str s) = (λ h. (s, refl, h), λ (t, e, h). rw (str-injective e) h)
matching_iff p v = (λ h. cc, λ (s, e, h). cc)

null_or_iff :
    (t : Schema) (v : Value)
    → (check t v ≡ true) ↔ Conforms t v
    → ((is_null v || check t v) ≡ true) ↔ Conforms (nullable t) v
null_or_iff t null d = (λ _. inl refl, λ _. refl)
null_or_iff t v d = (λ h. inr (d.0 h), elim [ inl e ↦ cc | inr c ↦ d.1 c ])

arr-injective : {vs ws : Items} → arr vs ≡ arr ws → vs ≡ ws
arr-injective e = cc

list_iff :
    (t : Schema) (v : Value)
    → ((w : Value) → (check t w ≡ true) ↔ Conforms t w)
    → ((is_array v && all (check t) (elements v)) ≡ true) ↔ Conforms (list_of t) v
list_iff t (arr vs) d = (
  λ h. (vs, refl, (all_iff (check t) d (items vs)).0 h),
  λ (ws, e, h). (all_iff (check t) d (items vs)).1 (rw (arr-injective e) h),
)
list_iff t v d = (λ h. cc, λ (ws, e, h). cc)

IsObject-iff : (v : Value) → (is_object v ≡ true) ↔ IsObject v
IsObject-iff (arr vs) = (λ _. tt, λ _. refl)
IsObject-iff (obj ms) = (λ _. tt, λ _. refl)
IsObject-iff v = (λ h. cc, λ h. absurd h)

mutual
  unfolding check

  check_schema_iff : (t : Schema) (v : Value) → (check t v ≡ true) ↔ Conforms t v
  check_schema_iff text v = text_iff v
  check_schema_iff boolean v = boolean_iff v
  check_schema_iff whole v = whole_iff v
  check_schema_iff count v = count_iff v
  check_schema_iff (choice names) v = choice_iff names v
  check_schema_iff (matching p) v = matching_iff p v
  check_schema_iff (nullable t) v = null_or_iff t v (check_schema_iff t v)
  check_schema_iff (refined p t) v = (
    λ h. let (a, b) = (and_iff _ _).0 h in (a, (check_schema_iff t v).0 b),
    λ h. (and_iff _ _).1 (h.0, (check_schema_iff t v).1 h.1),
  )
  check_schema_iff (list_of t) v = list_iff t v (check_schema_iff t)
  check_schema_iff (object fs) v = (
    λ h. let (a, b) = (and_iff _ _).0 h in ((IsObject-iff v).0 a, (check_fields_iff fs v).0 b),
    λ h. (and_iff _ _).1 ((IsObject-iff v).1 h.0, (check_fields_iff fs v).1 h.1),
  )

  check_fields_iff : (fs : Fields) (v : Value) → (check_fields fs v ≡ true) ↔ ConformsFields fs v
  check_fields_iff done v = (λ _. tt, λ _. refl)
  check_fields_iff (field k t fs) v = (
    λ h.
        let (a, b) = (and_iff _ _).0 h in
        ((check_schema_iff t (get v k)).0 a, (check_fields_iff fs v).0 b),
    λ h. (and_iff _ _).1 ((check_schema_iff t (get v k)).1 h.0, (check_fields_iff fs v).1 h.1),
  )

-- The procedure decides whether a value conforms to a schema.
pub check_iff : (t : Schema) (v : Value) → (check t v ≡ true) ↔ Conforms t v
check_iff t v = check_schema_iff t v

-- What conforms to a schema conforms to it less its refinements.
All-unrefined :
    (t : Schema)
    → ((v : Value) → Conforms t v → Conforms (unrefined t) v)
    → (vs : List Value) → All (Conforms t) vs
    → All (Conforms (unrefined t)) vs
All-unrefined t weaker [] h = tt
All-unrefined t weaker (v ∷ vs) (c, h) = (weaker v c, All-unrefined t weaker vs h)

mutual
  weaken_schema : (t : Schema) (v : Value) → Conforms t v → Conforms (unrefined t) v
  weaken_schema text v c = c
  weaken_schema boolean v c = c
  weaken_schema whole v c = c
  weaken_schema count v c = c
  weaken_schema (choice names) v c = c
  weaken_schema (matching p) v c = c
  weaken_schema (nullable t) v (inl e) = inl e
  weaken_schema (nullable t) v (inr c) = inr (weaken_schema t v c)
  weaken_schema (refined p t) v (e, c) = weaken_schema t v c
  weaken_schema (list_of t) v (vs, e, h) = (vs, e, All-unrefined t (weaken_schema t) (items vs) h)
  weaken_schema (object fs) v (o, h) = (o, weaken_fields fs v h)

  weaken_fields :
      (fs : Fields) (v : Value) → ConformsFields fs v → ConformsFields (unrefined_fields fs) v
  weaken_fields done v h = tt
  weaken_fields (field k t fs) v (c, h) = (weaken_schema t (get v k) c, weaken_fields fs v h)

pub Conforms-unrefined : (t : Schema) (v : Value) → Conforms t v → Conforms (unrefined t) v
Conforms-unrefined t v c = weaken_schema t v c
