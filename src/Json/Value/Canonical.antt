-- ===== src/Json/Value/Canonical.antt =====
-- internal/idl/commonidl/json_value.go: the values that FromAny and MarshalJSON bring back as they
-- were.
use fanloop.Base.{
  ◌≡◌, refl, inl, inr, true, false, not, ◌&&◌, Bool, some, String, ◌==◌, arith, Bool-cases, text_le,
}
use fanloop.Json.{
  Json, null, boolean, integer, decimal, text, array, object, Elements, nil, cons, Members, end,
  member, RawMessage, document, malformed,
}
use fanloop.Json.Value.{
  JsonValue, null_value, string_value, bool_value, integer_value, number_value, list_value,
  object_value, JsonValues, no_values, next_value, JsonFields, no_fields, next_field, ParseFloat,
  from_number, from_any, from_elements, from_members, marshal_json, marshal_values, marshal_fields,
  from_json, marshal, fits_int64, has_field, add_field,
}

-- Whether a key comes before every key of the members, and is none of them.
is_before : String → Members → Bool
is_before k end = true
is_before k (member j x ms) = text_le k j && not (j == k) && is_before k ms

-- A value whose objects list each key once and in order, and whose numbers are int64 literals or
-- literals that `strconv.ParseFloat` and `json.Marshal` leave as they are.
unfoldable mutual
  unfolding is_before fits_int64

  pub IsPlain : ParseFloat → Json → Type 0
  IsPlain f null = Unit
  IsPlain f (boolean b) = Unit
  IsPlain f (integer z) = fits_int64 z ≡ false → f (integer z) ≡ some (integer z)
  IsPlain f (decimal s) = f (decimal s) ≡ some (decimal s)
  IsPlain f (text s) = Unit
  IsPlain f (array xs) = ArePlain f xs
  IsPlain f (object ms) = AreOrdered f ms

  pub ArePlain : ParseFloat → Elements → Type 0
  ArePlain f nil = Unit
  ArePlain f (cons x xs) = IsPlain f x × ArePlain f xs

  pub AreOrdered : ParseFloat → Members → Type 0
  AreOrdered f end = Unit
  AreOrdered f (member k x ms) = IsPlain f x × (is_before k ms ≡ true) × AreOrdered f ms

-- Fields that take a key before those of the members as their first.
abbrev TakesFirst : Members → JsonFields → Type 0
TakesFirst ms fields =
    (k : String) (v : JsonValue)
    → is_before k ms ≡ true
    → (has_field k fields ≡ false) × (add_field k v fields ≡ next_field k v fields)

number-back :
    (f : ParseFloat) (j : Json)
    → f j ≡ some j
    → (v : JsonValue) × (from_number f j ≡ some v) × (marshal_json v ≡ some j)
unfolding marshal_json
number-back f j same = (number_value j, rw (from_number, same) refl, refl)

mutual
  unfolding IsPlain from_any marshal_json is_before has_field add_field

  pub from_any-back :
      (f : ParseFloat) (j : Json)
      → IsPlain f j
      → (v : JsonValue) × (from_any f j ≡ some v) × (marshal_json v ≡ some j)
  from_any-back f null plain = (null_value true, refl, refl)
  from_any-back f (boolean b) plain = (bool_value b, refl, refl)
  from_any-back f (text s) plain = (string_value s, refl, refl)
  from_any-back f (decimal s) plain = number-back f (decimal s) plain
  from_any-back f (integer z) plain = elim (Bool-cases (fits_int64 z)) [
    | inl fits ↦ (integer_value z, rw (from_any, fits) refl, refl)
    | inr large ↦
        let (v, made, back) = number-back f (integer z) (plain large) in
        (v, rw (from_any, large) made, back)
  ]
  from_any-back f (array xs) plain =
      let (values, made, back) = from_elements-back f xs plain in
      (list_value values, ground (arith, made), ground (arith, back))
  from_any-back f (object ms) plain =
      let (fields, made, back, first) = from_members-back f ms plain in
      (object_value fields, ground (arith, made), ground (arith, back))

  from_elements-back :
      (f : ParseFloat) (xs : Elements)
      → ArePlain f xs
      → (v : JsonValues) × (from_elements f xs ≡ some v) × (marshal_values v ≡ some xs)
  from_elements-back f nil plain = (no_values, refl, refl)
  from_elements-back f (cons x xs) plain =
      let (v, made, back) = from_any-back f x plain.0 in
      let (values, others, later) = from_elements-back f xs plain.1 in
      (next_value v values, ground (arith, made, others), ground (arith, back, later))

  from_members-back :
      (f : ParseFloat) (ms : Members)
      → AreOrdered f ms
      → (v : JsonFields) × (from_members f ms ≡ some v)
        × (marshal_fields v ≡ some ms)
        × TakesFirst ms v
  from_members-back f end plain = (no_fields, refl, refl, λ k v before. (refl, refl))
  from_members-back f (member k x ms) plain =
      let (v, made, back) = from_any-back f x plain.0 in
      let (fields, others, later, first) = from_members-back f ms plain.2 in
      let (fresh, added) = first k v plain.1 in
      (
        next_field k v fields,
        ground (arith, others, fresh, made, added),
        ground (arith, back, later),
        λ key value before.
            let (other, rest) = first key value (ground (arith, before)) in
            (ground (arith, before, other), ground (arith, before)),
      )

-- A raw value that is read back as it was: a plain document. Anything else FromJSON refuses.
unfoldable pub IsPlainMessage : ParseFloat → RawMessage → Type 0
IsPlainMessage f (document j) = IsPlain f j
IsPlainMessage f malformed = Unit

pub marshal-from_json :
    (f : ParseFloat) (raw : RawMessage) (value : JsonValue)
    → IsPlainMessage f raw
    → from_json f raw ≡ some value
    → marshal value ≡ some raw
unfolding IsPlainMessage from_json marshal
marshal-from_json f (document j) value plain h =
    let (v, made, back) = from_any-back f j plain in
    let same : v ≡ value = cc (made, h) in rw (← same) (ground (arith, back))
marshal-from_json f malformed value plain h = absurd (cc h)
