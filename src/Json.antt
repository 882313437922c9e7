-- ===== src/Json.antt =====
-- What the runtime uses of `encoding/json`: raw messages and how they decode into Go values.
-- A document is its syntax tree: white space is not kept, and a text stands for the value of its
-- literal. `malformed` is any sequence of bytes that is not exactly one JSON value.
pub mod Value
use fanloop.Base.{
  ℕ, Bool, true, false, ◌&&◌, Option, none, some, List, [], ◌∷◌, String, leb, nat_eq, if◌then◌else◌,
  ◌==◌,
}

-- `negsuc n` is -(n + 1).
pub data ℤ : Type 0 where
  pos : ℕ → ℤ
  negsuc : ℕ → ℤ

-- `a <= b`
unfoldable pub leb_ℤ : ℤ → ℤ → Bool
leb_ℤ (pos a) (pos b) = leb a b
leb_ℤ (pos a) (negsuc b) = false
leb_ℤ (negsuc a) (pos b) = true
leb_ℤ (negsuc a) (negsuc b) = leb b a

unfoldable pub eq_ℤ : ℤ → ℤ → Bool
eq_ℤ (pos a) (pos b) = nat_eq a b
eq_ℤ (negsuc a) (negsuc b) = nat_eq a b
eq_ℤ _ _ = false

mutual
  pub data Json : Type 0 where
    null : Json
    boolean : Bool → Json
    -- a literal with no fraction and no exponent
    integer : ℤ → Json
    -- any other number, by its literal
    decimal : String → Json
    text : String → Json
    array : Elements → Json
    object : Members → Json

  pub data Elements : Type 0 where
    nil : Elements
    cons : Json → Elements → Elements

  pub data Members : Type 0 where
    end : Members
    member : String → Json → Members → Members

pub data RawMessage : Type 0 where
  document : Json → RawMessage
  malformed : RawMessage

-- Into a `string`. `null` leaves the Go value as it was, here "", and is no error.
unfoldable pub decode_text : Json → Option String
decode_text null = some ""
decode_text (text s) = some s
decode_text _ = none

-- Into a `bool` that was false.
unfoldable pub decode_bool : Json → Option Bool
decode_bool null = some false
decode_bool (boolean b) = some b
decode_bool _ = none

abbrev int64_max : ℕ
int64_max = 9223372036854775807

-- Into an `int64` that was 0.
unfoldable pub decode_int64 : Json → Option ℤ
decode_int64 null = some (pos 0)
decode_int64 (integer (pos n)) = if leb n int64_max then some (pos n) else none
decode_int64 (integer (negsuc n)) = if leb n int64_max then some (negsuc n) else none
decode_int64 _ = none

unfoldable pub decode_elements : Elements → Option (List String)
unfolding decode_text
decode_elements nil = some []
decode_elements (cons x xs) = elim (decode_text x) [
  | none ↦ none
  | some s ↦ elim (decode_elements xs) [ none ↦ none | some rest ↦ some (s ∷ rest) ]
]

-- Into a `[]string`.
unfoldable pub decode_texts : Json → Option (List String)
unfolding decode_elements
decode_texts null = some []
decode_texts (array xs) = decode_elements xs
decode_texts _ = none

-- Into a `map[string]json.RawMessage`: whether the map is there and not nil.
unfoldable pub decode_object : Json → Bool
decode_object (object ms) = true
decode_object _ = false

-- `json.Unmarshal` of a whole message into a `string`.
unfoldable pub unmarshal_text : RawMessage → Option String
unfolding decode_text
unmarshal_text (document j) = decode_text j
unmarshal_text malformed = none

mutual
  unfolding eq_ℤ

  pub same_json : Json → Json → Bool
  same_json null null = true
  same_json (boolean true) (boolean b) = b
  same_json (boolean false) (boolean true) = false
  same_json (boolean false) (boolean false) = true
  same_json (integer a) (integer b) = eq_ℤ a b
  same_json (decimal a) (decimal b) = a == b
  same_json (text a) (text b) = a == b
  same_json (array a) (array b) = same_elements a b
  same_json (object a) (object b) = same_members a b
  same_json _ _ = false

  pub same_elements : Elements → Elements → Bool
  same_elements nil nil = true
  same_elements (cons x xs) (cons y ys) = same_json x y && same_elements xs ys
  same_elements _ _ = false

  pub same_members : Members → Members → Bool
  same_members end end = true
  same_members (member k x xs) (member l y ys) = k == l && same_json x y && same_members xs ys
  same_members _ _ = false
