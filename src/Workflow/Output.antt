-- ===== src/Workflow/Output.antt =====
-- internal/workflow/validate.go, ValidateOutput and the checks of an Output definition.
-- `net/url` is a parameter: `parse` is `url.Parse`, none where it returns an error.
use fanloop.Base.{
  ℕ, ◌+◌, ◌-◌, Bool, true, false, not, ◌&&◌, ◌||◌, Option, none, some, List, [], ◌∷◌, ◌++◌, String,
  ◌==◌, nat_eq, if◌then◌else◌, is_none, Result, ok, err, ◌>>◌, refuse_if, is_ok, length, is_empty,
  all, codes, is_blank, contains, Dict,
}
use fanloop.Json.{
  ℤ, pos, leb_ℤ, Json, RawMessage, document, malformed, decode_text, decode_bool, decode_int64,
  decode_texts, decode_object,
}
use fanloop.Workflow.{
  OutputType, unspecified, string, boolean, integer, path, url, url_list, enum_value, object,
  unknown, OutputDefinition, type_code, ConditionDefinition, Workflow,
}

-- The fields of `url.URL` that the program reads; `host` is the host with its port.
pub record Url : Type 0 where
  pub scheme : String
  pub host : String
  pub hostname : String
  pub path : String

abbrev pub UrlParser : Type 0
UrlParser = String → Option Url

pub data OutputError : Type 0 where
  type_mismatch constraint_violation : OutputError

-- `validOutputURL`
unfoldable pub valid_output_url : UrlParser → String → Bool
valid_output_url parse value = elim (parse value) [
  | none ↦ false
  | some u ↦ (u.scheme == "http" || u.scheme == "https") && not (u.host == "")
]

-- The parts between the slashes of a path.
split_slash : List ℕ → List ℕ → List (List ℕ)
split_slash current [] = current ∷ []
split_slash current (c ∷ cs) =
    let cut = split_slash [] cs in
    let longer = split_slash (current ++ c ∷ []) cs in
    if nat_eq c b'/' then current ∷ cut else longer

is_dot : List ℕ → Bool
is_dot (c ∷ []) = nat_eq c b'.'
is_dot _ = false

is_dot_dot : List ℕ → Bool
is_dot_dot (c ∷ d ∷ []) = nat_eq c b'.' && nat_eq d b'.'
is_dot_dot _ = false

-- `filepath.Clean` of a relative path, part by part: `up` is how many ".." the result begins with,
-- `down` how many other parts follow. Only these two numbers are read below.
clean_parts : ℕ → ℕ → List (List ℕ) → ℕ × ℕ
unfolding is_dot is_dot_dot
clean_parts up down [] = (up, down)
clean_parts up down (part ∷ parts) =
    let same = clean_parts up down parts in
    let popped = clean_parts up (down - 1) parts in
    let above = clean_parts (up + 1) down parts in
    let pushed = clean_parts up (down + 1) parts in
    if is_empty part || is_dot part
    then same
    else if is_dot_dot part
    then (if nat_eq down 0 then above else popped)
    else pushed

is_absolute : List ℕ → Bool
is_absolute [] = false
is_absolute (c ∷ cs) = nat_eq c b'/'

-- The last test of the path case: absolute, or cleaned to ".", ".." or "../…".
unfoldable pub escapes_root : String → Bool
unfolding is_absolute clean_parts split_slash
escapes_root value =
    let cleaned = clean_parts 0 0 (split_slash [] (codes value)) in
    is_absolute (codes value)
    || (nat_eq (cleaned.0) 0 && nat_eq (cleaned.1) 0)
    || not (nat_eq (cleaned.0) 0)

-- `p != nil && test(*p)`
abbrev pub given {ℓ} : {A : Type ℓ} → Option A → (A → Bool) → Bool
given none test = false
given (some a) test = test a

-- `a < b`
abbrev pub less : ℤ → ℤ → Bool
less a b = not (leb_ℤ b a)

count : List String → ℤ
count xs = pos (length xs)

module _ (parse : UrlParser) (definition : OutputDefinition) where
  validate_string : Option String → Result OutputError (Unit {0})
  validate_string none = err type_mismatch
  validate_string (some value) = refuse_if (is_blank value) type_mismatch

  validate_path : Option String → Result OutputError (Unit {0})
  unfolding escapes_root
  validate_path none = err type_mismatch
  validate_path (some value) = do
    refuse_if (is_blank value) type_mismatch
    refuse_if (escapes_root value) type_mismatch

  validate_url : Option String → Result OutputError (Unit {0})
  unfolding valid_output_url
  validate_url none = err type_mismatch
  validate_url (some value) = refuse_if (not (valid_output_url parse value)) type_mismatch

  validate_urls : Option (List String) → Result OutputError (Unit {0})
  unfolding valid_output_url count
  validate_urls none = err type_mismatch
  validate_urls (some values) = do
    refuse_if (is_empty values) type_mismatch
    refuse_if
        (given definition.min_items (λ m. less (count values) m)
          || given definition.max_items (λ m. less m (count values)))
        constraint_violation
    refuse_if (not (all (valid_output_url parse) values)) type_mismatch

  validate_enum : Option String → Result OutputError (Unit {0})
  validate_enum none = err type_mismatch
  validate_enum (some value) =
      refuse_if (not (contains value definition.values)) constraint_violation

  validate_integer : Option ℤ → Result OutputError (Unit {0})
  validate_integer none = err type_mismatch
  validate_integer (some value) =
      refuse_if
        (given definition.minimum (λ m. less value m)
          || given definition.maximum (λ m. less m value))
        constraint_violation

  -- The `switch` on the type. A type that is not listed is not checked.
  validate_as : OutputType → Json → Result OutputError (Unit {0})
  unfolding validate_string validate_path validate_url validate_urls validate_enum validate_integer
  validate_as string j = validate_string (decode_text j)
  validate_as boolean j = refuse_if (is_none (decode_bool j)) type_mismatch
  validate_as path j = validate_path (decode_text j)
  validate_as url j = validate_url (decode_text j)
  validate_as url_list j = validate_urls (decode_texts j)
  validate_as enum_value j = validate_enum (decode_text j)
  validate_as integer j = validate_integer (decode_int64 j)
  validate_as object j = refuse_if (not (decode_object j)) type_mismatch
  validate_as unspecified j = ok tt
  validate_as (unknown n) j = ok tt

  validate_malformed : OutputType → Result OutputError (Unit {0})
  validate_malformed unspecified = ok tt
  validate_malformed (unknown n) = ok tt
  validate_malformed _ = err type_mismatch

  -- `ValidateOutput`
  unfoldable pub validate_output : RawMessage → Result OutputError (Unit {0})
  unfolding validate_as validate_malformed
  validate_output (document j) = validate_as definition.type j
  validate_output malformed = validate_malformed definition.type

-- `verifyEvidenceEnum`
unfoldable pub verify_evidence_enum : List String → Bool
verify_evidence_enum values =
    not (is_empty values) && all (λ v. contains v ("passed" ∷ "failed" ∷ "blocked" ∷ [])) values

abbrev pub source_trace_document_url : String
source_trace_document_url = "integration.trace.document_url"

abbrev pub source_verify_evidence_outcome : String
source_verify_evidence_outcome = "verify.evidence.outcome"

abbrev is_type : OutputType → OutputType → Bool
is_type a b = nat_eq (type_code a) (type_code b)

-- `allowedOutputSource`
unfoldable pub allowed_output_source : OutputDefinition → Bool
unfolding verify_evidence_enum type_code
allowed_output_source d =
    if d.source == source_trace_document_url
    then is_type d.type url
    else if d.source == source_verify_evidence_outcome
    then is_type d.type enum_value && verify_evidence_enum d.values
    else false

-- `ValidateRegisteredOutput`: the loop over the Conditions; `found` is its variable.
pub data RegisteredError : Type 0 where
  wrong_type undeclared invalid : RegisteredError

module _ (parse : UrlParser) (key : String) (type : OutputType) (value : RawMessage) where
  scan_conditions : Bool → Dict ConditionDefinition → Result RegisteredError (Unit {0})
  unfolding type_code
  scan_conditions found [] = if found then err invalid else err undeclared
  scan_conditions found ((id, c) ∷ rest) =
      let skipped = scan_conditions found rest in
      let failed = scan_conditions true rest in
      if not (c.output.key == key)
      then skipped
      else if not (is_type c.output.type type)
      then err wrong_type
      else if is_ok (validate_output parse c.output value)
      then ok tt
      else failed

  unfoldable pub validate_registered_output : Workflow → Result RegisteredError (Unit {0})
  unfolding scan_conditions
  validate_registered_output w = scan_conditions false w.conditions
