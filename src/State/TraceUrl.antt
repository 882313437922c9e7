-- ===== src/State/TraceUrl.antt =====
-- internal/state/model.go: the URLs of Trace documents.
use fanloop.Base.{
  ℕ, ◌+◌, Bool, true, false, not, ◌&&◌, ◌||◌, none, some, List, [], ◌∷◌, ◌++◌, map, String, ◌==◌,
  leb, nat_eq, if◌then◌else◌, is_empty, codes,
}
use fanloop.Workflow.Output.{Url, UrlParser}

-- `strings.ToLower` on code points: the letters of ASCII, and the two other letters whose lower
-- case is in ASCII. Other letters stay as they are, which no test below can tell.
lower : ℕ → ℕ
lower c =
    if leb b'A' c && leb c b'Z'
    then c + 32
    else if nat_eq c 0x212A
    then b'k'
    else if nat_eq c 0x130
    then b'i'
    else c

-- The folding of `strings.EqualFold`, with the same restriction.
fold : ℕ → ℕ
fold c =
    if leb b'A' c && leb c b'Z'
    then c + 32
    else if nat_eq c 0x212A
    then b'k'
    else if nat_eq c 0x17F
    then b's'
    else c

codes_eq : List ℕ → List ℕ → Bool
codes_eq [] [] = true
codes_eq (c ∷ cs) (d ∷ ds) = nat_eq c d && codes_eq cs ds
codes_eq _ _ = false

has_prefix : List ℕ → List ℕ → Bool
has_prefix cs [] = true
has_prefix [] (p ∷ ps) = false
has_prefix (c ∷ cs) (p ∷ ps) = nat_eq c p && has_prefix cs ps

has_suffix : List ℕ → List ℕ → Bool
unfolding codes_eq
has_suffix [] suffix = codes_eq [] suffix
has_suffix (c ∷ cs) suffix = codes_eq (c ∷ cs) suffix || has_suffix cs suffix

-- `strings.Contains`
has_part : List ℕ → List ℕ → Bool
unfolding has_prefix
has_part [] part = is_empty part
has_part (c ∷ cs) part = has_prefix (c ∷ cs) part || has_part cs part

is_document_host : List ℕ → Bool
unfolding codes_eq has_suffix
is_document_host host =
    codes_eq host (codes "example.invalid")
    || has_suffix host (codes ".example.invalid")
    || has_suffix host (codes ".larkoffice.com")
    || has_suffix host (codes ".feishu.cn")
    || has_suffix host (codes ".larksuite.com")

is_document_url : Url → Bool
unfolding is_document_host has_part lower
is_document_url u =
    u.scheme == "https"
    && not (u.host == "")
    && is_document_host (map lower (codes u.host))
    && (has_part (codes u.path) (codes "/docx/") || has_part (codes u.path) (codes "/wiki/"))

-- `ValidTraceDocumentURL`
unfoldable pub valid_trace_document_url : UrlParser → String → Bool
unfolding is_document_url
valid_trace_document_url parse value = elim (parse value) [
  | none ↦ false
  | some u ↦ is_document_url u
]

-- `strings.FieldsFunc` at slashes: the parts that are not empty.
fields : List ℕ → List ℕ → List (List ℕ)
fields [] [] = []
fields (d ∷ current) [] = (d ∷ current) ∷ []
fields current (c ∷ cs) =
    let cut = fields [] cs in
    let longer = fields (current ++ c ∷ []) cs in
    if nat_eq c b'/' then (if is_empty current then cut else current ∷ cut) else longer

is_kind : List ℕ → Bool
unfolding codes_eq
is_kind part = codes_eq part (codes "wiki") || codes_eq part (codes "docx")

-- The loop of `TraceDocumentKey`.
key_of : List (List ℕ) → List ℕ
unfolding is_kind
key_of [] = []
key_of (part ∷ []) = []
key_of (part ∷ next ∷ parts) =
    let later = key_of (next ∷ parts) in if is_kind part then part ++ b':' ∷ next else later

-- `TraceDocumentKey`, as code points.
unfoldable pub trace_document_key : UrlParser → String → List ℕ
unfolding key_of fields
trace_document_key parse raw = elim (parse raw) [
  | none ↦ []
  | some u ↦ key_of (fields [] (codes u.path))
]

-- `strings.TrimSuffix(s, ".")`
trim_dot : List ℕ → List ℕ
trim_dot [] = []
trim_dot (c ∷ []) = if nat_eq c b'.' then [] else c ∷ []
trim_dot (c ∷ d ∷ cs) = c ∷ trim_dot (d ∷ cs)

same_host : Url → Url → Bool
unfolding codes_eq trim_dot fold
same_host left right =
    codes_eq (map fold (trim_dot (codes left.hostname)))
      (map fold (trim_dot (codes right.hostname)))

-- `SameTraceDocumentURL`
unfoldable pub same_trace_document_url : UrlParser → String → String → Bool
unfolding same_host codes_eq
same_trace_document_url parse left right =
    let left_key = trace_document_key parse left in
    let right_key = trace_document_key parse right in
    not (left == "" || right == "")
    && not (is_empty left_key)
    && codes_eq left_key right_key
    && (elim (parse left) [
      | none ↦ false
      | some l ↦ elim (parse right) [ none ↦ false | some r ↦ same_host l r ]
    ])
