-- ===== src/State/Persistence/Parts.antt =====
-- internal/state/persistence.go: the parts of a stored document come back as they were.
use fanloop.Base.{
  ℕ, ◌≡◌, refl, sym, ap, true, false, Option, none, some, List, [], ◌∷◌, String, arith, eq_iff,
  is_none, All, Result, ok, ◌>>=◌, >>=-eq-ok, ok-injective,
}
use fanloop.Storage.{
  EnumTable, to_string, from_string, has_distinct_codes, evidence_source, registry_profile,
  step_status, to_string-from_string, evidence_source-distinct, registry_profile-distinct,
  step_status-distinct,
}
use fanloop.Storage.Messages
use fanloop.Storage.Messages.{some_text, get_or_empty}
use fanloop.State.{
  Evidence, Requirement, Release, TraceBinding, StepStatus, is_listed_source, valid_evidence,
  valid_step_status, State, unset, ready, in_progress, fixing, blocked, awaiting_confirmation,
  other_status, status_eq,
}
use fanloop.State.Checks.{valid_cursor}
use fanloop.State.Spellings.{
  source_spelling, status_spelling, source_of-source_spelling, status_of-status_spelling,
}
use fanloop.State.Persistence.{
  PersistenceError, or_error, convert_each, named, requirement_to_idl, requirement_from_idl,
  workflow_ref_to_idl, workflow_ref_from_idl, release_to_idl, release_from_idl,
  evidence_item_to_idl, evidence_item_from_idl, evidence_to_idl, evidence_from_idl,
}
use fanloop.State.Persistence.Documents.{
  binding_to_idl, binding_from_idl, cursor_to_idl, status_from_idl,
}

pub get_or_empty-some_text : (s : String) → get_or_empty (some_text s) ≡ s
get_or_empty-some_text s = ground (arith, eq_iff s "")

pub or_error-eq-ok {ℓ} :
    {A : Type ℓ} (e : PersistenceError) (o : Option A) (a : A) → or_error e o ≡ ok a → o ≡ some a
unfolding or_error
or_error-eq-ok e none a h = cc
or_error-eq-ok e (some b) a h = ap some (ok-injective h)

pub to_string-named :
    (t : EnumTable) (s : String) (v : ℕ)
    → has_distinct_codes t ≡ true
    → named t s ≡ ok v
    → to_string t v ≡ s
unfolding named
to_string-named t s v distinct h =
    to_string-from_string t s v distinct (or_error-eq-ok _ (from_string t s) v h)

-- What converts each element back converts the slice back.
pub convert_each-back :
    {A B : Type 0} (P : A → Type 0) (f : A → Result PersistenceError B)
    (g : B → Result PersistenceError A)
    → ((x : A) (y : B) → P x → f x ≡ ok y → g y ≡ ok x)
    → (xs : List A) (ys : List B) → All P xs
    → convert_each f xs ≡ ok ys
    → convert_each g ys ≡ ok xs
unfolding convert_each
convert_each-back P f g back [] ys good h = rw (sym (ok-injective h)) refl
convert_each-back P f g back (x ∷ xs) ys good h =
    let (y, made, more) = >>=-eq-ok (f x) (λ y. convert_each f xs >>= λ ys'. ok (y ∷ ys')) h in
    let (zs, converted, last) = >>=-eq-ok (convert_each f xs) (λ zs. ok (y ∷ zs)) more in
    let rest = convert_each-back P f g back xs zs good.1 converted in
    rw (sym (ok-injective last), back x y good.0 made, rest) refl

pub requirement-back : (v : Requirement) → requirement_from_idl (some (requirement_to_idl v)) ≡ v
unfolding requirement_from_idl requirement_to_idl
requirement-back v = rw (get_or_empty-some_text v.source_url) refl

pub release-back : (v : Release) → release_from_idl (some (release_to_idl v)) ≡ v
unfolding release_from_idl release_to_idl workflow_ref_from_idl workflow_ref_to_idl
release-back v = refl

evidence_item-back :
    (v : Evidence) (m : Option Messages.Evidence)
    → is_listed_source v.source ≡ true
    → evidence_item_to_idl v ≡ ok m
    → evidence_item_from_idl m ≡ ok v
unfolding evidence_item_to_idl evidence_item_from_idl
evidence_item-back v m listed h =
    let (code, found, made) = >>=-eq-ok (named evidence_source (source_spelling v.source)) _ h in
    let spelled =
      to_string-named evidence_source (source_spelling v.source) code evidence_source-distinct
        found in
    rw
      (
        sym (ok-injective made),
        spelled,
        source_of-source_spelling v.source listed,
        get_or_empty-some_text v.ref,
      )
      refl

valid_evidence-All :
    (values : List Evidence)
    → valid_evidence values ≡ true
    → All (λ e. is_listed_source e.source ≡ true) values
unfolding valid_evidence
valid_evidence-All [] h = tt
valid_evidence-All (e ∷ es) h = (ground arith, valid_evidence-All es (ground arith))

pub evidence-back :
    (values : List Evidence) (stored : List (Option Messages.Evidence))
    → valid_evidence values ≡ true
    → evidence_to_idl values ≡ ok stored
    → evidence_from_idl stored ≡ ok values
unfolding evidence_to_idl evidence_from_idl
evidence-back values stored good h =
    convert_each-back (λ e. is_listed_source e.source ≡ true) evidence_item_to_idl
      evidence_item_from_idl evidence_item-back values stored (valid_evidence-All values good) h

pub binding-back :
    (b : Option TraceBinding) (m : Option Messages.TraceBinding)
    → binding_to_idl b ≡ ok m
    → binding_from_idl (some (record { trace = m })) ≡ b
unfolding binding_to_idl binding_from_idl
binding-back none m h = rw (sym (ok-injective h)) refl
binding-back (some b) m h =
    let (code, found, made) = >>=-eq-ok (named registry_profile b.registry) _ h in
    let spelled =
      to_string-named registry_profile b.registry code registry_profile-distinct found in
    rw (sym (ok-injective made), spelled, get_or_empty-some_text b.cli_log_document_url) refl

unset-status_eq : (a : StepStatus) → status_eq a unset ≡ true → a ≡ unset
unfolding status_eq
unset-status_eq unset h = refl
unset-status_eq ready h = cc
unset-status_eq in_progress h = cc
unset-status_eq fixing h = cc
unset-status_eq blocked h = cc
unset-status_eq awaiting_confirmation h = cc
unset-status_eq (other_status s) h = absurd (ground (arith, h))

cursor_parts-back :
    (id : Option String) (status : StepStatus) (stored : Option String × Option ℕ)
    → (is_none id ≡ true → status ≡ unset)
    → (is_none id ≡ false → valid_step_status status ≡ true)
    → cursor_to_idl id status ≡ ok stored
    → (stored.0 ≡ id) × (status_from_idl stored.1 ≡ status)
unfolding cursor_to_idl status_from_idl
cursor_parts-back none status stored ended good h =
    (rw (sym (ok-injective h)) refl, rw (sym (ok-injective h), ended refl) refl)
cursor_parts-back (some id) status stored ended good h =
    let (code, found, made) = >>=-eq-ok (named step_status (status_spelling status)) _ h in
    let spelled =
      to_string-named step_status (status_spelling status) code step_status-distinct found in
    (
      rw (sym (ok-injective made)) refl,
      rw (sym (ok-injective made), spelled, status_of-status_spelling status (good refl)) refl,
    )

-- A cursor that State.Validate accepts comes back as it was.
pub cursor-back :
    (s : State) (stored : Option String × Option ℕ)
    → valid_cursor s ≡ ok tt
    → cursor_to_idl s.current_step_id s.current_step_status ≡ ok stored
    → (stored.0 ≡ s.current_step_id) × (status_from_idl stored.1 ≡ s.current_step_status)
unfolding valid_cursor
cursor-back s stored valid h =
    cursor_parts-back s.current_step_id s.current_step_status stored
      (λ ended. unset-status_eq s.current_step_status (ground arith)) (λ present. ground arith) h
