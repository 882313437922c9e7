-- ===== src/Store/Lines.antt =====
-- internal/store/store.go: the Events that commitLocked writes line by line are those that Events
-- reads.
use Prim.Native.Char.{code}
use Prim.Native.String.{◌++◌}
use Prim.Native.String.append
use fanloop.Base.{
  ◌≡◌, refl, sym, ap, ◌∙◌, false, List, [], ◌∷◌, String, arith, nat_eq, is_blank, All, Result, ok,
  err, >>=-eq-ok, ok-injective,
}
use fanloop.Storage.Messages
use fanloop.State.{Event}
use fanloop.State.Persistence.Events.{event_to_idl, encode_event}
use fanloop.State.Persistence.Decoded.{ReadsBack, IsReadable, newline_blank}
use fanloop.State.Persistence.Recorded.{IsRestorable, decode_event-restorable}
use fanloop.Store.{StoreError, local_commit_failed, Services}
use fanloop.Store.Reading.{or_code, lines, has_newline, decode_lines}
use fanloop.Store.Commit.{encode_lines}

newline-append : (rest : String) → "\n" ++ rest ≡ String.◌∷◌ "\n" rest
newline-append rest =
    append.cons "\n" String.[] rest ∙ ap (λ t. String.◌∷◌ "\n" t) (append.nil rest)

-- The first line of a text ends at its first newline.
pub lines-append :
    (line rest : String)
    → has_newline line ≡ false
    → lines (line ++ "\n" ++ rest) ≡ (line ++ "\n") ∷ lines rest
unfolding lines has_newline
lines-append String.[] rest h =
    ap lines (append.nil ("\n" ++ rest) ∙ newline-append rest)
    ∙ ap (λ t. t ∷ lines rest) (sym (append.nil "\n"))
lines-append (String.◌∷◌ c s) rest h =
    let plain : nat_eq (code c) 10 ≡ false = ground (arith, h) in
    let later : has_newline s ≡ false = ground (arith, h) in
    ap lines (append.cons c s ("\n" ++ rest))
    ∙ rw (plain, lines-append s rest later) refl
    ∙ ap (λ t. t ∷ lines rest) (sym (append.cons c s "\n"))

-- What the libraries guarantee of one Event: `encoding/json` writes it as one line and reads it as
-- it was written, and so do `time` and `strconv` with what they write.
pub record IsDurable (services : Services) (e : Event) : Type 0 where
  pub readable : IsReadable services.codec e.occurred_at
  pub restorable : IsRestorable services.codec services.cases e.payload
  pub message :
      (stored : Messages.Event)
      → event_to_idl services.env services.codec services.cases e ≡ ok stored
      → ReadsBack services.codec.events stored
  pub line :
      (content : String)
      → encode_event services.env services.codec services.cases e ≡ ok content
      → (has_newline content ≡ false) × (is_blank (content ++ "\n") ≡ false)

pub or_code-eq-ok {ℓ} :
    {E : Type 0} {A : Type ℓ} (code : StoreError) (r : Result E A) (a : A)
    → or_code code r ≡ ok a
    → r ≡ ok a
unfolding or_code
or_code-eq-ok code (ok b) a h = ap ok (ok-injective h)
or_code-eq-ok code (err e) a h = cc

module _ (services : Services) where
  pub decode_lines-encode_lines :
      (events : List Event) (content : String)
      → All (IsDurable services) events
      → encode_lines services events ≡ ok content
      → decode_lines services (lines content) ≡ ok events
  unfolding encode_lines decode_lines lines or_code
  decode_lines-encode_lines [] content durable h = rw (sym (ok-injective h)) refl
  decode_lines-encode_lines (e ∷ es) content durable h =
      let (line, encoded, h1) =
        >>=-eq-ok
          (or_code local_commit_failed (encode_event services.env services.codec services.cases e))
          _ h in
      let (rest, others, last) = >>=-eq-ok (encode_lines services es) _ h1 in
      let written = or_code-eq-ok local_commit_failed _ line encoded in
      let (single, full) = durable.0.line line written in
      let split = lines-append line rest single in
      let back =
        decode_event-restorable services.env services.codec services.cases e line "\n"
          durable.0.readable durable.0.restorable durable.0.message newline_blank written in
      let later = decode_lines-encode_lines es rest durable.1 others in
      rw (sym (ok-injective last), split, full, or_code, back, later) refl
