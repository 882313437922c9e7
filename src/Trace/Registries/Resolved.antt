-- ===== src/Trace/Registries/Resolved.antt =====
-- internal/traceconfig/registry.go: what Resolve finds in a table that decodeRegistries has made.
use fanloop.Base.{
  ◌≡◌, refl, sym, ap, ◌∙◌, subst, ◌⊎◌, inl, inr, not, nat_eq, length, some, [], ◌∷◌, String, ◌==◌,
  arith, if◌then◌else◌, Bool-cases, Option-cases, ok, >>=-eq-ok, >>-eq-ok, guard-eq-ok,
  ok-injective, fold_each, fold_each_inv, Dict, lookup, insert, lookup-insert, All, ◌>>=◌,
}
use fanloop.Trace.{Registry, TraceConfig, registry_production, resolve, apply_runtime_overrides}
use fanloop.Trace.Registries.{
  ProfileDocument, RegistryDocument, unsupported_schema, profiles_required, invalid_workflow_id,
  is_config_id, validate_registry, add_workflow, decode_profile, add_profile, decode_registries,
}

All-insert :
    {V : Type 0} (P : V → Type 0) (k : String) (v : V) (m : Dict V)
    → P v
    → All (λ e. P e.1) m
    → All (λ e. P e.1) (insert k v m)
unfolding insert
All-insert P k v [] good all = (good, tt)
All-insert P k v ((j, w) ∷ m) good all = elim (Bool-cases (j == k)) [
  | inl same ↦ rw same (good, all.1)
  | inr other ↦ rw other (all.0, All-insert P k v m good all.1)
]

lookup-All :
    {V : Type 0} (P : V → Type 0) (k : String) (m : Dict V) (v : V)
    → All (λ e. P e.1) m
    → lookup k m ≡ some v
    → P v
unfolding lookup
lookup-All P k [] v all h = absurd (cc h)
lookup-All P k ((j, w) ∷ m) v all h = elim (Bool-cases (j == k)) [
  | inl same ↦ subst P (ground (arith, same, h)) all.0
  | inr other ↦ lookup-All P k m v all.1 (ground (arith, other, h))
]

-- A Registry that validateRegistry accepts and that names its profile.
abbrev IsAccepted : String → Registry → Type 0
IsAccepted profile r = (validate_registry r ≡ ok tt) × (r.profile ≡ profile)

-- The endpoints of a profile: each is accepted, and there is a default.
record AreEndpoints (profile : String) (m : Dict Registry) : Type 0 where
  accepted : All (λ e. IsAccepted profile e.1) m
  default : Registry
  there : lookup "" m ≡ some default

add_workflow-AreEndpoints :
    (profile : String) (m : Dict Registry) (entry : String × Registry) (t : Dict Registry)
    → AreEndpoints profile m
    → add_workflow profile m entry ≡ ok t
    → AreEndpoints profile t
unfolding add_workflow
add_workflow-AreEndpoints profile m (id, registry) t held h =
    let named = record registry { profile = profile } in
    let (known, h1) = guard-eq-ok (not (is_config_id id)) invalid_workflow_id _ h in
    let (valid, last) = >>-eq-ok (validate_registry named) _ h1 in
    subst (AreEndpoints profile) (ok-injective last) (record {
      accepted = All-insert (IsAccepted profile) id named m (valid, refl) held.accepted;
      default = if id == "" then named else held.default;
      there = lookup-insert id "" named m ∙ ground (arith, held.there);
    })

decode_profile-AreEndpoints :
    (profile : String) (configured : ProfileDocument) (t : Dict Registry)
    → decode_profile profile configured ≡ ok t
    → AreEndpoints profile t
unfolding decode_profile lookup insert
decode_profile-AreEndpoints profile configured t h =
    let default = record (configured.default) { profile = profile } in
    let (valid, rest) = >>-eq-ok (validate_registry default) _ h in
    fold_each_inv (AreEndpoints profile) (add_workflow profile)
      (λ m entry t held step. add_workflow-AreEndpoints profile m entry t held step)
      (insert "" default []) configured.workflows t
      (record { accepted = ((valid, refl), tt); default = default; there = refl }) rest

add_profile-inserts :
    (document : RegistryDocument) (table : Dict (Dict Registry)) (profile : String)
    (t : Dict (Dict Registry))
    → add_profile document table profile ≡ ok t
    → (m : Dict Registry) × AreEndpoints profile m × (t ≡ insert profile m table)
unfolding add_profile
add_profile-inserts document table profile t h =
    elim (Option-cases (lookup profile document.profiles)) [
      | inl missing ↦ absurd (ground (arith, missing, h))
      | inr (configured, found) ↦
          let reached : add_profile document table profile
              ≡ (decode_profile profile configured >>= λ m. ok (insert profile m table)) =
            rw (add_profile, found) refl in
          let (m, made, last) = >>=-eq-ok (decode_profile profile configured) _ (sym reached ∙ h) in
          (m, decode_profile-AreEndpoints profile configured m made, sym (ok-injective last))
    ]

-- The two profiles are there.
decode_registries-AreProfiles :
    (document : RegistryDocument) (table : Dict (Dict Registry))
    → decode_registries document ≡ ok table
    → (production : Dict Registry) × (test : Dict Registry) × AreEndpoints registry_production
        production
      × AreEndpoints "test" test
      × (lookup registry_production table ≡ some production)
      × (lookup "test" table ≡ some test)
unfolding decode_registries fold_each lookup insert
decode_registries-AreProfiles document table h =
    let (version, h1) =
      guard-eq-ok (not (nat_eq document.schema_version 1)) unsupported_schema _ h in
    let (two, h2) =
      guard-eq-ok (not (nat_eq (length document.profiles) 2)) profiles_required _ h1 in
    let (first, one, h3) = >>=-eq-ok (add_profile document [] registry_production) _ h2 in
    let (second, other, last) = >>=-eq-ok (add_profile document first "test") _ h3 in
    let (production, good, at_first) =
      add_profile-inserts document [] registry_production first one in
    let (test, fine, at_second) = add_profile-inserts document first "test" second other in
    let same : table ≡ insert "test" test (insert registry_production production []) =
      sym (ok-injective last) ∙ at_second ∙ ap (insert "test" test) at_first in
    (production, test, good, fine, rw same refl, rw same refl)

resolve-endpoints :
    (config : TraceConfig) (profile named id : String) (m : Dict Registry)
    → (if profile == "" then registry_production else profile) ≡ named
    → lookup named config.registries ≡ some m
    → AreEndpoints named m
    → (r : Registry) × IsAccepted named r
      × (resolve config profile id ≡ some (apply_runtime_overrides config.getenv r))
unfolding resolve
resolve-endpoints config profile named id m chosen found held = elim (Option-cases (lookup id m)) [
  | inr (r, own) ↦ (
    r,
    lookup-All (IsAccepted named) id m r held.accepted own,
    rw (chosen, resolve, found, own) refl,
  )
  | inl missing ↦ (
    held.default,
    lookup-All (IsAccepted named) "" m held.default held.accepted held.there,
    rw (chosen, resolve, found, missing, held.there) refl,
  )
]

-- Once decodeRegistries has accepted the document, Resolve finds a Registry for every Workflow, for
-- the profiles production and test and for the empty one, which is production. It is a Registry that
-- validateRegistry accepts and that carries the profile, with the operator's overrides applied.
pub resolve-decode_registries :
    (document : RegistryDocument) (config : TraceConfig) (profile id : String)
    → decode_registries document ≡ ok config.registries
    → (profile ≡ "") ⊎ ((profile ≡ registry_production) ⊎ (profile ≡ "test"))
    → (r : Registry) × (validate_registry r ≡ ok tt)
      × (r.profile ≡ (if profile == "" then registry_production else profile))
      × (resolve config profile id ≡ some (apply_runtime_overrides config.getenv r))
resolve-decode_registries document config profile id h which =
    let (production, test, good, fine, first, second) =
      decode_registries-AreProfiles document config.registries h in
    elim which [
      | inl empty ↦
          let chosen : (if profile == "" then registry_production else profile)
              ≡ registry_production =
            rw empty refl in
          let (r, accepted, found) =
            resolve-endpoints config profile registry_production id production chosen first good in
          (r, accepted.0, accepted.1 ∙ sym chosen, found)
      | inr (inl is_production) ↦
          let chosen : (if profile == "" then registry_production else profile)
              ≡ registry_production =
            rw is_production refl in
          let (r, accepted, found) =
            resolve-endpoints config profile registry_production id production chosen first good in
          (r, accepted.0, accepted.1 ∙ sym chosen, found)
      | inr (inr is_test) ↦
          let chosen : (if profile == "" then registry_production else profile) ≡ "test" =
            rw is_test refl in
          let (r, accepted, found) =
            resolve-endpoints config profile "test" id test chosen second fine in
          (r, accepted.0, accepted.1 ∙ sym chosen, found)
    ]
