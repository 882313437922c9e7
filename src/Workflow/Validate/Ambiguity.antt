-- ===== src/Workflow/Validate/Ambiguity.antt =====
-- The static ambiguity check of internal/workflow/validate.go: what it excludes at run time.
use fanloop.Base.{
  ◌≤◌, ◌≡◌, refl, ◌≢◌, ◌⊎◌, inl, Bool, true, false, List, [], ◌∷◌, ◌++◌, String, arith, eq_iff, ok,
  >>-eq-ok, refuse_if-eq-ok, length, any, all, keep, All, contains, Dict, lookup_or, insert,
  lookup_or-insert, lookup_or-nil,
}
use fanloop.Workflow.{When, FlowRoute, LoopRoute, ConditionDefinition, matches}
use fanloop.Workflow.Parts.{group_of}
use fanloop.Workflow.Validate.{
  compatible_from, groups_compatible, whens_overlap, flows_clash, loops_clash,
  validate_flow_ambiguity, validate_loop_ambiguity,
}

-- No two Conditions of the set share an exclusive group.
abbrev pub IsConsistent : Dict ConditionDefinition → List String → Type 0
IsConsistent conditions set =
    (a b : String)
    → contains a set ≡ true
    → contains b set ≡ true
    → group_of conditions a ≢ ""
    → group_of conditions a ≡ group_of conditions b
    → a ≡ b

pub all-append :
    (p : String → Bool) (xs ys : List String)
    → all p xs ≡ true
    → all p ys ≡ true
    → all p (xs ++ ys) ≡ true
all-append p [] ys h k = k
all-append p (x ∷ xs) ys h k = ground (arith, all-append p xs ys)

module _ (conditions : Dict ConditionDefinition) (set : List String)
    (consistent : IsConsistent conditions set) where
  -- What `groups` records while the loop runs: members of the set, each under its own group.
  abbrev IsNoted : Dict String → Type 0
  IsNoted groups =
      (g : String)
      → (lookup_or "" g groups ≡ "")
        ⊎ ((contains (lookup_or "" g groups) set ≡ true)
            × (group_of conditions (lookup_or "" g groups) ≡ g))

  IsNoted-insert :
      (id : String) (groups : Dict String)
      → contains id set ≡ true
      → IsNoted groups
      → IsNoted (insert (group_of conditions id) id groups)
  IsNoted-insert id groups inside noted g =
      rw (lookup_or-insert "" (group_of conditions id) g id groups)
        (ground (arith, eq_iff (group_of conditions id) g, noted g))

  compatible_from_consistent :
      (groups : Dict String) (ids : List String)
      → IsNoted groups
      → all (λ id. contains id set) ids ≡ true
      → compatible_from conditions groups ids ≡ true
  unfolding compatible_from
  compatible_from_consistent groups [] noted inside = refl
  compatible_from_consistent groups (id ∷ ids) noted inside =
      let group = group_of conditions id in
      let previous = lookup_or "" group groups in
      ground (
        arith,
        eq_iff group "",
        eq_iff previous "",
        eq_iff previous id,
        noted group,
        consistent previous id,
        IsNoted-insert id groups,
        compatible_from_consistent groups ids noted,
        compatible_from_consistent (insert group id groups) ids,
      )

  compatible_of_subsets :
      (left right : List String)
      → all (λ id. contains id set) left ≡ true
      → all (λ id. contains id set) right ≡ true
      → groups_compatible conditions left right ≡ true
  unfolding groups_compatible
  compatible_of_subsets left right l r =
      compatible_from_consistent [] (left ++ right) (λ g. inl (lookup_or-nil "" g))
        (all-append (λ id. contains id set) left right l r)

  overlap_right :
      (left : List String) (groups : List (List String))
      → all (λ id. contains id set) left ≡ true
      → any (λ group. all (λ id. contains id set) group) groups ≡ true
      → any (λ r. groups_compatible conditions left r) groups ≡ true
  overlap_right left [] l m = m
  overlap_right left (group ∷ groups) l m =
      ground (arith, compatible_of_subsets left group l, overlap_right left groups l)

  overlap_left :
      (groups : List (List String)) (right : List (List String))
      → any (λ group. all (λ id. contains id set) group) groups ≡ true
      → any (λ group. all (λ id. contains id set) group) right ≡ true
      → any (λ l. any (λ r. groups_compatible conditions l r) right) groups ≡ true
  overlap_left [] right m n = m
  overlap_left (group ∷ groups) right m n = ground (
    arith,
    (λ (h : all (λ id. contains id set) group ≡ true). overlap_right group right h n),
    overlap_left groups right,
  )

  -- Two `when` clauses that both match a set of Conditions, no two of which share an exclusive group,
  -- are found to overlap by whensOverlap.
  pub whens_overlap_of_matches :
      (left right : When)
      → matches left set ≡ true
      → matches right set ≡ true
      → whens_overlap conditions left right ≡ true
  unfolding matches whens_overlap
  whens_overlap_of_matches left right m n = overlap_left left.any_of right.any_of m n

module _ {ℓ} {A : Type ℓ} (clash : A → A → Bool) where
  -- No element clashes with a later one.
  abbrev pub NoClash : List A → Type 0
  NoClash [] = Unit
  NoClash (x ∷ xs) = (any (clash x) xs ≡ false) × NoClash xs

  module _ (Q : A → Type 0) (p : A → Bool)
      (meet : (a b : A) → Q a → Q b → p a ≡ true → p b ≡ true → clash a b ≡ true) where
    none_kept :
        (x : A) (xs : List A)
        → Q x
        → p x ≡ true
        → All Q xs
        → any (clash x) xs ≡ false
        → length (keep p xs) ≤ 0
    none_kept x [] q h qs free = omega arith
    none_kept x (y ∷ ys) q h qs free = ground (arith, meet x y q qs.0 h, none_kept x ys q h qs.1)

    pub keep_at_most_one : (xs : List A) → All Q xs → NoClash xs → length (keep p xs) ≤ 1
    keep_at_most_one [] qs free = omega arith
    keep_at_most_one (x ∷ xs) qs free = ground (
      arith,
      (λ (h : p x ≡ true). none_kept x xs qs.0 h qs.1 free.0),
      keep_at_most_one xs qs.1 free.1,
    )

pub validate_flow_ambiguity-NoClash :
    (conditions : Dict ConditionDefinition) (routes : List FlowRoute)
    → validate_flow_ambiguity conditions routes ≡ ok tt
    → NoClash (flows_clash conditions) routes
unfolding validate_flow_ambiguity
validate_flow_ambiguity-NoClash conditions [] h = tt
validate_flow_ambiguity-NoClash conditions (route ∷ routes) h =
    let (free, rest) = >>-eq-ok _ _ h in
    (refuse_if-eq-ok _ _ free, validate_flow_ambiguity-NoClash conditions routes rest)

pub validate_loop_ambiguity-NoClash :
    (conditions : Dict ConditionDefinition) (routes : List LoopRoute)
    → validate_loop_ambiguity conditions routes ≡ ok tt
    → NoClash (loops_clash conditions) routes
unfolding validate_loop_ambiguity
validate_loop_ambiguity-NoClash conditions [] h = tt
validate_loop_ambiguity-NoClash conditions (route ∷ routes) h =
    let (free, rest) = >>-eq-ok _ _ h in
    (refuse_if-eq-ok _ _ free, validate_loop_ambiguity-NoClash conditions routes rest)
