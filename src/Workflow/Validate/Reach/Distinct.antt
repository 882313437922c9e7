-- ===== src/Workflow/Validate/Reach/Distinct.antt =====
-- validateFlowReachability of internal/workflow/validate.go: the set of the visited steps as a list of
-- distinct ids, and what its length says.
use fanloop.Base.{
  ℕ, zero, suc, ◌+◌, ◌≤◌, ◌≡◌, refl, sym, subst, inl, inr, true, false, some, List, [], ◌∷◌, String,
  arith, ◌==◌, eq_iff, if◌then◌else◌, Bool-cases, length, All, contains,
}
use fanloop.Workflow.{Workflow, flows_at}
use fanloop.Workflow.Validate.{Search, follow, explore}
use fanloop.Workflow.Validate.Reach.{follow_bounds}

-- No text is listed twice.
unfoldable pub IsDistinct : List String → Type 0
IsDistinct [] = Unit
IsDistinct (x ∷ xs) = (contains x xs ≡ false) × IsDistinct xs

remove : String → List String → List String
remove a [] = []
remove a (x ∷ xs) = if x == a then xs else x ∷ remove a xs

length-remove :
    (a : String) (xs : List String) → contains a xs ≡ true → length xs ≡ length (remove a xs) + 1
unfolding contains remove
length-remove a [] h = absurd (cc h)
length-remove a (x ∷ xs) h = elim (Bool-cases (x == a)) [
  | inl same ↦ rw (same) (omega arith)
  | inr other ↦
      let later = length-remove a xs (ground (arith, other, h)) in rw (other) (omega (arith, later))
]

contains-remove :
    (a b : String) (xs : List String)
    → contains b xs ≡ true
    → b == a ≡ false
    → contains b (remove a xs) ≡ true
unfolding contains remove
contains-remove a b [] h other = absurd (cc h)
contains-remove a b (x ∷ xs) h other =
    ground (arith, contains-remove a b xs, h, other, eq_iff x a, eq_iff x b, eq_iff b a)

-- Where a does not occur, the others are still there once it is removed.
All-remove :
    (a : String) (xs ys : List String)
    → contains a xs ≡ false
    → All (λ x. contains x ys ≡ true) xs
    → All (λ x. contains x (remove a ys) ≡ true) xs
unfolding contains
All-remove a [] ys absent h = tt
All-remove a (x ∷ xs) ys absent h = (
  contains-remove a x ys h.0 (ground (arith, absent)),
  All-remove a xs ys (ground (arith, absent)) h.1,
)

distinct_le :
    (xs ys : List String)
    → IsDistinct xs
    → All (λ x. contains x ys ≡ true) xs
    → length xs ≤ length ys
unfolding IsDistinct
distinct_le [] ys distinct h = omega arith
distinct_le (x ∷ xs) ys distinct h =
    let rest = distinct_le xs (remove x ys) distinct.1 (All-remove x xs ys distinct.0 h.1) in
    omega (arith, rest, length-remove x ys h.0)

-- As many distinct texts of a list as the list is long are all of its texts.
pub contains-distinct :
    (xs ys : List String) (z : String)
    → IsDistinct xs
    → All (λ x. contains x ys ≡ true) xs
    → length xs ≡ length ys
    → contains z ys ≡ true
    → contains z xs ≡ true
unfolding IsDistinct
contains-distinct xs ys z distinct h same there = elim (Bool-cases (contains z xs)) [
  | inl found ↦ found
  | inr absent ↦ absurd (omega (arith, same, distinct_le (z ∷ xs) ys (absent, distinct) (there, h)))
]

-- The search visits no step twice.
pub explore-IsDistinct :
    (w : Workflow) (fuel : ℕ) (s : Search) (todo : List String) (t : Search)
    → s.queue ≡ todo
    → IsDistinct s.visited
    → explore fuel w s ≡ some t
    → IsDistinct t.visited
unfolding explore IsDistinct
explore-IsDistinct w zero s [] t e h r =
    let same : s.visited ≡ t.visited = ground arith in subst IsDistinct same h
explore-IsDistinct w zero s (id ∷ queue) t e h r = absurd (ground arith)
explore-IsDistinct w (suc fuel) s [] t e h r =
    let same : s.visited ≡ t.visited = ground arith in subst IsDistinct same h
explore-IsDistinct w (suc fuel) s (id ∷ queue) t e h r =
    let next : Search = record s { visited = id ∷ s.visited; queue = queue } in
    elim (Bool-cases (contains id s.visited)) [
      | inl old ↦
          explore-IsDistinct w fuel (record s { queue = queue }) queue t refl h (rw (e, old) at r)
      | inr fresh ↦
          let (same, bound) = follow_bounds next (flows_at w id) in
          explore-IsDistinct w fuel (follow next (flows_at w id))
            (follow next (flows_at w id)).queue t refl (subst IsDistinct (sym same) (fresh, h))
            (rw (e, fresh) at r)
    ]
