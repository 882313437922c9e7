-- ===== src/Workflow/Validate/Reach.antt =====
-- validateFlowReachability of internal/workflow/validate.go: its search ends, and what it finds is
-- reachable.
pub mod Distinct
pub mod Found
pub mod Connected
use fanloop.Base.{
  ℕ, zero, suc, ◌+◌, ◌≤◌, ◌≡◌, refl, ap, subst, inl, inr, true, false, Option, none, some, List, [],
  ◌∷◌, ◌++◌, String, arith, eq_iff, if◌then◌else◌, Bool-cases, is_some, ok, length, All,
  length-append, contains, Dict, lookup_or,
}
use mathlib.Core.List.{Memᴰ}
use fanloop.Workflow.{FlowRoute, Workflow, flows_at, first_step_id, ordered_step_ids}
use fanloop.Workflow.Validate.{
  Search, follow, explore, explore_fuel, route_total, judge_reach, validate_flow_reachability,
}

-- The routes whose step the search has yet to visit.
abbrev pending : Dict (List FlowRoute) → List String → ℕ
pending [] visited = 0
pending ((id, routes) ∷ flows) visited =
    (if contains id visited then 0 else length routes) + pending flows visited

pending-visit :
    (flows : Dict (List FlowRoute)) (id : String) (visited : List String)
    → (pending flows (id ∷ visited) ≤ pending flows visited)
      × (contains id visited ≡ false
          → pending flows (id ∷ visited) + length (lookup_or [] id flows) ≤ pending flows visited)
unfolding contains lookup_or
pending-visit [] id visited = (omega arith, λ h. omega arith)
pending-visit ((j, routes) ∷ flows) id visited =
    let (less, fresh) = pending-visit flows id visited in
    (
      ground (arith, eq_iff id j, eq_iff j id),
      λ h. ground (arith, eq_iff id j, eq_iff j id, fresh h),
    )

pending-nil : (flows : Dict (List FlowRoute)) → pending flows [] ≡ route_total flows
unfolding contains route_total
pending-nil [] = refl
pending-nil ((id, routes) ∷ flows) = omega (arith, pending-nil flows)

pub follow_bounds :
    (s : Search) (routes : List FlowRoute)
    → ((follow s routes).visited ≡ s.visited)
      × (length (follow s routes).queue ≤ length s.queue + length routes)
unfolding follow
follow_bounds s [] = (refl, omega arith)
follow_bounds s (route ∷ routes) = elim (Bool-cases route.terminal) [
  | inl t ↦ rw t (
      let (same, bound) = follow_bounds (record s { terminal = true }) routes in
      (same, omega arith))
  | inr f ↦ rw f (
      let (same, bound) =
        follow_bounds (record s { queue = s.queue ++ route.next_step_id ∷ [] }) routes in
      (same, omega (arith, length-append s.queue (route.next_step_id ∷ []))))
]

module _ (w : Workflow) where
  -- What the search still has to do.
  abbrev work : Search → ℕ
  work s = length s.queue + pending w.flows s.visited

  work-visit :
      (s : Search) (id : String) (queue : List String)
      → contains id s.visited ≡ false
      → work (follow (record s { visited = id ∷ s.visited; queue = queue }) (flows_at w id))
        ≤ length queue + pending w.flows s.visited
  work-visit s id queue fresh =
      let next : Search = record s { visited = id ∷ s.visited; queue = queue } in
      let (same, bound) = follow_bounds next (flows_at w id) in
      rw same (omega (arith, (pending-visit w.flows id s.visited).1 fresh, bound))

  explore_total_at :
      (fuel : ℕ) (s : Search) (todo : List String)
      → s.queue ≡ todo
      → work s ≤ fuel
      → is_some (explore fuel w s) ≡ true
  unfolding explore
  explore_total_at zero s [] e h = rw e refl
  explore_total_at zero s (id ∷ queue) e h = absurd (omega (arith, ap length e))
  explore_total_at (suc fuel) s [] e h = rw e refl
  explore_total_at (suc fuel) s (id ∷ queue) e h =
      let next : Search = record s { visited = id ∷ s.visited; queue = queue } in
      rw e (elim (Bool-cases (contains id s.visited)) [
        | inl old ↦ rw old (
            explore_total_at fuel (record s { queue = queue }) queue refl
              (omega (arith, ap length e)))
        | inr fresh ↦ rw fresh (
            explore_total_at fuel (follow next (flows_at w id)) (follow next (flows_at w id)).queue
              refl (omega (arith, ap length e, work-visit s id queue fresh)))
      ])

-- The search of validateFlowReachability always ends within its fuel: from any first step, with
-- as much fuel as there are routes and one more, it returns a result, for every bundle.
pub explore_total :
    (w : Workflow) (first : String)
    → is_some
        (explore (explore_fuel w) w (record { visited = []; queue = first ∷ []; terminal = false }))
      ≡ true
explore_total w first =
    explore_total_at w (explore_fuel w)
      (record { visited = []; queue = first ∷ []; terminal = false }) (first ∷ []) refl
      (omega (arith, pending-nil w.flows))

All-of_mem : {A : Type 0} (P : A → Type 0) (xs : List A) → ((x : A) → Memᴰ x xs → P x) → All P xs
All-of_mem P [] h = tt
All-of_mem P (x ∷ xs) h = (h x (Memᴰ.head refl), All-of_mem P xs (λ y m. h y (Memᴰ.tail m)))

All-append : {A : Type 0} (P : A → Type 0) (xs ys : List A) → All P xs → All P ys → All P (xs ++ ys)
All-append P [] ys h k = k
All-append P (x ∷ xs) ys h k = (h.0, All-append P xs ys h.1 k)

module _ (w : Workflow) (first : String) where
  -- The steps that Flow routes lead to from the first step.
  pub data Reaches : String → Type 0 where
    start : {id : String} → id ≡ first → Reaches id
    flow :
        {id : String} (source : String) (route : FlowRoute)
        → Reaches source
        → Memᴰ route (flows_at w source)
        → route.terminal ≡ false
        → route.next_step_id ≡ id
        → Reaches id

  -- A terminal route of a reachable step.
  pub record Exit : Type 0 where
    pub source : String
    pub route : FlowRoute
    pub reached : Reaches source
    pub listed : Memᴰ route (flows_at w source)
    pub ends : route.terminal ≡ true

  pub record IsSound (s : Search) : Type 0 where
    pub seen : All Reaches s.visited
    pub waiting : All Reaches s.queue
    pub exit : s.terminal ≡ true → Exit

  -- What a route adds to the search.
  abbrev Adds : FlowRoute → Type 0
  Adds route =
      (route.terminal ≡ true → Exit) × (route.terminal ≡ false → Reaches route.next_step_id)

  follow-IsSound :
      (s : Search) (routes : List FlowRoute)
      → All Adds routes
      → IsSound s
      → IsSound (follow s routes)
  unfolding follow
  follow-IsSound s [] adds h = h
  follow-IsSound s (route ∷ routes) adds h = elim (Bool-cases route.terminal) [
    | inl t ↦ rw t (
        follow-IsSound (record s { terminal = true }) routes adds.1
          (record { seen = h.seen; waiting = h.waiting; exit = λ e. adds.0.0 t }))
    | inr f ↦ rw f (
        follow-IsSound (record s { queue = s.queue ++ route.next_step_id ∷ [] }) routes adds.1
          (record {
            seen = h.seen;
            waiting = All-append Reaches s.queue _ h.waiting (adds.0.1 f, tt);
            exit = h.exit;
          }))
  ]

  Adds-flows_at : (id : String) → Reaches id → All Adds (flows_at w id)
  Adds-flows_at id r = All-of_mem Adds (flows_at w id) λ route m. (
    (λ t. record { source = id; route = route; reached = r; listed = m; ends = t }),
    (λ f. flow id route r m f refl),
  )

  pub explore-IsSound :
      (fuel : ℕ) (s : Search) (todo : List String) (t : Search)
      → s.queue ≡ todo
      → IsSound s
      → explore fuel w s ≡ some t
      → IsSound t
  unfolding explore
  explore-IsSound zero s [] t e h r = subst IsSound (ground arith) h
  explore-IsSound zero s (id ∷ queue) t e h r = absurd (ground arith)
  explore-IsSound (suc fuel) s [] t e h r = subst IsSound (ground arith) h
  explore-IsSound (suc fuel) s (id ∷ queue) t e h r =
      let waiting : All Reaches (id ∷ queue) = rw e at h.waiting in
      let next : Search = record s { visited = id ∷ s.visited; queue = queue } in
      elim (Bool-cases (contains id s.visited)) [
        | inl old ↦
            explore-IsSound fuel (record s { queue = queue }) queue t refl
              (record { seen = h.seen; waiting = waiting.1; exit = h.exit }) (rw (e, old) at r)
        | inr fresh ↦
            explore-IsSound fuel (follow next (flows_at w id)) (follow next (flows_at w id)).queue t
              refl
              (follow-IsSound next (flows_at w id) (Adds-flows_at id waiting.0)
                (record { seen = (waiting.0, h.seen); waiting = waiting.1; exit = h.exit }))
              (rw (e, fresh) at r)
      ]
