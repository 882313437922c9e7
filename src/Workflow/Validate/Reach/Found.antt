-- ===== src/Workflow/Validate/Reach/Found.antt =====
-- validateFlowReachability of internal/workflow/validate.go: what its search has found.
use fanloop.Base.{
  ◌≡◌, refl, true, false, Option, none, some, List, [], ◌∷◌, String, arith, ok, length, All,
}
use fanloop.Workflow.{Workflow, first_step_id, ordered_step_ids}
use fanloop.Workflow.Validate.{Search, explore_fuel, judge_reach, validate_flow_reachability}
use fanloop.Workflow.Validate.Reach.{Reaches, start, Exit, explore-IsSound}
use fanloop.Workflow.Validate.Reach.Distinct.{IsDistinct, explore-IsDistinct}

-- What validateFlowReachability establishes: as many distinct visited steps as the bundle lists, each
-- of them reachable from the first, and a terminal route at one of them.
pub record IsConnected (w : Workflow) (first : String) : Type 0 where
  pub visited : List String
  pub distinct : IsDistinct visited
  pub counted : length visited ≡ length (ordered_step_ids w)
  pub reached : All (Reaches w first) visited
  pub exit : Exit w first

judge_reach-eq-ok :
    (w : Workflow) (o : Option Search)
    → judge_reach w o ≡ ok tt
    → (s : Search) × (o ≡ some s)
      × (s.terminal ≡ true)
      × (length s.visited ≡ length (ordered_step_ids w))
unfolding judge_reach
judge_reach-eq-ok w none h = absurd (cc h)
judge_reach-eq-ok w (some s) h = (s, refl, ground arith, ground arith)

pub validate_flow_reachability-IsConnected :
    (w : Workflow) (first : String)
    → first_step_id w ≡ some first
    → validate_flow_reachability w ≡ ok tt
    → IsConnected w first
unfolding validate_flow_reachability IsDistinct
validate_flow_reachability-IsConnected w first e h =
    let begin : Search = record { visited = []; queue = first ∷ []; terminal = false } in
    let (s, found, ends, counted) =
      judge_reach-eq-ok w _ (rw (e, validate_flow_reachability) at h) in
    let sound =
      explore-IsSound w first (explore_fuel w) begin (first ∷ []) s refl
        (record { seen = tt; waiting = (start refl, tt); exit = λ f. absurd (cc f) }) found in
    record {
      visited = s.visited;
      distinct = explore-IsDistinct w (explore_fuel w) begin (first ∷ []) s refl tt found;
      counted = counted;
      reached = sound.seen;
      exit = sound.exit ends;
    }
