-- ===== src/State/Results/Outputs.antt =====
-- internal/state/model.go: what ApplyFlowResult does to the registered Outputs.
use fanloop.Base.{
  ◌≡◌, refl, ap, ◌∙◌, false, none, List, [], ◌∷◌, String, arith, eq_iff, if◌then◌else◌, ok,
  contains, Dict, lookup, insert, delete, keys, lookup-insert, lookup-delete,
}
use fanloop.Workflow.Output.{UrlParser}
use fanloop.Workflow.{Workflow}
use fanloop.State.{State, StepStatus, RegisteredOutput, FlowResultPayload, entries}
use fanloop.State.Results.{
  delete_all, insert_all, merge_outputs, skip_steps, move_cursor, result_accepted_outputs,
  apply_flow_result,
}

lookup-delete_all :
    (key : String) (ids : List String) (m : Dict RegisteredOutput)
    → lookup key (delete_all ids m) ≡ (if contains key ids then none else lookup key m)
unfolding delete_all contains
lookup-delete_all key [] m = refl
lookup-delete_all key (id ∷ ids) m =
    ground (arith, lookup-delete_all key ids (delete id m), lookup-delete id key m, eq_iff id key)

lookup-insert_all :
    (key : String) (accepted m : Dict RegisteredOutput)
    → contains key (keys accepted) ≡ false
    → lookup key (insert_all accepted m) ≡ lookup key m
unfolding insert_all contains
lookup-insert_all key [] m h = refl
lookup-insert_all key ((id, output) ∷ accepted) m h = ground (
  arith,
  lookup-insert_all key accepted (insert id output m),
  lookup-insert id key output m,
  eq_iff id key,
)

entries-skip_steps :
    (w : Workflow) (p : FlowResultPayload) (s : State) → entries (skip_steps w p s) ≡ entries s
unfolding skip_steps entries
entries-skip_steps w p s = ground arith

entries-move_cursor :
    (p : FlowResultPayload) (status : StepStatus) (s : State)
    → entries (move_cursor p status s) ≡ entries s
unfolding move_cursor entries
entries-move_cursor p status s = ground arith

-- A Result removes the Outputs that it lists as invalidated, and leaves those alone that it neither
-- lists nor accepts.
pub lookup-apply_flow_result :
    (parse : UrlParser) (w : Workflow) (s : State) (p : FlowResultPayload) (status : StepStatus)
    (accepted : Dict RegisteredOutput) (next : State) (key : String)
    → result_accepted_outputs parse w p ≡ ok accepted
    → apply_flow_result parse w s p status ≡ ok next
    → contains key (keys accepted) ≡ false
    → lookup key (entries next)
      ≡ (if contains key p.output_changes.invalidated then none else lookup key (entries s))
unfolding apply_flow_result merge_outputs entries
lookup-apply_flow_result parse w s p status accepted next key found applied fresh =
    let made : move_cursor p status (skip_steps w p (merge_outputs accepted p s)) ≡ next =
      ground (arith, found, applied) in
    let merged = merge_outputs accepted p s in
    rw⁻¹ made (
      ap (lookup key)
        (entries-move_cursor p status (skip_steps w p merged) ∙ entries-skip_steps w p merged)
      ∙ lookup-insert_all key accepted (delete_all p.output_changes.invalidated (entries s)) fresh
      ∙ lookup-delete_all key p.output_changes.invalidated (entries s))
