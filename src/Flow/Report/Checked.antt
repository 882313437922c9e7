-- ===== src/Flow/Report/Checked.antt =====
-- internal/flow/runtime.go, validateAndCommit: what its checks of the next State establish.
use fanloop.Base.{◌≡◌, inl, inr, arith, ok, Result-cases}
use fanloop.Workflow.{Workflow}
use fanloop.State.{State}
use fanloop.State.Checks.{Env, validate, validate_against}
use fanloop.Flow.Report.{validate_next}

pub validate_next-eq-ok :
    (env : Env) (w : Workflow) (next : State)
    → validate_next env w next ≡ ok tt
    → (validate env next ≡ ok tt) × (validate_against env.parse w next ≡ ok tt)
unfolding validate_next
validate_next-eq-ok env w next h = elim (Result-cases (validate env next)) [
  | inr (c, failed) ↦ absurd (ground (arith, failed, h))
  | inl (u, valid) ↦ elim (Result-cases (validate_against env.parse w next)) [
    | inr (c, failed) ↦ absurd (ground (arith, valid, failed, h))
    | inl (v, fits) ↦ (valid, fits)
  ]
]
