-- ===== src/State/Consent/Reached.antt =====
-- An approval that a reached state holds was delivered to the run before.
use worktree_merge_consensus.Prelude.{◌≡◌, ◌⊎◌, inl, inr, some, arith, refl, true, String}
use worktree_merge_consensus.Protocol.{ProtocolMessage}
use worktree_merge_consensus.State.Defs.{RunState, RunFacts, Codec, AcceptedResult, RunStatus, new}
use worktree_merge_consensus.State.Planning.{record_plan}
use worktree_merge_consensus.State.Control.{configure_integration, accept_after_revalidation}
use worktree_merge_consensus.State.Workspace.{prepare-keeps}
use worktree_merge_consensus.State.Operations.{
  Operation, configuring, delivering, recording_plan, requesting_integration, accepting, waiting,
  idling, resuming, cancelling, pausing, blocking, marking_incompatible, recording_error, retrying,
  preparing, perform, Reach, start, next,
}
use worktree_merge_consensus.State.Steering.{Steers-keeps, is_steering, perform-Steers}
use worktree_merge_consensus.State.Accepted.{IsBound, accepted-Reach, accepted-plan_approved}
use worktree_merge_consensus.State.Soundness.Reached.{Reach-IsSound}
use worktree_merge_consensus.State.Consent.{
  Takes, IsPlanApproval, IsResultApproval, apply_message-Consents,
}

-- The run took a message that satisfies `P` on its way to the state.
abbrev pub Took :
    (c : Codec) (P : ProtocolMessage → Type 0) (facts : RunFacts) (s : RunState)
    → Reach c facts s
    → Type 0
Took c P facts s start = ⊥
Took c P facts s (next op {s = t} a r) = Takes c P op t ⊎ Took c P facts t r

-- The approvals that `t` holds beyond those of `s` were taken by the operation.
abbrev Obtains : Codec → Operation → RunState → RunState → Type 0
Obtains c op s t =
    ((t.plan_approved ≡ true) → (s.plan_approved ≡ true) ⊎ Takes c IsPlanApproval op s)
    × ((sha : String)
        → t.result_approved_sha ≡ some sha
        → (s.result_approved_sha ≡ some sha) ⊎ Takes c (IsResultApproval sha) op s)

module _ (c : Codec) (s : RunState) where
  Keeps : RunState → Type 0
  Keeps t = (t.plan_approved ≡ s.plan_approved) × (t.result_approved_sha ≡ s.result_approved_sha)

  Keeps-Obtains : (op : Operation) (t : RunState) → Keeps t → Obtains c op s t
  unfolding Keeps
  Keeps-Obtains op t (plan, result) = (λ h. inl (ground arith), λ sha h. inl (ground arith))

  steering-Obtains : (op : Operation) → is_steering op ≡ true → Obtains c op s (perform c op s)
  unfolding Keeps
  steering-Obtains op h = Keeps-Obtains op (perform c op s) (
      Steers-keeps Keeps s (perform c op s) (λ status phase action reason error. (refl, refl))
        (perform-Steers s c op h))

  perform-Obtains : (op : Operation) → Obtains c op s (perform c op s)
  unfolding perform
  perform-Obtains (delivering m) = apply_message-Consents c s m
  perform-Obtains (configuring target commands) =
      unfold configure_integration Keeps in
      Keeps-Obtains (configuring target commands) (configure_integration target commands s).1
        (ground arith)
  perform-Obtains (recording_plan payload) =
      unfold record_plan Keeps in
      Keeps-Obtains (recording_plan payload) (record_plan c payload s).1 (ground arith)
  perform-Obtains accepting =
      unfold accept_after_revalidation Keeps in
      Keeps-Obtains accepting (accept_after_revalidation s).1 (ground arith)
  perform-Obtains requesting_integration = steering-Obtains requesting_integration refl
  perform-Obtains waiting = steering-Obtains waiting refl
  perform-Obtains idling = steering-Obtains idling refl
  perform-Obtains resuming = steering-Obtains resuming refl
  perform-Obtains cancelling = steering-Obtains cancelling refl
  perform-Obtains (pausing reason) = steering-Obtains (pausing reason) refl
  perform-Obtains (blocking reason) = steering-Obtains (blocking reason) refl
  perform-Obtains (marking_incompatible reason) =
      steering-Obtains (marking_incompatible reason) refl
  perform-Obtains (recording_error d) = steering-Obtains (recording_error d) refl
  perform-Obtains (retrying kind) = steering-Obtains (retrying kind) refl
  perform-Obtains (preparing path provided) =
      prepare-keeps (Obtains c (preparing path provided) s) path provided s (inl, λ sha. inl)
        λ w. (inl, λ sha. inl)

module _ (c : Codec) (facts : RunFacts) where
  -- A reached state whose plan is approved took an APPROVED_PLAN of the run.
  pub plan_approved-Reach :
      (s : RunState) (r : Reach c facts s)
      → s.plan_approved ≡ true
      → Took c IsPlanApproval facts s r
  unfolding new
  plan_approved-Reach s start h = absurd (ground arith)
  plan_approved-Reach s (next op {s = t} a r) h = elim ((perform-Obtains c t op).0 h) [
    | inl before ↦ inr (plan_approved-Reach t r before)
    | inr taken ↦ inl taken
  ]

  -- A reached state whose result is approved took an APPROVED_RESULT of the run for that SHA.
  pub result_approved-Reach :
      (s : RunState) (r : Reach c facts s) (sha : String)
      → s.result_approved_sha ≡ some sha
      → Took c (IsResultApproval sha) facts s r
  unfolding new
  result_approved-Reach s start sha h = absurd (ground arith)
  result_approved-Reach s (next op {s = t} a r) sha h = elim ((perform-Obtains c t op).1 sha h) [
    | inl before ↦ inr (result_approved-Reach t r sha before)
    | inr taken ↦ inl taken
  ]

  -- A reached run that is accepted has a result that names its sources, its branch and its SHA, the
  -- one approved, holds evidence that each frozen command ran once and exited with 0, and says that
  -- nothing was published; and the run took an APPROVED_PLAN and an APPROVED_RESULT for that SHA.
  pub accepted-Consensus :
      (s : RunState) (reached : Reach c facts s)
      → s.status ≡ RunStatus.accepted
      → (r : AcceptedResult) × (s.accepted_result ≡ some r)
        × IsBound s r
        × Took c IsPlanApproval facts s reached
        × Took c (IsResultApproval r.integration_sha) facts s reached
  accepted-Consensus s reached h =
      let (r, recorded, bound, _, _) = accepted-Reach c facts s reached h in
      (
        r,
        recorded,
        bound,
        plan_approved-Reach s reached (accepted-plan_approved s (Reach-IsSound c reached) h),
        result_approved-Reach s reached r.integration_sha bound.approved,
      )
