-- ===== src/Harness/Walk.antt =====
-- Walks along the legal transitions.
use gateloop.Base.{true, ◌≡◌, refl, sym, ◌⊎◌, inl, inr, arith, subst}
use gateloop.Base.Result.{ok}
use gateloop.Harness.State.{
  HarnessState, idea_inbox, planning_bundle, supervisor_contract, developer_patch_proposal,
  developer_preflight, spec_conformance_review, workspace_apply, validation, debug_loop, finished,
  can_transition, PreflightVerdict, submit, self_correct, escalate, verdict_target,
  preflight_verdict_to_state,
}

-- A walk from the idea inbox along legal transitions.
pub data Walk : HarnessState → Type 0 where
  start : Walk idea_inbox
  step : {s : HarnessState} (t : HarnessState) → Walk s → can_transition s t ≡ true → Walk t

-- The walk is at the state at some time.
abbrev pub Visits : HarnessState → {s : HarnessState} → Walk s → Type 0
Visits v start = v ≡ idea_inbox
Visits v (step t w legal) = (v ≡ t) ⊎ Visits v w

now : {s : HarnessState} (w : Walk s) → Visits s w
now start = refl
now (step t w legal) = inl refl

-- What leads to the states after the review.
into_apply :
    (s : HarnessState) → can_transition s workspace_apply ≡ true → s ≡ spec_conformance_review
unfolding can_transition
into_apply s h = ground arith

into_validation : (s : HarnessState) → can_transition s validation ≡ true → s ≡ workspace_apply
unfolding can_transition
into_validation s h = ground arith

into_debug : (s : HarnessState) → can_transition s debug_loop ≡ true → s ≡ validation
unfolding can_transition
into_debug s h = ground arith

-- Applied to the workspace, and what can only follow it.
abbrev pub AfterApply : HarnessState → Type 0
AfterApply s = (s ≡ workspace_apply) ⊎ (s ≡ validation) ⊎ (s ≡ debug_loop)

before-AfterApply :
    (s t : HarnessState)
    → can_transition s t ≡ true
    → AfterApply t
    → (s ≡ spec_conformance_review) ⊎ AfterApply s
before-AfterApply s t legal (inl e) =
    inl (into_apply s (subst (λ x. can_transition s x ≡ true) e legal))
before-AfterApply s t legal (inr (inl e)) =
    inr (inl (into_validation s (subst (λ x. can_transition s x ≡ true) e legal)))
before-AfterApply s t legal (inr (inr e)) =
    inr (inr (inl (into_debug s (subst (λ x. can_transition s x ≡ true) e legal))))

at_after_apply : {s : HarnessState} (w : Walk s) → AfterApply s → Visits spec_conformance_review w
at_after_apply start a = elim a [ inl e ↦ cc | inr (inl e) ↦ cc | inr (inr e) ↦ cc ]
at_after_apply (step {s} t w legal) a = elim (before-AfterApply s t legal a) [
  | inl e ↦ inr (subst (λ v. Visits v w) e (now w))
  | inr b ↦ inr (at_after_apply w b)
]

-- A walk from the idea inbox that is at the workspace apply, the validation or the debug loop at some
-- time was at the conformance review: nothing is applied around the hard gate.
pub applied_after_review :
    {s : HarnessState} (w : Walk s) (v : HarnessState)
    → AfterApply v
    → Visits v w
    → Visits spec_conformance_review w
applied_after_review start v a e = at_after_apply start (subst AfterApply e a)
applied_after_review (step t w legal) v a (inl e) =
    at_after_apply (step t w legal) (subst AfterApply e a)
applied_after_review (step t w legal) v a (inr m) = inr (applied_after_review w v a m)

-- The states before a contract is worked on.
abbrev IsEarly : HarnessState → Type 0
IsEarly s = (s ≡ idea_inbox) ⊎ (s ≡ planning_bundle) ⊎ (s ≡ supervisor_contract)

IsEarly-next :
    (s t : HarnessState)
    → can_transition s t ≡ true
    → IsEarly s
    → IsEarly t ⊎ (t ≡ developer_patch_proposal)
unfolding can_transition
IsEarly-next s t legal (inl e) = ground arith
IsEarly-next s t legal (inr (inl e)) = ground arith
IsEarly-next s t legal (inr (inr e)) = ground arith

proposal_or_IsEarly :
    {s : HarnessState} (w : Walk s) → IsEarly s ⊎ Visits developer_patch_proposal w
proposal_or_IsEarly start = inl (inl refl)
proposal_or_IsEarly (step {s} t w legal) = elim (proposal_or_IsEarly w) [
  | inr v ↦ inr (inr v)
  | inl e ↦ elim (IsEarly-next s t legal e) [ inl f ↦ inl f | inr p ↦ inr (inl (sym p)) ]
]

finished_stays : (t : HarnessState) → can_transition finished t ≡ true → ⊥
unfolding can_transition
finished_stays t h = cc

finished_now : {s : HarnessState} (w : Walk s) → Visits finished w → s ≡ finished
finished_now start e = sym e
finished_now (step t w legal) (inl e) = sym e
finished_now (step {s} t w legal) (inr v) =
    absurd (finished_stays t (subst (λ x. can_transition x t ≡ true) (finished_now w v) legal))

-- A walk that is once done stays done, and it was at a patch proposal before.
pub finished_is_last :
    {s : HarnessState} (w : Walk s)
    → Visits finished w
    → (s ≡ finished) × Visits developer_patch_proposal w
finished_is_last {s} w v = elim (proposal_or_IsEarly w) [
  | inr p ↦ (finished_now w v, p)
  | inl e ↦ absurd (early_not_finished e)
]
  where
    early_not_finished : IsEarly s → ⊥
    early_not_finished (inl e) = let f = finished_now w v in cc
    early_not_finished (inr (inl e)) = let f = finished_now w v in cc
    early_not_finished (inr (inr e)) = let f = finished_now w v in cc

-- A preflight verdict always has a legal next state: the function never throws, and a state it gives
-- is reached by a legal transition from the preflight.
pub preflight_legal :
    (verdict : PreflightVerdict)
    → (preflight_verdict_to_state verdict ≡ ok (verdict_target verdict))
      × (can_transition developer_preflight (verdict_target verdict) ≡ true)
unfolding preflight_verdict_to_state can_transition
preflight_legal submit = (refl, refl)
preflight_legal self_correct = (refl, refl)
preflight_legal escalate = (refl, refl)
