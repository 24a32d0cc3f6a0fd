-- ===== src/GateControl/Closing.antt =====
-- What is known of the gate after a gated run.
use mathlib.Core.Option.{some-injective}
use gateloop.Base.{
  ℕ, String, Bool, true, false, not, ◌&&◌, Option, none, some, get_or, ◌≡◌, refl, sym, ap, ◌∙◌, ◌⊎◌,
  inl, inr, arith, Bool-cases, subst,
}
use gateloop.GateControl.State.{
  GateState, Policy, GateIo, GateError, GateWriteResult, write_failed, GateReason, open_failed,
  is_gated_allowed, is_set, write_refused, read_back, after_write, set_in, read_gate,
  set_gate_enabled,
}
use gateloop.GateControl.Limits.{BudgetLedger}
use gateloop.GateControl.Run.{
  GatedRunResult, Outcome, returned, critical, read_threw, refused_run, budget_decision,
  after_close, run_and_close, after_open, with_gate, run_gated,
}

-- What forbids a gated run: the kill switch, a CI environment under the override, or the budget.
abbrev pub Blocked : Option BudgetLedger → ℕ → Option String → GateState → Type 0
Blocked budget estimate ci s =
    ((budget_decision budget estimate).allowed ≡ false)
    ⊎ ((s.kill_switch ≡ true) ⊎ (s.ci_override && is_set ci ≡ true))

module _ {World : Type 0} (policy : Policy) (io : GateIo World) where
  -- The policy can be read in this world, and the gate stands so.
  abbrev pub ReadsEnabled : Bool → World → Type 0
  ReadsEnabled b w = (s : GateState) × (read_gate policy io w ≡ some s) × (s.enabled ≡ b)

  -- The write of this value threw in the world.
  abbrev pub WriteThrew : Bool → World → Type 0
  WriteThrew b w =
      (src : String) × (io.read w ≡ some src)
      × ((io.write (policy.replace_enabled src b) w).0 ≡ false)

  read_back_lem :
      (b : Bool) (w : World) (o : Option GateState) (r : GateWriteResult)
      → read_gate policy io w ≡ o
      → read_back policy io b o ≡ some r
      → ReadsEnabled r.actual w × (r.verified ≡ true → r.actual ≡ b)
  read_back_lem b w none r e h = cc
  read_back_lem b w (some s) r e h = ((s, e, (ground arith)), (λ v. ground arith))

  -- The gate was written and read back, or not set, unless a write threw half way.
  abbrev SetTells : Bool → World → World → GateWriteResult → Type 0
  SetTells b w w' r =
      (ReadsEnabled r.actual w' × (r.verified ≡ true → r.actual ≡ b))
      ⊎ ((r.verified ≡ false) × (r.actual ≡ false) × ((w' ≡ w) ⊎ WriteThrew b w))

  written_tells :
      (b : Bool) (w w' : World) (r : GateWriteResult) (src : String) (p : Bool × World)
      → io.read w ≡ some src
      → io.write (policy.replace_enabled src b) w ≡ p
      → after_write policy io b p ≡ (some r, w')
      → SetTells b w w' r
  written_tells b w w' r src (false, w1) e q h =
      let same : some (write_refused write_failed) ≡ some r =
        ap (λ (x : Option GateWriteResult × World). x.0) h in
      let threw : (io.write (policy.replace_enabled src b) w).0 ≡ false =
        ap (λ (x : Bool × World). x.0) q in
      let result : write_refused write_failed ≡ r = some-injective _ r same in
      inr (
        sym (ap (λ (x : GateWriteResult). x.verified) result),
        sym (ap (λ (x : GateWriteResult). x.actual) result),
        inr (src, e, threw),
      )
  written_tells b w w' r src (true, w1) e q h =
      let back : read_back policy io b (read_gate policy io w1) ≡ some r =
        ap (λ (x : Option GateWriteResult × World). x.0) h in
      let world : w1 ≡ w' = ap (λ (x : Option GateWriteResult × World). x.1) h in
      let (reads, agrees) = read_back_lem b w1 (read_gate policy io w1) r refl back in
      inl (subst (ReadsEnabled r.actual) world reads, agrees)

  refused_tells :
      (b : Bool) (w w' : World) (r : GateWriteResult) (e : GateError)
      → ◌≡◌ {A = Option GateWriteResult × World} (some (write_refused e), w) (some r, w')
      → SetTells b w w' r
  refused_tells b w w' r e h =
      let same : some (write_refused e) ≡ some r =
        ap (λ (x : Option GateWriteResult × World). x.0) h in
      let result : write_refused e ≡ r = some-injective _ r same in
      inr (
        sym (ap (λ (x : GateWriteResult). x.verified) result),
        sym (ap (λ (x : GateWriteResult). x.actual) result),
        inl (sym (ap (λ (x : Option GateWriteResult × World). x.1) h)),
      )

  set_tells :
      (b : Bool) (w w' : World) (r : GateWriteResult)
      → set_gate_enabled policy io b w ≡ (some r, w')
      → SetTells b w w' r
  unfolding set_gate_enabled
  set_tells b w w' r h = by_read (io.read w) refl h
    where
      by_found :
          (src : String) (found : Option Bool)
          → io.read w ≡ some src
          → ◌≡◌ {A = Option GateWriteResult × World}
              (elim found as (λ k. Option GateWriteResult × World) [
                | none ↦ (some (write_refused GateError.enabled_not_found), w)
                | some old ↦ after_write policy io b (io.write (policy.replace_enabled src b) w)
              ])
              (some r, w')
          → SetTells b w w' r
      by_found src none e k = refused_tells b w w' r GateError.enabled_not_found k
      by_found src (some old) e k =
          written_tells b w w' r src (io.write (policy.replace_enabled src b) w) e refl k

      by_read :
          (o : Option String)
          → io.read w ≡ o
          → set_in policy io b o w ≡ (some r, w')
          → SetTells b w w' r
      by_read none e k = refused_tells b w w' r GateError.read_failed k
      by_read (some src) e k = by_found src (policy.exec_enabled src) e k

module _ {World T : Type 0} (policy : Policy) (io : GateIo World)
    (fn : World → Option T × World) where
  -- What a returned run tells of the gate: after a run it reads as closed; where the result calls it
  -- closed without a run, nothing was written, or it reads as closed, or the opening write threw.
  abbrev pub RunTells : World → World → GatedRunResult T → Type 0
  RunTells w w' r =
      (r.ran ≡ true → ReadsEnabled policy io false w')
      × (r.gate_closed_verified ≡ true
          → (w' ≡ w) ⊎ (ReadsEnabled policy io false w' ⊎ WriteThrew policy io true w))

  returned_injective : {a b : GatedRunResult T} → returned a ≡ returned b → a ≡ b
  returned_injective h = cc

  close_tells :
      (w1 w2 w' : World) (result : Option T) (c : Option GateWriteResult) (r : GatedRunResult T)
      → set_gate_enabled policy io false w1 ≡ (c, w2)
      → after_close policy io fn result (c, w2) ≡ (returned r, w')
      → ReadsEnabled policy io false w'
  close_tells w1 w2 w' result none r e h =
      let bad : read_threw ≡ returned r = ap (λ (x : Outcome T × World). x.0) h in cc
  close_tells w1 w2 w' result (some close) r e h = elim (Bool-cases close.verified) [
    | inr v ↦
        let bad : critical ≡ returned r = ap (λ (x : Outcome T × World). x.0) (rw v at h) in cc
    | inl v ↦
        let world : w2 ≡ w' = ap (λ (x : Outcome T × World). x.1) (rw v at h) in
        elim (set_tells policy io false w1 w2 close e) [
          | inl (reads, agrees) ↦
              subst (ReadsEnabled policy io false) world
                (subst (λ b. ReadsEnabled policy io b w2) (agrees v) reads)
          | inr (not_verified, _, _) ↦ let bad : false ≡ true = sym not_verified ∙ v in cc
        ]
  ]

  run_tells :
      (w w' : World) (r : GatedRunResult T) (p : Option T × World)
      → run_and_close policy io fn p ≡ (returned r, w')
      → RunTells w w' r
  run_tells w w' r (result, w1) h =
      let closed = by_close (set_gate_enabled policy io false w1) refl h in
      ((λ _. closed), (λ _. inr (inl closed)))
    where
      by_close :
          (c : Option GateWriteResult × World)
          → set_gate_enabled policy io false w1 ≡ c
          → after_close policy io fn result c ≡ (returned r, w')
          → ReadsEnabled policy io false w'
      by_close (c, w2) e k = close_tells w1 w2 w' result c r e k

  -- A refusal that leaves the world alone.
  refusal_tells :
      (w w' : World) (reason : GateReason) (r : GatedRunResult T)
      → ◌≡◌ {A = Outcome T × World} (refused_run reason true, w) (returned r, w')
      → RunTells w w' r
  refusal_tells w w' reason r h =
      let outcome : refused_run reason true ≡ returned r = ap (λ (x : Outcome T × World). x.0) h in
      let ran : r.ran ≡ false =
        sym (ap (λ (x : GatedRunResult T). x.ran) (returned_injective outcome)) in
      (
        (λ e. let bad : true ≡ false = sym e ∙ ran in cc),
        (λ _. inl (sym (ap (λ (x : Outcome T × World). x.1) h))),
      )

  closed_off : {b : Bool} → not b ≡ true → b ≡ false
  closed_off h = ground arith

  -- What a result that is not verified leaves, where the gate did not read as open.
  not_opened :
      (w w1 w' : World) (o : GateWriteResult)
      → o.actual ≡ false
      → w1 ≡ w'
      → SetTells policy io true w w1 o
      → (w' ≡ w) ⊎ (ReadsEnabled policy io false w' ⊎ WriteThrew policy io true w)
  not_opened w w1 w' o off world (inl (reads, _)) = inr (
      inl (
        subst (ReadsEnabled policy io false) world
          (subst (λ b. ReadsEnabled policy io b w1) off reads)))
  not_opened w w1 w' o off world (inr (_, _, inl same)) = inl (sym world ∙ same)
  not_opened w w1 w' o off world (inr (_, _, inr threw)) = inr (inr threw)

  open_tells :
      (w w1 w' : World) (o : Option GateWriteResult) (r : GatedRunResult T)
      → set_gate_enabled policy io true w ≡ (o, w1)
      → after_open policy io fn (o, w1) ≡ (returned r, w')
      → RunTells w w' r
  open_tells w w1 w' none r e h =
      let bad : read_threw ≡ returned r = ap (λ (x : Outcome T × World). x.0) h in cc
  open_tells w w1 w' (some o) r e h = elim (Bool-cases o.verified) [
    | inl v ↦ run_tells w w' r (fn w1) (rw v at h)
    | inr v ↦
        let k = rw v at h in
        let outcome : refused_run (open_failed o.error) (not o.actual) ≡ returned r =
          ap (λ (x : Outcome T × World). x.0) k in
        let same = returned_injective outcome in
        let world : w1 ≡ w' = ap (λ (x : Outcome T × World). x.1) k in
        let ran : r.ran ≡ false = sym (ap (λ (x : GatedRunResult T). x.ran) same) in
        let closed : r.gate_closed_verified ≡ not o.actual =
          sym (ap (λ (x : GatedRunResult T). x.gate_closed_verified) same) in
        (
          (λ q. let bad : true ≡ false = sym q ∙ ran in cc),
          (λ q.
              not_opened w w1 w' o (closed_off (sym closed ∙ q)) world
                (set_tells policy io true w w1 o e)),
        )
  ]

  gate_tells :
      (ci : Option String) (w w' : World) (o : Option GateState) (r : GatedRunResult T)
      → with_gate policy io fn ci w o ≡ (returned r, w')
      → RunTells w w' r
  gate_tells ci w w' none r h =
      let bad : read_threw ≡ returned r = ap (λ (x : Outcome T × World). x.0) h in cc
  gate_tells ci w w' (some pre) r h =
      let d = is_gated_allowed (record pre { enabled = true }) ci in
      elim (Bool-cases d.allowed) [
        | inl v ↦ by_open (set_gate_enabled policy io true w) refl (rw v at h)
        | inr v ↦ refusal_tells w w' d.reason r (rw v at h)
      ]
    where
      by_open :
          (c : Option GateWriteResult × World)
          → set_gate_enabled policy io true w ≡ c
          → after_open policy io fn c ≡ (returned r, w')
          → RunTells w w' r
      by_open (o, w1) e k = open_tells w w1 w' o r e k

  -- Where `runGated` returns a result that says the function ran, the policy reads as closed
  -- afterwards. Where the result says that the gate is closed, the world is the one before the call,
  -- or the policy reads as closed, or the write that was to open the gate threw.
  pub run_gated_closes :
      (budget : Option BudgetLedger) (estimate : Option ℕ) (ci : Option String) (w w' : World)
      (r : GatedRunResult T)
      → run_gated policy io fn budget estimate ci w ≡ (returned r, w')
      → RunTells w w' r
  unfolding run_gated
  run_gated_closes budget estimate ci w w' r h =
      let d = budget_decision budget (get_or estimate 0) in
      elim (Bool-cases d.allowed) [
        | inl v ↦ gate_tells ci w w' (read_gate policy io w) r (rw v at h)
        | inr v ↦ refusal_tells w w' d.reason r (rw v at h)
      ]

  -- Where the policy can be read and the budget, the kill switch or the CI override forbids the run,
  -- `runGated` returns that nothing ran and that the gate is closed, and the world is as before, however
  -- the gate stands and whatever the function would do.
  pub Blocked-untouched :
      (budget : Option BudgetLedger) (estimate : Option ℕ) (ci : Option String) (w : World)
      (s : GateState)
      → read_gate policy io w ≡ some s
      → Blocked budget (get_or estimate 0) ci s
      → (reason : GateReason) × (run_gated policy io fn budget estimate ci w
          ≡ (refused_run reason true, w))
  unfolding run_gated is_gated_allowed
  Blocked-untouched budget estimate ci w s e h =
      let d = budget_decision budget (get_or estimate 0) in
      elim (Bool-cases d.allowed) [
        | inr v ↦ (d.reason, rw v refl)
        | inl v ↦
            let g = is_gated_allowed (record s { enabled = true }) ci in
            let off : g.allowed ≡ false = elim h [
              | inl b ↦ let bad : true ≡ false = sym v ∙ b in cc
              | inr (inl k) ↦ rw k refl
              | inr (inr c) ↦ ground arith
            ] in
            (g.reason, rw (v, e, off) refl)
      ]
