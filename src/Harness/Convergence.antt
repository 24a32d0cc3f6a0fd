-- ===== src/Harness/Convergence.antt =====
-- The convergence of a project over its last iterations (index.ts, lines 236 to 295).
use Prim.Native.String as String
use gateloop.Base.{
  ℕ, zero, suc, ◌+◌, ◌-◌, ◌≤◌, ◌<◌, String, Bool, true, false, ◌&&◌, Option, some, get_or, List, [],
  ◌∷◌, map, ◌≡◌, ◌↔◌, ◌⊎◌, length, get_elem?, drop, ltb, leb, ◌==◌, if◌then◌else◌,
}
use gateloop.Base.Text.{decimal}

pub record IterationMetrics : Type 0 where
  pub iteration : ℕ
  pub delivered : ℕ
  pub rework : ℕ
  pub clobber : ℕ

pub data ConvergenceState : Type 0 where
  converging stalled diverging : ConvergenceState

pub data Signal : Type 0 where
  delivery_rate rework_rate cross_story_clobber insufficient_history : Signal

pub record ConvergenceVerdict : Type 0 where
  pub verdict : ConvergenceState
  pub signal : Signal
  pub reason : String

-- Every value above the one before it.
abbrev pub rising : List ℕ → Bool
rising [] = true
rising (v ∷ []) = true
rising (v ∷ w ∷ vals) = ltb v w && rising (w ∷ vals)

unfoldable pub strictly_rising : List ℕ → Bool
strictly_rising vals = leb 2 (length vals) && rising vals

-- `history.slice(-K)`; `slice(-0)` is the whole array.
abbrev pub last_of : ℕ → List IterationMetrics → List IterationMetrics
last_of zero history = history
last_of (suc k) history = drop (length history - suc k) history

abbrev pub delivered_in : List IterationMetrics → ℕ
delivered_in [] = 0
delivered_in (m ∷ ms) = m.delivered + delivered_in ms

-- `vals.join('→')`.
abbrev joined : List ℕ → String
joined [] = ""
joined (v ∷ []) = decimal v
joined (v ∷ w ∷ vals) = String.◌++◌ (String.◌++◌ (decimal v) "→") (joined (w ∷ vals))

abbrev phrase : String → String → String → ℕ → String → String
phrase before shown between k after =
    String.◌++◌ before (String.◌++◌ shown (String.◌++◌ between (String.◌++◌ (decimal k) after)))

abbrev pub assess_recent : ℕ → List IterationMetrics → ConvergenceVerdict
assess_recent k recent =
    let clobber = map (λ (m : IterationMetrics). m.clobber) recent in
    let rework = map (λ (m : IterationMetrics). m.rework) recent in
    let delivered = delivered_in recent in
    if strictly_rising clobber
    then record {
      verdict = diverging;
      signal = cross_story_clobber;
      reason = phrase "cross-story clobber rising " (joined clobber) " over " k " iterations";
    }
    else if strictly_rising rework
    then record {
      verdict = diverging;
      signal = rework_rate;
      reason = phrase "rework rising " (joined rework) " over " k " iterations";
    }
    else if delivered == 0
    then record {
      verdict = stalled;
      signal = delivery_rate;
      reason = phrase "0 stories delivered over " "" "" k " iterations";
    }
    else record {
      verdict = converging;
      signal = delivery_rate;
      reason =
          phrase "" (decimal delivered) " delivered over last " k "; rework/clobber not rising";
    }

-- `window` is `opts.window`.
unfoldable pub assess_convergence : List IterationMetrics → Option ℕ → ConvergenceVerdict
assess_convergence history window =
    let k = get_or window 3 in
    if ltb (length history) k
    then record {
      verdict = converging;
      signal = insufficient_history;
      reason = phrase "only " (decimal (length history)) " iteration(s) (<" k ") — keep going";
    }
    else assess_recent k (last_of k history)

-- At least two values, and each above the one before it.
abbrev pub Rises : List ℕ → Type 0
Rises vals =
    (2 ≤ length vals)
    × ((i v w : ℕ) → get_elem? vals i ≡ some v → get_elem? vals (suc i) ≡ some w → v < w)

abbrev classify : Bool → Bool → Bool → Bool → ConvergenceState
classify true c r d = converging
classify false true r d = diverging
classify false false true d = diverging
classify false false false true = stalled
classify false false false false = converging

-- What the verdict on a history and a window is, by the last iterations of the window.
pub record Assessed (history : List IterationMetrics) (k : ℕ) (v : ConvergenceState) : Type 0 where
  pub stops_diverging : (v ≡ diverging) ↔ (
      (k ≤ length history)
      × (Rises (map (λ (m : IterationMetrics). m.clobber) (last_of k history))
          ⊎ Rises (map (λ (m : IterationMetrics). m.rework) (last_of k history))))
  pub stops_stalled : (v ≡ stalled) ↔ (
      (k ≤ length history)
      × (¬ Rises (map (λ (m : IterationMetrics). m.clobber) (last_of k history)))
      × (¬ Rises (map (λ (m : IterationMetrics). m.rework) (last_of k history)))
      × (delivered_in (last_of k history) ≡ 0))
