-- ===== src/Base/Comparator.antt =====
-- Comparisons whose two directions agree, and one after the other (`x || y`).
use Prim.Native.Nat.{Ordering}
use mathlib.Core.Path.{◌≡◌}
use mathlib.Core.Logic.{◌≢◌}
use native.Mathlib.Omega.{arith}
use gateloop.Base.Sort.{IsCollation, or_then}

abbrev pub opposite : Ordering → Ordering
opposite Ordering.lt = Ordering.gt
opposite Ordering.eq = Ordering.eq
opposite Ordering.gt = Ordering.lt

pub record IsComparator {ℓ} {A : Type ℓ} (cmp : A → A → Ordering) : Type ℓ where
  pub flip : (a b : A) → cmp b a ≡ opposite (cmp a b)
  pub trans : (a b c : A) → cmp a b ≢ Ordering.gt → cmp b c ≢ Ordering.gt → cmp a c ≢ Ordering.gt

pub comparator-IsCollation {ℓ} :
    {A : Type ℓ} (cmp : A → A → Ordering) → IsComparator cmp → IsCollation cmp
comparator-IsCollation cmp l = record { total = λ a b. ground (arith, l.flip a b); trans = l.trans }

-- By the first comparison, and where it finds none before the other by the second.
pub lexicographic-IsCollation {ℓ} :
    {A : Type ℓ} (f g : A → A → Ordering)
    → IsComparator f
    → IsComparator g
    → IsCollation (λ a b. or_then (f a b) (g a b))
lexicographic-IsCollation f g lf lg = record {
  total = λ a b. ground (arith, lf.flip a b, lg.flip a b);
  trans = λ a b c h k.
      let ab = lf.flip a b in
      let bc = lf.flip b c in
      let ac = lf.flip a c in
      let f1 = lf.trans a b c in
      let f2 = lf.trans c a b in let f3 = lf.trans b c a in let g1 = lg.trans a b c in ground arith;
}
