-- ===== src/Base/Tally.antt =====
-- How many elements of a list satisfy a predicate, without a test.
use Prim.Native.Nat.{ℕ, zero, suc}
use mathlib.Core.Path.{◌≡◌, refl}
use mathlib.Core.Logic.{◌↔◌, inl, inr}
use mathlib.Core.Bool.{Bool, true}
use mathlib.Core.List.{List, [], ◌∷◌}
use native.Mathlib.Omega.{arith}
use gateloop.Base.Tests.{Bool-cases}
use gateloop.Base.Lists.{filter, length}

pub data Tally {A : Type 0} (P : A → Type 0) : List A → ℕ → Type 0 where
  nobody : Tally P [] zero
  counted : {x : A} {xs : List A} {n : ℕ} → P x → Tally P xs n → Tally P (x ∷ xs) (suc n)
  omitted : {x : A} {xs : List A} {n : ℕ} → ¬ P x → Tally P xs n → Tally P (x ∷ xs) n

module _ {A : Type 0} (P : A → Type 0) (p : A → Bool) (decides : (a : A) → (p a ≡ true) ↔ P a) where
  -- A filter by a test that decides the predicate keeps as many.
  pub filter-Tally : (xs : List A) → Tally P xs (length (filter p xs))
  filter-Tally [] = nobody
  filter-Tally (x ∷ xs) =
      let ih = filter-Tally xs in
      elim (Bool-cases (p x)) [
        | inl b ↦ rw b (counted ((decides x).0 b) ih)
        | inr b ↦ rw b (omitted (λ h. let t = (decides x).1 h in cc) ih)
      ]

  pub Tally-filter : {xs : List A} {n : ℕ} → Tally P xs n → length (filter p xs) ≡ n
  Tally-filter nobody = refl
  Tally-filter (counted {x} h t) =
      let ih = Tally-filter t in let b = (decides x).1 h in ground arith
  Tally-filter (omitted {x} n t) =
      let ih = Tally-filter t in
      elim (Bool-cases (p x)) [ inl b ↦ absurd (n ((decides x).0 b)) | inr b ↦ ground arith ]
