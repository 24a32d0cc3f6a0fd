-- ===== src/Base/Lists.antt =====
-- Lists measured and indexed by native numbers, and the array methods of the source: `some`, `every`,
-- `filter`, `find`.
use Prim.Native.Nat.{ℕ, zero, suc, ◌+◌, ◌≤◌}
use mathlib.Core.Path.{◌≡◌, refl, sym, ap, ◌∙◌, subst}
use mathlib.Core.Logic.{◌↔◌, inl, inr}
use mathlib.Core.Bool.{Bool, true, false, ◌&&◌, ◌||◌}
use mathlib.Core.Option.{Option, none, some}
use mathlib.Core.List.{List, [], ◌∷◌, ◌++◌, Memᴰ}
use native.Mathlib.Omega.{arith}
use gateloop.Base.Tests.{if◌then◌else◌, Bool-cases}

module _ {ℓ} {A : Type ℓ} where
  abbrev pub length : List A → ℕ
  length [] = 0
  length (x ∷ xs) = suc (length xs)

  abbrev pub get_elem? : List A → ℕ → Option A
  get_elem? [] i = none
  get_elem? (x ∷ xs) zero = some x
  get_elem? (x ∷ xs) (suc i) = get_elem? xs i

  -- A write out of bounds changes nothing.
  abbrev pub set : List A → ℕ → A → List A
  set [] i v = []
  set (x ∷ xs) zero v = v ∷ xs
  set (x ∷ xs) (suc i) v = x ∷ set xs i v

  abbrev pub take : ℕ → List A → List A
  take zero xs = []
  take (suc n) [] = []
  take (suc n) (x ∷ xs) = x ∷ take n xs

  abbrev pub drop : ℕ → List A → List A
  drop zero xs = xs
  drop (suc n) [] = []
  drop (suc n) (x ∷ xs) = drop n xs

  -- `Array.prototype.some`, `every`, `filter` and `find`.
  abbrev pub any : (A → Bool) → List A → Bool
  any p [] = false
  any p (x ∷ xs) = p x || any p xs

  abbrev pub all : (A → Bool) → List A → Bool
  all p [] = true
  all p (x ∷ xs) = p x && all p xs

  abbrev pub filter : (A → Bool) → List A → List A
  filter p [] = []
  filter p (x ∷ xs) = let rest = filter p xs in if p x then x ∷ rest else rest

  abbrev pub find? : (A → Bool) → List A → Option A
  find? p [] = none
  find? p (x ∷ xs) = let rest = find? p xs in if p x then some x else rest

  abbrev pub sum_of : (A → ℕ) → List A → ℕ
  sum_of f [] = 0
  sum_of f (x ∷ xs) = f x + sum_of f xs

  abbrev pub All {κ} : (A → Type κ) → List A → Type κ
  All P [] = Unit
  All P (x ∷ xs) = P x × All P xs

  -- The relation holds of each element and each later one.
  abbrev pub ArePairwise {κ} : (A → A → Type κ) → List A → Type κ
  ArePairwise R [] = Unit
  ArePairwise R (x ∷ xs) = All (R x) xs × ArePairwise R xs

module _ {ℓ} {A : Type ℓ} where
  pub length-append : (xs ys : List A) → length (xs ++ ys) ≡ length xs + length ys
  length-append [] ys = omega arith
  length-append (x ∷ xs) ys = omega (arith, length-append xs ys)

  pub length-set : (xs : List A) (i : ℕ) (v : A) → length (set xs i v) ≡ length xs
  length-set [] i v = refl
  length-set (x ∷ xs) zero v = refl
  length-set (x ∷ xs) (suc i) v = ap suc (length-set xs i v)

  pub All-append {κ} : (P : A → Type κ) (xs ys : List A) → All P xs → All P ys → All P (xs ++ ys)
  All-append P [] ys hx hy = hy
  All-append P (x ∷ xs) ys hx hy = (hx.0, All-append P xs ys hx.1 hy)

  pub All-mem {κ} : (P : A → Type κ) {a : A} (xs : List A) → All P xs → Memᴰ a xs → P a
  All-mem P [] h m = elim m [ ]
  All-mem P (x ∷ xs) h (Memᴰ.head e) = subst P (sym e) h.0
  All-mem P (x ∷ xs) h (Memᴰ.tail m) = All-mem P xs h.1 m

  pub All-of_mem {κ} : (P : A → Type κ) (xs : List A) → ((a : A) → Memᴰ a xs → P a) → All P xs
  All-of_mem P [] h = tt
  All-of_mem P (x ∷ xs) h = (h x (Memᴰ.head refl), All-of_mem P xs (λ a m. h a (Memᴰ.tail m)))

  pub All-map {κ μ} :
      (P : A → Type κ) (Q : A → Type μ) (xs : List A) → ((a : A) → P a → Q a) → All P xs → All Q xs
  All-map P Q [] f h = tt
  All-map P Q (x ∷ xs) f h = (f x h.0, All-map P Q xs f h.1)

  -- What `filter` keeps is in the list and passes the test; what passes is kept.
  pub mem-filter :
      (p : A → Bool) {a : A} (xs : List A) → Memᴰ a (filter p xs) → Memᴰ a xs × (p a ≡ true)
  mem-filter p [] m = elim m [ ]
  mem-filter p {a} (x ∷ xs) m = split (p x) refl m (mem-filter p xs)
    where
      split :
          (b : Bool)
          → p x ≡ b
          → Memᴰ a (if b then x ∷ filter p xs else filter p xs)
          → (Memᴰ a (filter p xs) → Memᴰ a xs × (p a ≡ true))
          → Memᴰ a (x ∷ xs) × (p a ≡ true)
      split true e (Memᴰ.head q) ih = (Memᴰ.head q, ap p q ∙ e)
      split true e (Memᴰ.tail n) ih = let (i, t) = ih n in (Memᴰ.tail i, t)
      split false e n ih = let (i, t) = ih n in (Memᴰ.tail i, t)

  pub mem-filter_of :
      (p : A → Bool) {a : A} (xs : List A) → Memᴰ a xs → p a ≡ true → Memᴰ a (filter p xs)
  mem-filter_of p [] m h = elim m [ ]
  mem-filter_of p {a} (x ∷ xs) (Memᴰ.head e) h = rw (ap p (sym e) ∙ h) (Memᴰ.head e)
  mem-filter_of p {a} (x ∷ xs) (Memᴰ.tail m) h =
      elim (p x) as (λ b. Memᴰ a (if b then x ∷ filter p xs else filter p xs)) [
        | true ↦ Memᴰ.tail (mem-filter_of p xs m h)
        | false ↦ mem-filter_of p xs m h
      ]

  pub all_iff : (p : A → Bool) (xs : List A) → (all p xs ≡ true) ↔ All (λ a. p a ≡ true) xs
  all_iff p [] = ((λ _. tt), (λ _. refl))
  all_iff p (x ∷ xs) =
      let ih = all_iff p xs in ((λ h. ground (arith, ih.0)), (λ h. ground (arith, ih.1 h.1)))

  -- `find?` returns an element of the list that passes, and `none` where none does.
  pub find?-mem :
      (p : A → Bool) {a : A} (xs : List A) → find? p xs ≡ some a → Memᴰ a xs × (p a ≡ true)
  find?-mem p [] e = cc
  find?-mem p {a} (x ∷ xs) e = split (p x) refl e (find?-mem p xs)
    where
      split :
          (b : Bool)
          → p x ≡ b
          → (if b then some x else find? p xs) ≡ some a
          → (find? p xs ≡ some a → Memᴰ a xs × (p a ≡ true))
          → Memᴰ a (x ∷ xs) × (p a ≡ true)
      split true t h ih = let q : x ≡ a = cc in (Memᴰ.head (sym q), cc)
      split false t h ih = let (i, u) = ih h in (Memᴰ.tail i, u)

  pub find?-none : (p : A → Bool) (xs : List A) → find? p xs ≡ none → All (λ a. p a ≡ false) xs
  find?-none p [] e = tt
  find?-none p (x ∷ xs) e = ground (arith, find?-none p xs)

  pub length-filter : (p : A → Bool) (xs : List A) → length (filter p xs) ≤ length xs
  length-filter p [] = omega arith
  length-filter p (x ∷ xs) = ground (arith, length-filter p xs)

  -- Nothing is filtered out exactly where every element passes.
  pub length-filter_iff :
      (p : A → Bool) (xs : List A) → (length (filter p xs) ≡ length xs) ↔ All (λ a. p a ≡ true) xs
  length-filter_iff p [] = ((λ _. tt), (λ _. refl))
  length-filter_iff p (x ∷ xs) =
      let ih = length-filter_iff p xs in
      let short = length-filter p xs in
      (
        (λ h. let passes : p x ≡ true = ground arith in (passes, ih.0 (ground arith))),
        (λ (passes, h). let all_pass = ih.1 h in ground arith),
      )

  pub any-false_iff : (p : A → Bool) (xs : List A) → (any p xs ≡ false) ↔ All (λ a. p a ≡ false) xs
  any-false_iff p [] = ((λ _. tt), (λ _. refl))
  any-false_iff p (x ∷ xs) =
      let ih = any-false_iff p xs in ((λ h. ground (arith, ih.0)), (λ h. ground (arith, ih.1 h.1)))

  pub any-true_iff :
      (p : A → Bool) (xs : List A) → (any p xs ≡ true) ↔ ((a : A) × Memᴰ a xs × (p a ≡ true))
  any-true_iff p [] = ((λ h. cc), (λ (a, m, h). elim m [ ]))
  any-true_iff p (x ∷ xs) = (forward (any-true_iff p xs).0, backward (any-true_iff p xs).1)
    where
      forward :
          (any p xs ≡ true → (a : A) × Memᴰ a xs × (p a ≡ true))
          → any p (x ∷ xs) ≡ true
          → (a : A) × Memᴰ a (x ∷ xs) × (p a ≡ true)
      forward ih h = elim (Bool-cases (p x)) [
        | inl e ↦ (x, Memᴰ.head refl, e)
        | inr e ↦ let (a, m, q) = ih (ground arith) in (a, Memᴰ.tail m, q)
      ]

      backward :
          ((a : A) × Memᴰ a xs × (p a ≡ true) → any p xs ≡ true)
          → (a : A) × Memᴰ a (x ∷ xs) × (p a ≡ true)
          → any p (x ∷ xs) ≡ true
      backward ih (a, Memᴰ.head e, q) = let here : p x ≡ true = ap p (sym e) ∙ q in ground arith
      backward ih (a, Memᴰ.tail m, q) = let there = ih (a, m, q) in ground arith
