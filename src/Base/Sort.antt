-- ===== src/Base/Sort.antt =====
-- `Array.prototype.sort` with a comparison: a stable sort, modelled as insertion from the right.
use Prim.Native.Nat.{ℕ, zero, suc, ◌+◌, Ordering}
use native.Mathlib.Omega.{arith}
use mathlib.Core.Path.{◌≡◌, refl, sym, subst, ap, ◌∙◌}
use mathlib.Core.Logic.{◌≢◌, ◌⊎◌, inl, inr}
use mathlib.Core.List.{List, [], ◌∷◌, Perm, Memᴰ}
use mathlib.Core.List.Perm
use gateloop.Base.Lists.{All, All-map, All-of_mem, All-mem, sum_of, length, take}

-- A total preorder, given by a three-way comparison.
pub record IsCollation {ℓ} {A : Type ℓ} (cmp : A → A → Ordering) : Type ℓ where
  pub total : (a b : A) → cmp a b ≡ Ordering.gt → cmp b a ≢ Ordering.gt
  pub trans : (a b c : A) → cmp a b ≢ Ordering.gt → cmp b c ≢ Ordering.gt → cmp a c ≢ Ordering.gt

-- `x || y` on the results of two comparisons.
abbrev pub or_then : Ordering → Ordering → Ordering
or_then Ordering.eq y = y
or_then x y = x

module _ {ℓ} {A : Type ℓ} (cmp : A → A → Ordering) where
  insert_by : A → List A → List A
  insert_by x [] = x ∷ []
  insert_by x (y ∷ ys) =
      let rest = y ∷ insert_by x ys in elim (cmp x y) [ Ordering.gt ↦ rest | _ ↦ x ∷ y ∷ ys ]

  unfoldable pub sort : List A → List A
  unfolding insert_by
  sort [] = []
  sort (x ∷ xs) = insert_by x (sort xs)

  -- Each element compares not above every later one.
  abbrev pub IsSorted : List A → Type ℓ
  IsSorted [] = Unit
  IsSorted (x ∷ xs) = All (λ y. cmp x y ≢ Ordering.gt) xs × IsSorted xs

  insert_by-perm : (x : A) (ys : List A) → Perm (insert_by x ys) (x ∷ ys)
  unfolding insert_by
  insert_by-perm x [] = Perm.rfl
  insert_by-perm x (y ∷ ys) =
      elim (cmp x y)
        as (λ o. Perm (elim o [ Ordering.gt ↦ y ∷ insert_by x ys | _ ↦ x ∷ y ∷ ys ]) (x ∷ y ∷ ys)) [
          | Ordering.gt ↦ Perm.trans (Perm.cons y (insert_by-perm x ys)) (Perm.swap x y ys)
          | _ ↦ Perm.rfl
        ]

  pub sort-perm : (xs : List A) → Perm (sort xs) xs
  unfolding sort
  sort-perm [] = Perm.rfl
  sort-perm (x ∷ xs) = Perm.trans (insert_by-perm x (sort xs)) (Perm.cons x (sort-perm xs))

  sum_of-insert_by :
      (f : A → ℕ) (x : A) (ys : List A) → sum_of f (insert_by x ys) ≡ f x + sum_of f ys
  unfolding insert_by
  sum_of-insert_by f x [] = refl
  sum_of-insert_by f x (y ∷ ys) =
      elim (cmp x y)
        as (λ o.
          sum_of f (elim o [ Ordering.gt ↦ y ∷ insert_by x ys | _ ↦ x ∷ y ∷ ys ])
          ≡ f x + (f y + sum_of f ys)) [
            | Ordering.gt ↦ omega (arith, sum_of-insert_by f x ys)
            | _ ↦ refl
          ]

  pub sum_of-sort : (f : A → ℕ) (xs : List A) → sum_of f (sort xs) ≡ sum_of f xs
  unfolding sort
  sum_of-sort f [] = refl
  sum_of-sort f (x ∷ xs) = sum_of-insert_by f x (sort xs) ∙ ap (λ n. f x + n) (sum_of-sort f xs)

  ones_length : (xs : List A) → sum_of (λ _. 1) xs ≡ length xs
  ones_length [] = refl
  ones_length (x ∷ xs) = omega (arith, ones_length xs)

  pub length-sort : (xs : List A) → length (sort xs) ≡ length xs
  length-sort xs = sym (ones_length (sort xs)) ∙ sum_of-sort (λ _. 1) xs ∙ ones_length xs

  module _ {κ} (P : A → Type κ) where
    All-insert_by : (x : A) (ys : List A) → P x → All P ys → All P (insert_by x ys)
    unfolding insert_by
    All-insert_by x [] p h = (p, tt)
    All-insert_by x (y ∷ ys) p h =
        elim (cmp x y)
          as (λ o. All P (elim o [ Ordering.gt ↦ y ∷ insert_by x ys | _ ↦ x ∷ y ∷ ys ])) [
            | Ordering.gt ↦ (h.0, All-insert_by x ys p h.1)
            | _ ↦ (p, h)
          ]

    All-of_insert_by : (x : A) (ys : List A) → All P (insert_by x ys) → P x × All P ys
    unfolding insert_by
    All-of_insert_by x [] h = h
    All-of_insert_by x (y ∷ ys) h = split (cmp x y) h (All-of_insert_by x ys)
      where
        split :
            (o : Ordering)
            → All P (elim o [ Ordering.gt ↦ y ∷ insert_by x ys | _ ↦ x ∷ y ∷ ys ])
            → (All P (insert_by x ys) → P x × All P ys)
            → P x × All P (y ∷ ys)
        split Ordering.gt k ih = let (p, r) = ih k.1 in (p, (k.0, r))
        split _ k ih = k

    pub All-sort : (xs : List A) → All P xs → All P (sort xs)
    unfolding sort
    All-sort [] h = tt
    All-sort (x ∷ xs) h = All-insert_by x (sort xs) h.0 (All-sort xs h.1)

    pub All-of_sort : (xs : List A) → All P (sort xs) → All P xs
    unfolding sort
    All-of_sort [] h = tt
    All-of_sort (x ∷ xs) h = let (p, r) = All-of_insert_by x (sort xs) h in (p, All-of_sort xs r)

  pub mem-sort : {a : A} (xs : List A) → Memᴰ a (sort xs) → Memᴰ a xs
  mem-sort {a} xs m =
      All-mem (λ y. Memᴰ y xs) (sort xs)
        (All-sort (λ y. Memᴰ y xs) xs (All-of_mem (λ y. Memᴰ y xs) xs (λ b k. k))) m

  module _ (order : IsCollation cmp) where
    insert_by-IsSorted : (x : A) (ys : List A) → IsSorted ys → IsSorted (insert_by x ys)
    unfolding insert_by
    insert_by-IsSorted x [] h = (tt, tt)
    insert_by-IsSorted x (y ∷ ys) h = split (cmp x y) refl (insert_by-IsSorted x ys h.1)
      where
        split :
            (o : Ordering)
            → cmp x y ≡ o
            → IsSorted (insert_by x ys)
            → IsSorted (elim o [ Ordering.gt ↦ y ∷ insert_by x ys | _ ↦ x ∷ y ∷ ys ])
        split Ordering.gt e ih =
            (All-insert_by (λ z. cmp y z ≢ Ordering.gt) x ys (order.total x y e) h.0, ih)
        split Ordering.lt e ih =
            let le : cmp x y ≢ Ordering.gt = λ g. cc in
            (
              (
                le,
                All-map (λ z. cmp y z ≢ Ordering.gt) (λ z. cmp x z ≢ Ordering.gt) ys
                    (λ z. order.trans x y z le) h.0,
              ),
              h,
            )
        split Ordering.eq e ih =
            let le : cmp x y ≢ Ordering.gt = λ g. cc in
            (
              (
                le,
                All-map (λ z. cmp y z ≢ Ordering.gt) (λ z. cmp x z ≢ Ordering.gt) ys
                    (λ z. order.trans x y z le) h.0,
              ),
              h,
            )

    pub sort-IsSorted : (xs : List A) → IsSorted (sort xs)
    unfolding sort
    sort-IsSorted [] = tt
    sort-IsSorted (x ∷ xs) = insert_by-IsSorted x (sort xs) (sort-IsSorted xs)

    -- The head of the sorted list is a least element of the list.
    pub sort_head_least :
        (xs : List A) {y : A} {ys : List A} → sort xs ≡ y ∷ ys → All (λ z. cmp y z ≢ Ordering.gt) xs
    sort_head_least xs {y} {ys} e =
        let P : A → Type 0 = λ z. cmp y z ≢ Ordering.gt in
        let sorted : IsSorted (y ∷ ys) = subst IsSorted e (sort-IsSorted xs) in
        All-of_sort P xs (subst (All P) (sym e) ((λ g. order.total y y g g), sorted.0))

  pub mem-sort_of : {a : A} (xs : List A) → Memᴰ a xs → Memᴰ a (sort xs)
  mem-sort_of {a} xs m =
      let P : A → Type ℓ = λ y. Memᴰ y (sort xs) in
      All-mem P xs (All-of_sort P xs (All-of_mem P (sort xs) (λ b k. k))) m

  -- What is beyond the first `k` of a sorted list is before none of them.
  pub take_least :
      (k : ℕ) (xs : List A) {a : A}
      → IsSorted xs
      → Memᴰ a xs
      → Memᴰ a (take k xs) ⊎ All (λ p. cmp p a ≢ Ordering.gt) (take k xs)
  take_least zero xs h m = inr tt
  take_least (suc k) [] h m = elim m [ ]
  take_least (suc k) (x ∷ xs) h (Memᴰ.head e) = inl (Memᴰ.head e)
  take_least (suc k) (x ∷ xs) {a} h (Memᴰ.tail m) = elim (take_least k xs h.1 m) [
    | inl n ↦ inl (Memᴰ.tail n)
    | inr n ↦ inr (All-mem (λ y. cmp x y ≢ Ordering.gt) xs h.0 m, n)
  ]

  pub sort_eq_nil : (xs : List A) → sort xs ≡ [] → xs ≡ []
  sort_eq_nil [] e = refl
  sort_eq_nil (x ∷ xs) e =
      absurd (All-of_sort (λ _. ⊥) (x ∷ xs) (subst (All (λ _. ⊥)) (sym e) tt)).0
