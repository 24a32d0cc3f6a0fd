-- ===== src/Scheduling/Neighbors.antt =====
-- The neighbours of a story in the overlapping pairs, and membership in the lists of ids.
use gateloop.Base.{
  String, true, false, List, [], ◌∷◌, ◌++◌, ◌≡◌, ◌⊎◌, sym, ap, subst, inl, inr, str_eq, eq_iff,
  eq_refl, Bool-cases, if◌then◌else◌, any-false_iff, any-true_iff, Memᴰ, All-mem,
}
use gateloop.Base.Ids.{has}
use gateloop.Scheduling.SpawnPlan.{partner, partners}

-- The pair is one of the overlapping ones, in one order or the other.
abbrev pub Overlap : List (String × String) → String → String → Type 0
Overlap pairs x y = Memᴰ (x, y) pairs ⊎ Memᴰ (y, x) pairs

pub mem_append : {x : String} (xs ys : List String) → Memᴰ x (xs ++ ys) → Memᴰ x xs ⊎ Memᴰ x ys
mem_append [] ys m = inr m
mem_append (a ∷ xs) ys (Memᴰ.head e) = inl (Memᴰ.head e)
mem_append (a ∷ xs) ys (Memᴰ.tail m) = elim (mem_append xs ys m) [
  | inl n ↦ inl (Memᴰ.tail n)
  | inr n ↦ inr n
]

pub mem_left : {x : String} (xs ys : List String) → Memᴰ x xs → Memᴰ x (xs ++ ys)
mem_left [] ys m = elim m [ ]
mem_left (a ∷ xs) ys (Memᴰ.head e) = Memᴰ.head e
mem_left (a ∷ xs) ys (Memᴰ.tail m) = Memᴰ.tail (mem_left xs ys m)

pub mem_right : {x : String} (xs ys : List String) → Memᴰ x ys → Memᴰ x (xs ++ ys)
mem_right [] ys m = m
mem_right (a ∷ xs) ys m = Memᴰ.tail (mem_right xs ys m)

pub has-mem : (xs : List String) (x : String) → has xs x ≡ true → Memᴰ x xs
has-mem xs x h =
    let (a, m, e) = (any-true_iff (λ y. str_eq y x) xs).0 h in
    subst (λ y. Memᴰ y xs) ((eq_iff a x).0 e) m

pub has-not_mem : (xs : List String) (x : String) → has xs x ≡ false → Memᴰ x xs → ⊥
has-not_mem xs x h m =
    let differs : str_eq x x ≡ false =
      All-mem (λ y. str_eq y x ≡ false) xs ((any-false_iff (λ y. str_eq y x) xs).0 h) m in
    let same = eq_refl x in cc

partner-Overlap :
    (a b x y : String) → Memᴰ y (partner (a, b) x) → ((a ≡ x) × (b ≡ y)) ⊎ ((b ≡ x) × (a ≡ y))
partner-Overlap a b x y m =
    elim (mem_append (if str_eq a x then b ∷ [] else []) (if str_eq b x then a ∷ [] else []) m) [
      | inl n ↦ elim (Bool-cases (str_eq a x)) [
        | inl e ↦ inl ((eq_iff a x).0 e, only b y (rw e at n))
        | inr e ↦ absurd (no_mem (rw e at n))
      ]
      | inr n ↦ elim (Bool-cases (str_eq b x)) [
        | inl e ↦ inr ((eq_iff b x).0 e, only a y (rw e at n))
        | inr e ↦ absurd (no_mem (rw e at n))
      ]
    ]
  where
    no_mem : {z : String} → Memᴰ z [] → ⊥
    no_mem m = elim m [ ]

    only : (c z : String) → Memᴰ z (c ∷ []) → c ≡ z
    only c z (Memᴰ.head e) = sym e
    only c z (Memᴰ.tail m) = elim m [ ]

pair : {a b c d : String} → a ≡ c → b ≡ d → ◌≡◌ {A = String × String} (a, b) (c, d)
pair p q = cc

first_end : (a b x y : String) → x ≡ a → y ≡ b → Memᴰ y (partner (a, b) x)
first_end a b x y p q =
    let same : str_eq a x ≡ true = (eq_iff a x).1 (sym p) in rw same (Memᴰ.head q)

second_end : (a b x y : String) → x ≡ b → y ≡ a → Memᴰ y (partner (a, b) x)
second_end a b x y p q =
    let same : str_eq b x ≡ true = (eq_iff b x).1 (sym p) in
    mem_right (if str_eq a x then b ∷ [] else []) (if str_eq b x then a ∷ [] else [])
      (rw same (Memᴰ.head q))

-- The neighbours of a node are the other ends of its pairs.
pub neighbors-Overlap :
    (pairs : List (String × String)) (x y : String) → Memᴰ y (partners pairs x) → Overlap pairs x y
neighbors-Overlap [] x y m = elim m [ ]
neighbors-Overlap ((a, b) ∷ ps) x y m = elim (mem_append (partner (a, b) x) (partners ps x) m) [
  | inl n ↦ elim (partner-Overlap a b x y n) [
    | inl (p, q) ↦ inl (Memᴰ.head (pair (sym p) (sym q)))
    | inr (p, q) ↦ inr (Memᴰ.head (pair (sym q) (sym p)))
  ]
  | inr n ↦ elim (neighbors-Overlap ps x y n) [
    | inl k ↦ inl (Memᴰ.tail k)
    | inr k ↦ inr (Memᴰ.tail k)
  ]
]

pub Overlap-neighbors :
    (pairs : List (String × String)) (x y : String) → Overlap pairs x y → Memᴰ y (partners pairs x)
Overlap-neighbors [] x y (inl m) = elim m [ ]
Overlap-neighbors [] x y (inr m) = elim m [ ]
Overlap-neighbors ((a, b) ∷ ps) x y (inl (Memᴰ.head e)) =
    mem_left (partner (a, b) x) (partners ps x) (
      first_end a b x y (ap (λ (p : String × String). p.0) e) (ap (λ (p : String × String). p.1) e))
Overlap-neighbors ((a, b) ∷ ps) x y (inl (Memᴰ.tail m)) =
    mem_right (partner (a, b) x) (partners ps x) (Overlap-neighbors ps x y (inl m))
Overlap-neighbors ((a, b) ∷ ps) x y (inr (Memᴰ.head e)) =
    mem_left (partner (a, b) x) (partners ps x) (
      second_end a b x y (ap (λ (p : String × String). p.1) e)
        (ap (λ (p : String × String). p.0) e))
Overlap-neighbors ((a, b) ∷ ps) x y (inr (Memᴰ.tail m)) =
    mem_right (partner (a, b) x) (partners ps x) (Overlap-neighbors ps x y (inr m))
