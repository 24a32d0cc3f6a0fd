-- ===== src/Base/Ids.antt =====
-- A set of the ids of the records that pass a test, and membership in it.
use mathlib.Core.Bool.{Bool, true}
use mathlib.Core.Path.{◌≡◌, refl, sym, ap, ◌∙◌, subst}
use mathlib.Core.Logic.{◌↔◌, inl, inr}
use mathlib.Core.List.{List, [], ◌∷◌, map, Memᴰ}
use Prim.Native.String.{String}
use native.Mathlib.Omega.{arith}
use text.Mathlib.Text.{◌==◌ as str_eq}
use text.Mathlib.TextEquality.{eq_iff}
use gateloop.Base.Tests.{Bool-cases}
use gateloop.Base.Lists.{any, all, filter, All, All-map, all_iff}

-- `has` on a set of texts.
abbrev pub has : List String → String → Bool
has ids id = any (λ x. str_eq x id) ids

module _ {ℓ} {A : Type ℓ} (id : A → String) (p : A → Bool) where
  -- `new Set(xs.filter(p).map(id))`.
  abbrev pub ids_of : List A → List String
  ids_of xs = map id (filter p xs)

  -- A listed record that passes has this id.
  abbrev pub Named : List A → String → Type ℓ
  Named xs name = (a : A) × Memᴰ a xs × (id a ≡ name) × (p a ≡ true)

  has_sound : (xs : List A) (name : String) → has (ids_of xs) name ≡ true → Named xs name
  has_sound [] name h = cc
  has_sound (x ∷ xs) name h = elim (Bool-cases (p x)) [
    | inl d ↦ elim (Bool-cases (str_eq (id x) name)) [
      | inl e ↦ (x, Memᴰ.head refl, (eq_iff (id x) name).0 e, d)
      | inr e ↦ let (u, m, n, k) = has_sound xs name (ground arith) in (u, Memᴰ.tail m, n, k)
    ]
    | inr d ↦ let (u, m, n, k) = has_sound xs name (ground arith) in (u, Memᴰ.tail m, n, k)
  ]

  has_complete : (xs : List A) (a : A) → Memᴰ a xs → p a ≡ true → has (ids_of xs) (id a) ≡ true
  has_complete [] a m h = elim m [ ]
  has_complete (x ∷ xs) a (Memᴰ.head e) h =
      let passes : p x ≡ true = ap p (sym e) ∙ h in
      let named : id x ≡ id a = ap id (sym e) in ground (arith, eq_iff (id x) (id a))
  has_complete (x ∷ xs) a (Memᴰ.tail m) h = ground (arith, has_complete xs a m h)

  pub all-has_iff :
      (xs : List A) (names : List String)
      → (all (has (ids_of xs)) names ≡ true) ↔ All (Named xs) names
  all-has_iff xs names =
      let every = all_iff (has (ids_of xs)) names in
      (
        (λ e. All-map _ _ names (has_sound xs) (every.0 e)),
        (λ e. every.1 (
            All-map _ _ names
              (λ name (a, m, n, h). subst (λ x. has (ids_of xs) x ≡ true) n (has_complete xs a m h))
              e)),
      )
