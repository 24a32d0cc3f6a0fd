-- ===== src/Harness/Boundary.antt =====
-- The boundary around a story's own acceptance tests (index.ts, lines 477 to 501). A pattern that does
-- not compile throws when it is reached: `none`.
use mathlib.Core.Option
use mathlib.Core.Option.{some-injective}
use gateloop.Base.{
  String, Bool, true, false, Option, none, some, List, [], ◌∷◌, ◌≡◌, refl, ◌≢◌, ◌↔◌, inl, inr,
  arith, All, str_eq, eq_iff, if◌then◌else◌, Bool-cases,
}
use gateloop.Glob.{glob_test}

-- A path is a test path where it is the pattern itself or the pattern's glob matches it.
abbrev pub matches_test_path : String → String → Option Bool
matches_test_path path glob = if str_eq path glob then some true else glob_test glob path

abbrev or_later : Bool → Option Bool → Option Bool
or_later true later = some true
or_later false later = later

unfoldable pub is_test_file : String → List String → Option Bool
is_test_file path [] = some false
is_test_file path (glob ∷ globs) =
    let later = is_test_file path globs in
    elim (matches_test_path path glob) [ none ↦ none | some b ↦ or_later b later ]

-- The violations: the changed files that are test files. The result is ok where there are none.
unfoldable pub acceptance_test_violations : List String → List String → Option (List String)
acceptance_test_violations [] globs = some []
acceptance_test_violations (f ∷ files) globs =
    let rest = acceptance_test_violations files globs in
    elim (is_test_file f globs) [
      | none ↦ none
      | some true ↦ Option.map (λ l. f ∷ l) rest
      | some false ↦ rest
    ]

file_iff :
    (path : String) (globs : List String)
    → (is_test_file path globs ≡ some false)
      ↔ All (λ g. (path ≢ g) × (glob_test g path ≡ some false)) globs
unfolding is_test_file
file_iff path [] = ((λ _. tt), (λ _. refl))
file_iff path (g ∷ globs) = let ih = file_iff path globs in (forward ih.0, backward ih.1)
  where
    split :
        (m : Option Bool)
        → matches_test_path path g ≡ m
        → (elim m [ none ↦ none | some b ↦ or_later b (is_test_file path globs) ]) ≡ some false
        → (m ≡ some false) × (is_test_file path globs ≡ some false)
    split none e h = cc
    split (some true) e h = absurd (clash (some-injective true false h))
      where
        clash : true ≢ false
        clash x = cc
    split (some false) e h = (refl, h)

    differs : matches_test_path path g ≡ some false → (path ≢ g) × (glob_test g path ≡ some false)
    differs e = elim (Bool-cases (str_eq path g)) [
      | inl s ↦
          let bad : some true ≡ some false = rw s at e in
          let worse : true ≡ false = some-injective true false bad in cc
      | inr s ↦ ((λ q. let y = (eq_iff path g).1 q in cc), (rw s at e))
    ]

    forward :
        (is_test_file path globs ≡ some false
          → All (λ x. (path ≢ x) × (glob_test x path ≡ some false)) globs)
        → is_test_file path (g ∷ globs) ≡ some false
        → All (λ x. (path ≢ x) × (glob_test x path ≡ some false)) (g ∷ globs)
    forward ih h = let (m, later) = split (matches_test_path path g) refl h in (differs m, ih later)

    backward :
        (All (λ x. (path ≢ x) × (glob_test x path ≡ some false)) globs
          → is_test_file path globs ≡ some false)
        → All (λ x. (path ≢ x) × (glob_test x path ≡ some false)) (g ∷ globs)
        → is_test_file path (g ∷ globs) ≡ some false
    backward ih ((n, m), rest) =
        let later = ih rest in
        let other : str_eq path g ≡ false = elim (Bool-cases (str_eq path g)) [
          | inl s ↦ absurd (n ((eq_iff path g).0 s))
          | inr s ↦ s
        ] in
        rw (is_test_file, other, m) later

-- No file is a pattern or matched by the glob of one, and every glob compiles.
abbrev pub Untouched : List String → List String → Type 0
Untouched globs files = All (λ f. All (λ g. (f ≢ g) × (glob_test g f ≡ some false)) globs) files

-- The check is ok, without an exception, exactly when no changed file is a pattern of the acceptance
-- tests or matched by the glob of one, and every such glob compiles.
pub boundary_ok_iff :
    (files globs : List String)
    → (acceptance_test_violations files globs ≡ some []) ↔ Untouched globs files
unfolding acceptance_test_violations
boundary_ok_iff [] globs = ((λ _. tt), (λ _. refl))
boundary_ok_iff (f ∷ files) globs =
    let ih = boundary_ok_iff files globs in (forward ih.0, backward ih.1)
  where
    split :
        (m : Option Bool)
        → (elim m [
          | none ↦ none
          | some true ↦ Option.map (λ l. f ∷ l) (acceptance_test_violations files globs)
          | some false ↦ acceptance_test_violations files globs
        ])
          ≡ some []
        → (m ≡ some false) × (acceptance_test_violations files globs ≡ some [])
    split none h = cc
    split (some true) h = ground arith
    split (some false) h = (refl, h)

    forward :
        (acceptance_test_violations files globs ≡ some [] → Untouched globs files)
        → acceptance_test_violations (f ∷ files) globs ≡ some []
        → Untouched globs (f ∷ files)
    forward ih h =
        let (m, rest) = split (is_test_file f globs) h in ((file_iff f globs).0 m, ih rest)

    backward :
        (Untouched globs files → acceptance_test_violations files globs ≡ some [])
        → Untouched globs (f ∷ files)
        → acceptance_test_violations (f ∷ files) globs ≡ some []
    backward ih (m, rest) = rw (acceptance_test_violations, (file_iff f globs).1 m) (ih rest)
