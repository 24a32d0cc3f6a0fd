-- ===== src/Glob/Meaning.antt =====
-- What a glob covers, read off the glob itself.
use mathlib.Core.Option
use mathlib.Core.Option.{some-injective}
use gateloop.Base.{
  ℕ, String, Bool, true, false, some, List, [], ◌∷◌, map, ◌≡◌, refl, sym, ap, ◌∙◌, ◌≢◌, ◌↔◌, subst,
  All, inl, inr,
}
use gateloop.Base.Text.{codes}
use gateloop.Glob.{
  Item, lit, seg, run, is_line_end, Token, scan, quantify, compile, matches, glob_test,
}
use gateloop.Glob.Scanning.{
  IsSimple, item_of, with_pending, parts, quantify-items, scan_star, scan_other, scan_stars,
  scan_star_other, star_or_not, scan-NoMark,
}
use gateloop.Glob.Laws.{Describes, end, literal, seg_end, seg_more, run_end, run_more, matches_iff}

-- The glob does not go on with a star.
abbrev pub NoStarFirst : List ℕ → Type 0
NoStarFirst [] = Unit
NoStarFirst (c ∷ glob) = c ≢ 42

-- A character that is no star stands for itself, `**` for any text without a line end, and a star that
-- no second follows for any text without a slash.
pub data Covers : List ℕ → List ℕ → Type 0 where
  nothing : Covers [] []
  plain :
      {c x : ℕ} {glob path : List ℕ}
      → c ≢ 42
      → x ≡ c
      → Covers glob path
      → Covers (c ∷ glob) (x ∷ path)
  deep_end :
      {a b : ℕ} {glob path : List ℕ}
      → a ≡ 42
      → b ≡ 42
      → Covers glob path
      → Covers (a ∷ b ∷ glob) path
  deep_more :
      {a b x : ℕ} {glob path : List ℕ}
      → a ≡ 42
      → b ≡ 42
      → is_line_end x ≡ false
      → Covers (a ∷ b ∷ glob) path
      → Covers (a ∷ b ∷ glob) (x ∷ path)
  star_end :
      {a : ℕ} {glob path : List ℕ}
      → a ≡ 42
      → NoStarFirst glob
      → Covers glob path
      → Covers (a ∷ glob) path
  star_more :
      {a x : ℕ} {glob path : List ℕ}
      → a ≡ 42
      → NoStarFirst glob
      → x ≢ 47
      → Covers (a ∷ glob) path
      → Covers (a ∷ glob) (x ∷ path)

literal_sound :
    {c : ℕ} {glob : List ℕ} {is : List Item}
    → c ≢ 42
    → ((path : List ℕ) → Describes is path → Covers glob path)
    → (path : List ℕ) → Describes (lit c ∷ is) path
    → Covers (c ∷ glob) path
literal_sound n f [] d = elim d [ ]
literal_sound n f (x ∷ path) (literal e d) = plain n e (f path d)

seg_sound :
    {glob : List ℕ} {is : List Item}
    → NoStarFirst glob
    → ((path : List ℕ) → Describes is path → Covers glob path)
    → (path : List ℕ) → Describes (seg ∷ is) path
    → Covers (42 ∷ glob) path
seg_sound n f [] (seg_end d) = star_end refl n (f [] d)
seg_sound n f (x ∷ path) (seg_end d) = star_end refl n (f (x ∷ path) d)
seg_sound n f (x ∷ path) (seg_more m d) = star_more refl n m (seg_sound n f path d)

run_sound :
    {glob : List ℕ} {is : List Item}
    → ((path : List ℕ) → Describes is path → Covers glob path)
    → (path : List ℕ) → Describes (run ∷ is) path
    → Covers (42 ∷ 42 ∷ glob) path
run_sound f [] (run_end d) = deep_end refl refl (f [] d)
run_sound f (x ∷ path) (run_end d) = deep_end refl refl (f (x ∷ path) d)
run_sound f (x ∷ path) (run_more m d) = deep_more refl refl m (run_sound f path d)

nothing_sound : (path : List ℕ) → Describes [] path → Covers [] path
nothing_sound [] d = nothing
nothing_sound (x ∷ path) d = elim d [ ]

-- The parts that a token list stands for.
abbrev Reads : List Token → List ℕ → Type 0
Reads ts path = Describes (map item_of ts) path

parts_sound :
    (b : Bool) (glob : List ℕ)
    → All IsSimple glob
    → (path : List ℕ) → Describes (parts b glob) path
    → Covers (with_pending b glob) path
parts_sound false [] h path d = nothing_sound path d
parts_sound true [] h path d = seg_sound tt nothing_sound path d
parts_sound false (c ∷ glob) (s, h) path d =
    let after = parts_sound true glob h in
    let rest = parts_sound false glob h in
    elim (star_or_not c) [
      | inl e ↦
          subst (λ a. Covers (a ∷ glob) path) (sym e)
            (after path (subst (λ ts. Reads ts path) (scan_star c glob e) d))
      | inr n ↦ literal_sound n rest path (subst (λ ts. Reads ts path) (scan_other c glob n s) d)
    ]
parts_sound true (c ∷ glob) (s, h) path d =
    let rest = parts_sound false glob h in
    elim (star_or_not c) [
      | inl e ↦
          subst (λ a. Covers (42 ∷ a ∷ glob) path) (sym e)
            (run_sound rest path (subst (λ ts. Reads ts path) (scan_stars c glob e) d))
      | inr n ↦
          seg_sound n (literal_sound n rest) path
            (subst (λ ts. Reads ts path) (scan_star_other c glob n s) d)
    ]

literal_complete :
    {c : ℕ} {glob : List ℕ} {is : List Item}
    → c ≢ 42
    → ((path : List ℕ) → Covers glob path → Describes is path)
    → {path : List ℕ} → Covers (c ∷ glob) path
    → Describes (lit c ∷ is) path
literal_complete n f (plain m e d) = literal e (f _ d)
literal_complete n f (deep_end e k d) = absurd (n e)
literal_complete n f (deep_more e k m d) = absurd (n e)
literal_complete n f (star_end e k d) = absurd (n e)
literal_complete n f (star_more e k m d) = absurd (n e)

seg_complete :
    {a : ℕ} {glob : List ℕ} {is : List Item}
    → a ≡ 42
    → NoStarFirst glob
    → ((path : List ℕ) → Covers glob path → Describes is path)
    → {path : List ℕ} → Covers (a ∷ glob) path
    → Describes (seg ∷ is) path
seg_complete q n f (plain m e d) = absurd (m q)
seg_complete q n f (deep_end e k d) = absurd (n k)
seg_complete q n f (deep_more e k m d) = absurd (n k)
seg_complete q n f (star_end e k d) = seg_end (f _ d)
seg_complete q n f (star_more e k m d) = seg_more m (seg_complete q n f d)

run_complete :
    {a b : ℕ} {glob : List ℕ} {is : List Item}
    → a ≡ 42
    → b ≡ 42
    → ((path : List ℕ) → Covers glob path → Describes is path)
    → {path : List ℕ} → Covers (a ∷ b ∷ glob) path
    → Describes (run ∷ is) path
run_complete q r f (plain m e d) = absurd (m q)
run_complete q r f (deep_end e k d) = run_end (f _ d)
run_complete q r f (deep_more e k m d) = run_more m (run_complete q r f d)
run_complete q r f (star_end e k d) = absurd (k r)
run_complete q r f (star_more e k m d) = absurd (k r)

nothing_complete : (path : List ℕ) → Covers [] path → Describes [] path
nothing_complete [] d = end
nothing_complete (x ∷ path) d = elim d [ ]

parts_complete :
    (b : Bool) (glob : List ℕ)
    → All IsSimple glob
    → (path : List ℕ) → Covers (with_pending b glob) path
    → Describes (parts b glob) path
parts_complete false [] h path d = nothing_complete path d
parts_complete true [] h path d = seg_complete refl tt nothing_complete d
parts_complete false (c ∷ glob) (s, h) path d =
    let after = parts_complete true glob h in
    let rest = parts_complete false glob h in
    elim (star_or_not c) [
      | inl e ↦
          subst (λ ts. Reads ts path) (sym (scan_star c glob e))
            (after path (subst (λ a. Covers (a ∷ glob) path) e d))
      | inr n ↦
          subst (λ ts. Reads ts path) (sym (scan_other c glob n s)) (literal_complete n rest d)
    ]
parts_complete true (c ∷ glob) (s, h) path d =
    let rest = parts_complete false glob h in
    elim (star_or_not c) [
      | inl e ↦ subst (λ ts. Reads ts path) (sym (scan_stars c glob e)) (run_complete refl e rest d)
      | inr n ↦
          subst (λ ts. Reads ts path) (sym (scan_star_other c glob n s))
            (seg_complete refl n (λ p. literal_complete n rest) d)
    ]

-- A glob with no `?` and no placeholder character has an answer on every path, and covers a path exactly
-- when the path spells the glob with each `**`, paired from the left, filled by a text without a line
-- end and each other star by a text without a slash.
pub glob_iff :
    (glob path : String)
    → All IsSimple (codes glob)
    → ((b : Bool) × (glob_test glob path ≡ some b))
      × ((glob_test glob path ≡ some true) ↔ Covers (codes glob) (codes path))
unfolding glob_test compile
glob_iff glob path h =
    let is = parts false (codes glob) in
    let compiled : quantify (scan false (codes glob)) ≡ some is =
      quantify-items (scan false (codes glob)) (scan-NoMark false (codes glob) h) in
    let tested : Option.map (λ js. matches js (codes path)) (quantify (scan false (codes glob)))
        ≡ some (matches is (codes path)) =
      ap (Option.map (λ js. matches js (codes path))) compiled in
    let decides = matches_iff is (codes path) in
    (
      (matches is (codes path), tested),
      (
        (λ e.
            parts_sound false (codes glob) h (codes path)
              (decides.0 (some-injective _ _ (sym tested ∙ e)))),
        (λ c. tested ∙ ap some (decides.1 (parts_complete false (codes glob) h (codes path) c))),
      ),
    )
