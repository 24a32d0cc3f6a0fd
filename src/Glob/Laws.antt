-- ===== src/Glob/Laws.antt =====
-- What the compiled globs match.
use gateloop.Base.{ℕ, true, false, List, [], ◌∷◌, ◌≡◌, refl, ◌≢◌, ◌↔◌, arith, Bool-cases, inl, inr}
use gateloop.Glob.{Item, lit, opt, seg, run, is_line_end, matches}

-- The texts that a row of parts describes: `/` never inside a `seg`, no line end inside a `run`.
pub data Describes : List Item → List ℕ → Type 0 where
  end : Describes [] []
  literal :
      {c x : ℕ} {is : List Item} {s : List ℕ}
      → x ≡ c
      → Describes is s
      → Describes (lit c ∷ is) (x ∷ s)
  absent : {c : ℕ} {is : List Item} {s : List ℕ} → Describes is s → Describes (opt c ∷ is) s
  present :
      {c x : ℕ} {is : List Item} {s : List ℕ}
      → x ≡ c
      → Describes is s
      → Describes (opt c ∷ is) (x ∷ s)
  seg_end : {is : List Item} {s : List ℕ} → Describes is s → Describes (seg ∷ is) s
  seg_more :
      {x : ℕ} {is : List Item} {s : List ℕ}
      → x ≢ 47
      → Describes (seg ∷ is) s
      → Describes (seg ∷ is) (x ∷ s)
  run_end : {is : List Item} {s : List ℕ} → Describes is s → Describes (run ∷ is) s
  run_more :
      {x : ℕ} {is : List Item} {s : List ℕ}
      → is_line_end x ≡ false
      → Describes (run ∷ is) s
      → Describes (run ∷ is) (x ∷ s)

matches_sound : (is : List Item) (s : List ℕ) → matches is s ≡ true → Describes is s
unfolding matches
matches_sound [] [] h = end
matches_sound [] (x ∷ xs) h = cc
matches_sound (lit c ∷ is) [] h = cc
matches_sound (lit c ∷ is) (x ∷ xs) h = literal (ground arith) (matches_sound is xs (ground arith))
matches_sound (opt c ∷ is) [] h = absent (matches_sound is [] h)
matches_sound (opt c ∷ is) (x ∷ xs) h = elim (Bool-cases (matches is (x ∷ xs))) [
  | inl b ↦ absent (matches_sound is (x ∷ xs) b)
  | inr b ↦ present (ground arith) (matches_sound is xs (ground arith))
]
matches_sound (seg ∷ is) [] h = seg_end (matches_sound is [] h)
matches_sound (seg ∷ is) (x ∷ xs) h = elim (Bool-cases (matches is (x ∷ xs))) [
  | inl b ↦ seg_end (matches_sound is (x ∷ xs) b)
  | inr b ↦ seg_more (ground arith) (matches_sound (seg ∷ is) xs (ground arith))
]
matches_sound (run ∷ is) [] h = run_end (matches_sound is [] h)
matches_sound (run ∷ is) (x ∷ xs) h = elim (Bool-cases (matches is (x ∷ xs))) [
  | inl b ↦ run_end (matches_sound is (x ∷ xs) b)
  | inr b ↦ run_more (ground arith) (matches_sound (run ∷ is) xs (ground arith))
]

-- Where the parts after it match, so does a part that may be left out.
skip :
    (i : Item) (is : List Item) (s : List ℕ)
    → ((c : ℕ) → i ≢ lit c)
    → matches is s ≡ true
    → matches (i ∷ is) s ≡ true
unfolding matches
skip (lit c) is s n h = absurd (n c refl)
skip (opt c) is [] n h = h
skip (opt c) is (x ∷ xs) n h = rw h
skip seg is [] n h = h
skip seg is (x ∷ xs) n h = rw h
skip run is [] n h = h
skip run is (x ∷ xs) n h = rw h

matches_complete : {is : List Item} {s : List ℕ} → Describes is s → matches is s ≡ true
unfolding matches
matches_complete end = refl
matches_complete (literal e d) = ground (arith, matches_complete d)
matches_complete (absent {c} {is} {s} d) = skip (opt c) is s (λ x e. cc) (matches_complete d)
matches_complete (present {is = is} {s = s} e d) = ground (arith, matches_complete d)
matches_complete (seg_end {is} {s} d) = skip seg is s (λ x e. cc) (matches_complete d)
matches_complete (seg_more n d) = ground (arith, matches_complete d)
matches_complete (run_end {is} {s} d) = skip run is s (λ x e. cc) (matches_complete d)
matches_complete (run_more n d) = ground (arith, matches_complete d)

-- The matcher decides the description, for every row of parts and every text.
pub matches_iff : (is : List Item) (s : List ℕ) → (matches is s ≡ true) ↔ Describes is s
matches_iff is s = (matches_sound is s, matches_complete)
