-- ===== src/Glob/Scanning.antt =====
-- What the replacements make of a glob without `?` and without the placeholder character.
use gateloop.Base.{
  ℕ, true, false, Bool, some, List, [], ◌∷◌, map, ◌≡◌, refl, ◌≢◌, ◌⊎◌, All, ◌==◌, ==_iff,
  Bool-cases, inl, inr,
}
use gateloop.Glob.{
  Item, lit, seg, run, Token, char, segment, rest_of_line, plain_token, scan, quantify,
}

-- Neither `?` nor the placeholder character.
abbrev pub IsSimple : ℕ → Type 0
IsSimple c = (c ≢ 63) × (c ≢ 167)

abbrev pub item_of : Token → Item
item_of (char c) = lit c
item_of Token.mark = seg
item_of segment = seg
item_of rest_of_line = run

abbrev pub NoMark : Token → Type 0
NoMark t = t ≢ Token.mark

pub quantify-items : (ts : List Token) → All NoMark ts → quantify ts ≡ some (map item_of ts)
quantify-items [] h = refl
quantify-items (Token.mark ∷ ts) (n, h) = absurd (n refl)
quantify-items (char c ∷ []) h = refl
quantify-items (char c ∷ Token.mark ∷ ts) (n, (m, h)) = absurd (m refl)
quantify-items (char c ∷ char x ∷ ts) (n, h) = rw (quantify-items (char x ∷ ts) h)
quantify-items (char c ∷ segment ∷ ts) (n, h) = rw (quantify-items (segment ∷ ts) h)
quantify-items (char c ∷ rest_of_line ∷ ts) (n, h) = rw (quantify-items (rest_of_line ∷ ts) h)
quantify-items (segment ∷ []) h = refl
quantify-items (segment ∷ Token.mark ∷ ts) (n, (m, h)) = absurd (m refl)
quantify-items (segment ∷ char x ∷ ts) (n, h) = rw (quantify-items (char x ∷ ts) h)
quantify-items (segment ∷ segment ∷ ts) (n, h) = rw (quantify-items (segment ∷ ts) h)
quantify-items (segment ∷ rest_of_line ∷ ts) (n, h) = rw (quantify-items (rest_of_line ∷ ts) h)
quantify-items (rest_of_line ∷ []) h = refl
quantify-items (rest_of_line ∷ Token.mark ∷ ts) (n, (m, h)) = absurd (m refl)
quantify-items (rest_of_line ∷ char x ∷ ts) (n, h) = rw (quantify-items (char x ∷ ts) h)
quantify-items (rest_of_line ∷ segment ∷ ts) (n, h) = rw (quantify-items (segment ∷ ts) h)
quantify-items (rest_of_line ∷ rest_of_line ∷ ts) (n, h) = rw (quantify-items (rest_of_line ∷ ts) h)

equal-false : (a b : ℕ) → a ≢ b → (a == b) ≡ false
equal-false a b n = elim (Bool-cases (a == b)) [ inl e ↦ absurd (n ((==_iff a b).0 e)) | inr e ↦ e ]

-- The stars that are read: one more than the rest of the glob where one is pending.
abbrev pub with_pending : Bool → List ℕ → List ℕ
with_pending false glob = glob
with_pending true glob = 42 ∷ glob

-- The parts that a simple glob compiles to.
abbrev pub parts : Bool → List ℕ → List Item
parts b glob = map item_of (scan b glob)

plain_token-simple : (c : ℕ) → IsSimple c → plain_token c ≡ char c
plain_token-simple c (q, p) = rw (equal-false c 167 p, equal-false c 63 q)

pub scan_star : (c : ℕ) (glob : List ℕ) → c ≡ 42 → scan false (c ∷ glob) ≡ scan true glob
scan_star c glob e = let t = (==_iff c 42).1 e in rw t

pub scan_other :
    (c : ℕ) (glob : List ℕ) → c ≢ 42 → IsSimple c → scan false (c ∷ glob) ≡ char c ∷ scan false glob
scan_other c glob n s = rw (equal-false c 42 n, plain_token-simple c s)

pub scan_stars :
    (c : ℕ) (glob : List ℕ) → c ≡ 42 → scan true (c ∷ glob) ≡ rest_of_line ∷ scan false glob
scan_stars c glob e = let t = (==_iff c 42).1 e in rw t

pub scan_star_other :
    (c : ℕ) (glob : List ℕ)
    → c ≢ 42
    → IsSimple c
    → scan true (c ∷ glob) ≡ segment ∷ char c ∷ scan false glob
scan_star_other c glob n s = rw (equal-false c 42 n, plain_token-simple c s)

pub star_or_not : (c : ℕ) → (c ≡ 42) ⊎ (c ≢ 42)
star_or_not c = elim (Bool-cases (c == 42)) [
  | inl e ↦ inl ((==_iff c 42).0 e)
  | inr e ↦ inr (λ q. let t = (==_iff c 42).1 q in cc)
]

pub scan-NoMark : (b : Bool) (glob : List ℕ) → All IsSimple glob → All NoMark (scan b glob)
scan-NoMark false [] h = tt
scan-NoMark true [] h = ((λ e. cc), tt)
scan-NoMark false (c ∷ glob) (s, h) =
    let after = scan-NoMark true glob h in
    let rest = scan-NoMark false glob h in
    elim (star_or_not c) [
      | inl e ↦ rw (scan_star c glob e) after
      | inr n ↦ rw (scan_other c glob n s) ((λ e. cc), rest)
    ]
scan-NoMark true (c ∷ glob) (s, h) =
    let rest = scan-NoMark false glob h in
    elim (star_or_not c) [
      | inl e ↦ rw (scan_stars c glob e) ((λ k. cc), rest)
      | inr n ↦ rw (scan_star_other c glob n s) ((λ e. cc), ((λ e. cc), rest))
    ]
