-- ===== src/Glob/Subtree.antt =====
-- Two kinds of globs that contracts use: a path with no special character, and a prefix with `**`.
use mathlib.Core.Option
use mathlib.Core.Option.{some-injective}
use mathlib.Core.List.{append-nil}
use gateloop.Base.{
  ℕ, String, true, false, some, List, [], ◌∷◌, ◌++◌, map, ◌≡◌, refl, sym, ap, ◌∙◌, ◌≢◌, ◌↔◌, arith,
  subst, All,
}
use gateloop.Base.Text.{codes}
use gateloop.Glob.{
  Item, lit, run, is_line_end, Token, char, rest_of_line, scan, quantify, compile, matches,
  glob_test,
}
use gateloop.Glob.Laws.{Describes, end, literal, run_end, run_more, matches_iff}

-- Not a star, a question mark or the placeholder character.
abbrev pub IsPlain : ℕ → Type 0
IsPlain c = (c ≢ 42) × (c ≢ 63) × (c ≢ 167)

scan_plain : (s t : List ℕ) → All IsPlain s → scan false (s ++ t) ≡ map char s ++ scan false t
scan_plain [] t h = refl
scan_plain (c ∷ s) t ((a, b, d), h) = ground (arith, scan_plain s t h)

quantify_chars :
    (s : List ℕ) (ts : List Token) (is : List Item)
    → ((t : Token) (rest : List Token) → ts ≡ t ∷ rest → t ≢ Token.mark)
    → quantify ts ≡ some is
    → quantify (map char s ++ ts) ≡ some (map lit s ++ is)
quantify_chars [] ts is n h = h
quantify_chars (c ∷ []) [] is n h = ground arith
quantify_chars (c ∷ []) (Token.mark ∷ rest) is n h = absurd (n Token.mark rest refl refl)
quantify_chars (c ∷ []) (char x ∷ rest) is n h = rw h
quantify_chars (c ∷ []) (Token.segment ∷ rest) is n h = rw h
quantify_chars (c ∷ []) (rest_of_line ∷ rest) is n h = rw h
quantify_chars (c ∷ x ∷ s) ts is n h = rw (quantify_chars (x ∷ s) ts is n h)

-- After literal parts the rest of the text is described by the rest of the parts.
Describes-literals :
    (s : List ℕ) (is : List Item) (t : List ℕ)
    → Describes (map lit s ++ is) t
    → (r : List ℕ) × (t ≡ s ++ r) × Describes is r
Describes-literals [] is t d = (t, refl, d)
Describes-literals (c ∷ s) is [] d = elim d [ ]
Describes-literals (c ∷ s) is (x ∷ t) (literal e d) =
    let (r, q, d') = Describes-literals s is t d in (r, cc, d')

literals_Describe :
    (s : List ℕ) (is : List Item) (r : List ℕ)
    → Describes is r
    → Describes (map lit s ++ is) (s ++ r)
literals_Describe [] is r d = d
literals_Describe (c ∷ s) is r d = literal refl (literals_Describe s is r d)

abbrev pub NoLineEnd : List ℕ → Type 0
NoLineEnd r = All (λ c. is_line_end c ≡ false) r

run-Describes : (r : List ℕ) → Describes (run ∷ []) r → NoLineEnd r
run-Describes [] d = tt
run-Describes (x ∷ r) (run_end d) = elim d [ ]
run-Describes (x ∷ r) (run_more n d) = (n, run-Describes r d)

Describes-run : (r : List ℕ) → NoLineEnd r → Describes (run ∷ []) r
Describes-run [] h = run_end end
Describes-run (x ∷ r) (n, h) = run_more n (Describes-run r h)

-- A glob with no special character covers exactly the path that it spells.
pub glob_plain_iff :
    (glob path : String)
    → All IsPlain (codes glob)
    → (glob_test glob path ≡ some true) ↔ (codes path ≡ codes glob)
unfolding glob_test compile
glob_plain_iff glob path h = (forward, backward)
  where
    items : List Item
    items = map lit (codes glob) ++ []

    compiled : quantify (scan false (codes glob)) ≡ some items
    compiled =
        subst (λ l. quantify (scan false l) ≡ some items) (append-nil (codes glob))
          (subst (λ ts. quantify ts ≡ some items) (sym (scan_plain (codes glob) [] h))
            (quantify_chars (codes glob) [] [] (λ t rest e. cc) refl))

    forward :
        Option.map (λ is. matches is (codes path)) (quantify (scan false (codes glob))) ≡ some true
        → codes path ≡ codes glob
    forward e =
        let m : matches items (codes path) ≡ true =
          some-injective _ _
            (subst (λ o. Option.map (λ is. matches is (codes path)) o ≡ some true) compiled e) in
        let (r, q, d) =
          Describes-literals (codes glob) [] (codes path) ((matches_iff items (codes path)).0 m) in
        finish r q d
      where
        finish :
            (r : List ℕ) → codes path ≡ codes glob ++ r → Describes [] r → codes path ≡ codes glob
        finish [] q d = q ∙ append-nil (codes glob)
        finish (x ∷ r) q d = elim d [ ]

    backward :
        codes path ≡ codes glob
        → Option.map (λ is. matches is (codes path)) (quantify (scan false (codes glob)))
          ≡ some true
    backward e =
        subst (λ o. Option.map (λ is. matches is (codes path)) o ≡ some true) (sym compiled)
          (ap some (
            (matches_iff items (codes path)).1 (
              subst (Describes items) (append-nil (codes glob) ∙ sym e)
                (literals_Describe (codes glob) [] [] end))))

-- A glob that is a plain prefix and `**` covers exactly the paths that begin with the prefix and have
-- no line end after it.
pub glob_subtree_iff :
    (glob path : String) (prefix : List ℕ)
    → codes glob ≡ prefix ++ 42 ∷ 42 ∷ []
    → All IsPlain prefix
    → (glob_test glob path ≡ some true)
      ↔ ((rest : List ℕ) × (codes path ≡ prefix ++ rest) × NoLineEnd rest)
unfolding glob_test compile
glob_subtree_iff glob path prefix spelled h = (forward, backward)
  where
    items : List Item
    items = map lit prefix ++ run ∷ []

    compiled : quantify (scan false (codes glob)) ≡ some items
    compiled =
        subst (λ l. quantify (scan false l) ≡ some items) (sym spelled)
          (subst (λ ts. quantify ts ≡ some items) (sym (scan_plain prefix (42 ∷ 42 ∷ []) h))
            (quantify_chars prefix (rest_of_line ∷ []) (run ∷ []) (λ t rest e k. cc) refl))

    forward :
        Option.map (λ is. matches is (codes path)) (quantify (scan false (codes glob))) ≡ some true
        → (rest : List ℕ) × (codes path ≡ prefix ++ rest) × NoLineEnd rest
    forward e =
        let m : matches items (codes path) ≡ true =
          some-injective _ _
            (subst (λ o. Option.map (λ is. matches is (codes path)) o ≡ some true) compiled e) in
        let (r, q, d) =
          Describes-literals prefix (run ∷ []) (codes path)
            ((matches_iff items (codes path)).0 m) in
        (r, q, run-Describes r d)

    backward :
        (rest : List ℕ) × (codes path ≡ prefix ++ rest) × NoLineEnd rest
        → Option.map (λ is. matches is (codes path)) (quantify (scan false (codes glob)))
          ≡ some true
    backward (r, q, n) =
        subst (λ o. Option.map (λ is. matches is (codes path)) o ≡ some true) (sym compiled)
          (ap some (
            (matches_iff items (codes path)).1 (
              subst (Describes items) (sym q)
                (literals_Describe prefix (run ∷ []) r (Describes-run r n)))))
