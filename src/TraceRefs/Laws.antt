-- ===== src/TraceRefs/Laws.antt =====
-- Printing a reference and reading it back.
use gateloop.Base.{
  ℕ, true, false, ◌&&◌, Option, none, some, List, [], ◌∷◌, ◌++◌, ◌≡◌, ◌≢◌, ◌↔◌, ◌≤◌, length, refl,
  sym, ap, ◌∙◌, subst, inl, inr, arith, all, all_iff, ==_iff, ◌==◌, All, All-append, All-map,
  Bool-cases,
}
use mathlib.Core.Option.{some-injective}
use gateloop.Base.Text.{trim, trim_end, is_space}
use gateloop.TraceRefs.{
  TraceRef, is_id_char, is_hex, trace_prefix, format_trace_ref, strip_prefix, split_id, is_sha,
  match_end, match_id, match_rest, match_ref, id_or, parse_trace_ref, event_id_from_trace_ref,
}

abbrev pub IsText : Option (List ℕ) → Type 0
IsText none = Unit
IsText (some sha) = (all is_hex sha ≡ true) × (7 ≤ length sha) × (length sha ≤ 40)

is_sha_iff :
    (sha : List ℕ)
    → (is_sha sha ≡ true) ↔ ((all is_hex sha ≡ true) × (7 ≤ length sha) × (length sha ≤ 40))
is_sha_iff sha =
    ((λ h. ((ground arith), (ground arith), (ground arith))), (λ (d, l, h). ground arith))

-- The id is not empty and of id characters, and a sha has 7 to 40 hexadecimal digits.
abbrev pub IsValidRef : TraceRef → Type 0
IsValidRef ref = (ref.event_id ≢ []) × (all is_id_char ref.event_id ≡ true) × IsText ref.commit_sha

id_char_plain : (c : ℕ) → is_id_char c ≡ true → is_space c ≡ false
id_char_plain c h = ground arith

hex_plain : (c : ℕ) → is_hex c ≡ true → is_space c ≡ false
hex_plain c h = ground arith

abbrev IsPlain : List ℕ → Type 0
IsPlain s = All (λ c. is_space c ≡ false) s

trim_end_plain : (s : List ℕ) → IsPlain s → trim_end s ≡ s
trim_end_plain [] h = refl
trim_end_plain (c ∷ []) h = rw h.0 refl
trim_end_plain (c ∷ d ∷ s) h = rw (trim_end_plain (d ∷ s) h.1) refl

trim_plain : (s : List ℕ) → IsPlain s → trim s ≡ s
trim_plain [] h = refl
trim_plain (c ∷ s) h = rw h.0 (trim_end_plain (c ∷ s) h)

split_id-append :
    (id rest : List ℕ)
    → All (λ c. is_id_char c ≡ true) id
    → split_id rest ≡ ([], rest)
    → split_id (id ++ rest) ≡ (id, rest)
split_id-append [] rest h e = e
split_id-append (c ∷ id) rest h e = rw (h.0, split_id-append id rest h.1 e) refl

append_nil : (xs : List ℕ) → xs ++ [] ≡ xs
append_nil [] = refl
append_nil (x ∷ xs) = ap (λ ys. x ∷ ys) (append_nil xs)

split_id_all : (id : List ℕ) → All (λ c. is_id_char c ≡ true) id → split_id id ≡ (id, [])
split_id_all [] h = refl
split_id_all (c ∷ id) h = rw (h.0, split_id_all id h.1) refl

match_id_valid : (id rest : List ℕ) → id ≢ [] → match_id (id, rest) ≡ match_end id rest
match_id_valid [] rest h = absurd (h refl)
match_id_valid (c ∷ id) rest h = refl

id-IsPlain : (id : List ℕ) → All (λ c. is_id_char c ≡ true) id → IsPlain id
id-IsPlain id h = All-map (λ c. is_id_char c ≡ true) (λ c. is_space c ≡ false) id id_char_plain h

sha-IsPlain : (sha : List ℕ) → is_sha sha ≡ true → IsPlain sha
sha-IsPlain sha h =
    let digits : all is_hex sha ≡ true = ground arith in
    All-map (λ c. is_hex c ≡ true) (λ c. is_space c ≡ false) sha hex_plain
      ((all_iff is_hex sha).0 digits)

format_cases :
    (ref : TraceRef)
    → IsValidRef ref
    → IsPlain (format_trace_ref ref) × (match_ref (format_trace_ref ref) ≡ some ref)
format_cases ref (nonempty, chars, sha) = by_sha ref.commit_sha refl sha
  where
    id : List ℕ
    id = ref.event_id

    ids : All (λ c. is_id_char c ≡ true) id
    ids = (all_iff is_id_char id).0 chars

    prefix_plain : IsPlain trace_prefix
    prefix_plain = (refl, (refl, (refl, (refl, (refl, (refl, tt))))))

    by_sha :
        (o : Option (List ℕ))
        → ref.commit_sha ≡ o
        → IsText o
        → IsPlain (format_trace_ref ref) × (match_ref (format_trace_ref ref) ≡ some ref)
    by_sha none e t = rw e (
      All-append (λ c. is_space c ≡ false) trace_prefix id prefix_plain (id-IsPlain id ids),
      ap match_id (split_id_all id ids) ∙ match_id_valid id [] nonempty,
    )
    by_sha (some []) e t = absurd (omega (arith, t.1))
    by_sha (some (c ∷ s)) e t = rw e (
      All-append (λ c. is_space c ≡ false) trace_prefix (id ++ (64 ∷ c ∷ s)) prefix_plain
          (All-append (λ c. is_space c ≡ false) id (64 ∷ c ∷ s) (id-IsPlain id ids)
            (refl, sha-IsPlain (c ∷ s) ((is_sha_iff (c ∷ s)).1 t))),
      ap match_id (split_id-append id (64 ∷ c ∷ s) ids refl)
          ∙ match_id_valid id (64 ∷ c ∷ s) nonempty
          ∙ rw ((is_sha_iff (c ∷ s)).1 t) refl,
    )

-- A reference with an id of id characters, not empty, and no sha or one of 7 to 40 hexadecimal digits
-- is read back from its text, by the parser and by the resolver's own expression.
pub parse-format :
    (ref : TraceRef)
    → IsValidRef ref
    → (parse_trace_ref (format_trace_ref ref) ≡ some ref)
      × (event_id_from_trace_ref (format_trace_ref ref) ≡ ref.event_id)
unfolding parse_trace_ref event_id_from_trace_ref
parse-format ref h =
    let (plain, read) = format_cases ref h in
    let same = trim_plain (format_trace_ref ref) plain in
    (
      ap match_ref same ∙ read,
      ap (λ s. id_or (match_ref s) s) same ∙ ap (λ o. id_or o (format_trace_ref ref)) read,
    )

strip_prefix_sound : (p t s : List ℕ) → strip_prefix p t ≡ some s → p ++ s ≡ t
strip_prefix_sound [] t s e = some-injective _ _ (sym e)
strip_prefix_sound (a ∷ p) [] s e = cc
strip_prefix_sound (a ∷ p) (c ∷ t) s e = elim (Bool-cases (a == c)) [
  | inl q ↦
      let rest : strip_prefix p t ≡ some s = rw q at e in
      let same = (==_iff a c).0 q in rw (same, strip_prefix_sound p t s rest) refl
  | inr q ↦ let bad : none ≡ some s = rw q at e in cc
]

split_id_sound :
    (s : List ℕ)
    → ((split_id s).0 ++ (split_id s).1 ≡ s) × All (λ c. is_id_char c ≡ true) (split_id s).0
split_id_sound [] = (refl, tt)
split_id_sound (c ∷ s) =
    let (whole, chars) = split_id_sound s in
    elim (Bool-cases (is_id_char c)) [
      | inl e ↦ rw e (ap (λ t. c ∷ t) whole, (e, chars))
      | inr e ↦ rw e (refl, tt)
    ]

abbrev Reads : List ℕ → TraceRef → Type 0
Reads t ref = IsValidRef ref × (format_trace_ref ref ≡ t)

end_sound :
    (id rest : List ℕ) (ref : TraceRef) (c : ℕ)
    → All (λ d. is_id_char d ≡ true) (c ∷ id)
    → match_end (c ∷ id) rest ≡ some ref
    → Reads (trace_prefix ++ ((c ∷ id) ++ rest)) ref
end_sound id [] ref c h e =
    let same : record { event_id = c ∷ id; commit_sha = none } ≡ ref = some-injective _ _ e in
    subst (Reads (trace_prefix ++ ((c ∷ id) ++ []))) same (
      ((λ q. cc), (all_iff is_id_char (c ∷ id)).1 h, tt),
      sym (ap (λ t. trace_prefix ++ t) (append_nil (c ∷ id))),
    )
end_sound id (d ∷ sha) ref c h e = elim (Bool-cases ((d == 64) && is_sha sha)) [
  | inr q ↦ let bad : none ≡ some ref = rw q at e in cc
  | inl q ↦ by_sha sha (ground arith) (ground arith) (rw q at e)
]
  where
    by_sha :
        (t : List ℕ)
        → d ≡ 64
        → is_sha t ≡ true
        → ◌≡◌ {A = Option TraceRef}
            (some (record { event_id = c ∷ id; commit_sha = some t }))
            (some ref)
        → Reads (trace_prefix ++ ((c ∷ id) ++ (d ∷ t))) ref
    by_sha [] at_sign valid k = cc
    by_sha (x ∷ t) at_sign valid k =
        let same : record { event_id = c ∷ id; commit_sha = some (x ∷ t) } ≡ ref =
          some-injective _ _ k in
        subst (Reads (trace_prefix ++ ((c ∷ id) ++ (d ∷ x ∷ t)))) same (
          ((λ q. cc), (all_iff is_id_char (c ∷ id)).1 h, (is_sha_iff (x ∷ t)).0 valid),
          ap (λ y. trace_prefix ++ ((c ∷ id) ++ (y ∷ x ∷ t))) (sym at_sign),
        )

match_sound : (t : List ℕ) (ref : TraceRef) → match_ref t ≡ some ref → Reads t ref
match_sound t ref e = by_strip (strip_prefix trace_prefix t) refl e
  where
    by_split :
        (u : List ℕ) (p : List ℕ × List ℕ)
        → split_id u ≡ p
        → p.0 ++ p.1 ≡ u
        → All (λ d. is_id_char d ≡ true) p.0
        → match_id p ≡ some ref
        → Reads (trace_prefix ++ u) ref
    by_split u ([], rest) q w h k = cc
    by_split u (c ∷ id, rest) q w h k =
        subst (λ v. Reads (trace_prefix ++ v) ref) w (end_sound id rest ref c h k)

    by_strip :
        (o : Option (List ℕ))
        → strip_prefix trace_prefix t ≡ o
        → match_rest o ≡ some ref
        → Reads t ref
    by_strip none q k = cc
    by_strip (some u) q k =
        let (whole, chars) = split_id_sound u in
        subst (λ v. Reads v ref) (strip_prefix_sound trace_prefix t u q)
          (by_split u (split_id u) refl whole chars k)

-- Whatever text is read as a reference, the reference has an id of id characters, not empty, and no sha
-- or one of 7 to 40 hexadecimal digits, and it is printed as the trimmed text.
pub format-parse :
    (s : List ℕ) (ref : TraceRef)
    → parse_trace_ref s ≡ some ref
    → IsValidRef ref × (format_trace_ref ref ≡ trim s)
unfolding parse_trace_ref
format-parse s ref e = match_sound (trim s) ref e
