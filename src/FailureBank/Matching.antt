-- ===== src/FailureBank/Matching.antt =====
-- When the signal of a gene matches a context, described without `split`, `includes` and their loops.
use gateloop.Base.{
  ℕ, String, Bool, true, false, ◌&&◌, List, [], ◌∷◌, ◌++◌, ◌≡◌, ◌≢◌, ◌↔◌, refl, sym, ◌∙◌, ap, subst,
  arith, All, Memᴰ, any, any-true_iff, ltb, length, ◌==◌, ==_iff, Bool-cases, inl, inr,
}
use gateloop.Base.Text.{codes, starts_with, includes, trim}
use gateloop.FailureBank.State.{
  FailureGene, onto_first, split_on, join_with, token_value, signal_matches,
}

-- The parts of a text between the places where a character stands.
pub data Splits (sep : ℕ) : List ℕ → List (List ℕ) → Type 0 where
  last : {part : List ℕ} → All (λ c. c ≢ sep) part → Splits sep part (part ∷ [])
  more :
      {part rest text : List ℕ} {parts : List (List ℕ)}
      → All (λ c. c ≢ sep) part
      → text ≡ part ++ (sep ∷ rest)
      → Splits sep rest parts
      → Splits sep text (part ∷ parts)

not_equal : (a b : ℕ) → a ≢ b → (a == b) ≡ false
not_equal a b n = elim (Bool-cases (a == b)) [ inl e ↦ absurd (n ((==_iff a b).0 e)) | inr e ↦ e ]

add_first :
    {sep c : ℕ} {text : List ℕ} {parts : List (List ℕ)}
    → c ≢ sep
    → Splits sep text parts
    → Splits sep (c ∷ text) (onto_first c parts)
add_first n (last h) = last (n, h)
add_first {c = c} n (more h e d) = more (n, h) (ap (λ t. c ∷ t) e) d

split_on-Splits : (sep : ℕ) (text : List ℕ) → Splits sep text (split_on sep text)
split_on-Splits sep [] = last tt
split_on-Splits sep (c ∷ text) =
    let ih = split_on-Splits sep text in
    elim (Bool-cases (c == sep)) [
      | inl b ↦ rw b (more {part = []} tt (ap (λ x. x ∷ text) ((==_iff c sep).0 b)) ih)
      | inr b ↦ rw b (add_first (λ e. let t = (==_iff c sep).1 e in cc) ih)
    ]

split_on-part :
    (sep : ℕ) (part rest : List ℕ)
    → All (λ c. c ≢ sep) part
    → split_on sep (part ++ (sep ∷ rest)) ≡ part ∷ split_on sep rest
split_on-part sep [] rest h = let same = (==_iff sep sep).1 refl in ground arith
split_on-part sep (c ∷ part) rest (n, h) = rw (not_equal c sep n, split_on-part sep part rest h)

split_on-whole : (sep : ℕ) (part : List ℕ) → All (λ c. c ≢ sep) part → split_on sep part ≡ part ∷ []
split_on-whole sep [] h = refl
split_on-whole sep (c ∷ part) (n, h) = rw (not_equal c sep n, split_on-whole sep part h)

Splits-split_on :
    {sep : ℕ} {text : List ℕ} {parts : List (List ℕ)}
    → Splits sep text parts
    → split_on sep text ≡ parts
Splits-split_on {sep} (last {part} h) = split_on-whole sep part h
Splits-split_on {sep} (more {part} {rest} h e d) =
    ap (split_on sep) e ∙ split_on-part sep part rest h ∙ ap (λ ps. part ∷ ps) (Splits-split_on d)

-- What stands after the first colon of a token, or nothing where it has none.
pub data Value : List ℕ → List ℕ → Type 0 where
  keyed :
      {token : List ℕ} (key value : List ℕ)
      → trim token ≡ key ++ (58 ∷ value)
      → All (λ c. c ≢ 58) key
      → Value token (trim value)
  unkeyed : {token : List ℕ} → All (λ c. c ≢ 58) (trim token) → Value token []

-- One text stands somewhere in another.
abbrev pub Within : List ℕ → List ℕ → Type 0
Within part text = (before : List ℕ) × (after : List ℕ) × (text ≡ before ++ (part ++ after))

starts_with_sound :
    (part text : List ℕ) → starts_with part text ≡ true → (after : List ℕ) × (text ≡ part ++ after)
starts_with_sound [] text h = (text, refl)
starts_with_sound (c ∷ part) [] h = cc
starts_with_sound (c ∷ part) (d ∷ text) h =
    let (after, e) = starts_with_sound part text (ground arith) in
    let same = (==_iff c d).0 (ground arith) in (after, cc)

starts_with_complete : (part after : List ℕ) → starts_with part (part ++ after) ≡ true
starts_with_complete [] after = refl
starts_with_complete (c ∷ part) after =
    let same = (==_iff c c).1 refl in let ih = starts_with_complete part after in ground arith

includes_sound : (part text : List ℕ) → includes part text ≡ true → Within part text
includes_sound part [] h = let (after, e) = starts_with_sound part [] h in ([], after, e)
includes_sound part (c ∷ text) h = elim (Bool-cases (starts_with part (c ∷ text))) [
  | inl b ↦ let (after, e) = starts_with_sound part (c ∷ text) b in ([], after, e)
  | inr b ↦
      let (before, after, e) = includes_sound part text (ground arith) in
      (c ∷ before, after, ap (λ t. c ∷ t) e)
]

starts-includes : (part text : List ℕ) → starts_with part text ≡ true → includes part text ≡ true
starts-includes part [] h = h
starts-includes part (c ∷ text) h = ground arith

includes_complete : (part before after : List ℕ) → includes part (before ++ (part ++ after)) ≡ true
includes_complete part [] after =
    starts-includes part (part ++ after) (starts_with_complete part after)
includes_complete part (c ∷ before) after =
    let ih = includes_complete part before after in ground arith

join-Splits :
    {sep : ℕ} {text : List ℕ} {parts : List (List ℕ)}
    → Splits sep text parts
    → join_with (sep ∷ []) parts ≡ text
join-Splits (last h) = refl
join-Splits {sep} (more {part} h e (last k)) = sym e
join-Splits {sep} (more {part} h e (more k q d)) =
    ap (λ t. part ++ (sep ∷ t)) (join-Splits (more k q d)) ∙ sym e

token_value-Value : (token : List ℕ) → Value token (token_value token)
token_value-Value token = go (split_on 58 (trim token)) refl (split_on-Splits 58 (trim token))
  where
    go :
        (parts : List (List ℕ))
        → split_on 58 (trim token) ≡ parts
        → Splits 58 (trim token) parts
        → Value token (token_value token)
    go parts e (last h) = rw e (unkeyed h)
    go parts e (more {part} {rest} q h d) = rw (e, join-Splits d) (keyed part rest h q)

Value-unique : {token value : List ℕ} → Value token value → token_value token ≡ value
Value-unique {token} (keyed key value e h) =
    rw (e, split_on-part 58 key value h, join-Splits (split_on-Splits 58 value))
Value-unique {token} (unkeyed h) = rw (split_on-whole 58 (trim token) h)

-- A token between the bars of the signal has a value that is not empty and stands in the context,
-- both lower-cased.
pub record Matching (to_lower_case : List ℕ → List ℕ) (context : String) (g : FailureGene)
    : Type 0 where
  pub tokens : List (List ℕ)
  pub split : Splits 124 (codes g.matching_signal) tokens
  pub token : List ℕ
  pub listed : Memᴰ token tokens
  pub value : List ℕ
  pub valued : Value token value
  pub not_empty : to_lower_case value ≢ []
  pub found : Within (to_lower_case value) (to_lower_case (codes context))

not_empty_iff : (s : List ℕ) → (ltb 0 (length s) ≡ true) ↔ (s ≢ [])
not_empty_iff [] = ((λ h. cc), (λ n. absurd (n refl)))
not_empty_iff (c ∷ s) = ((λ h e. cc), (λ n. ground arith))

module _ (to_lower_case : List ℕ → List ℕ) where
  pub signal_matches_iff :
      (context : String) (g : FailureGene)
      → (signal_matches to_lower_case g context ≡ true) ↔ Matching to_lower_case context g
  unfolding signal_matches
  signal_matches_iff context g = (forward, backward)
    where
      tokens : List (List ℕ)
      tokens = split_on 124 (codes g.matching_signal)

      lowered : List ℕ
      lowered = to_lower_case (codes context)

      test : List ℕ → Bool
      test token =
          ltb 0 (length (to_lower_case (token_value token)))
          && includes (to_lower_case (token_value token)) lowered

      some_token : (any test tokens ≡ true) ↔ ((t : List ℕ) × Memᴰ t tokens × (test t ≡ true))
      some_token = any-true_iff test tokens

      forward : any test tokens ≡ true → Matching to_lower_case context g
      forward h =
          let (token, m, e) = some_token.0 h in
          record {
            tokens = tokens;
            split = split_on-Splits 124 (codes g.matching_signal);
            token = token;
            listed = m;
            value = token_value token;
            valued = token_value-Value token;
            not_empty = (not_empty_iff (to_lower_case (token_value token))).0 (ground arith);
            found = includes_sound (to_lower_case (token_value token)) lowered (ground arith);
          }

      backward : Matching to_lower_case context g → any test tokens ≡ true
      backward h =
          let (before, after, e) = h.found in
          let same : token_value h.token ≡ h.value = Value-unique h.valued in
          let long = (not_empty_iff (to_lower_case h.value)).1 h.not_empty in
          let inside : includes (to_lower_case h.value) lowered ≡ true =
            subst (λ t. includes (to_lower_case h.value) t ≡ true) (sym e)
              (includes_complete (to_lower_case h.value) before after) in
          some_token.1 (
            h.token,
            subst (Memᴰ h.token) (sym (Splits-split_on h.split)) h.listed,
            subst
                (λ v.
                  (ltb 0 (length (to_lower_case v)) && includes (to_lower_case v) lowered) ≡ true)
                (sym same) (ground arith),
          )
