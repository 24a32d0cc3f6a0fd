-- ===== src/Base/Text.antt =====
-- Texts as lists of code points, their lengths and order in UTF-16 units, and a number's decimal digits (a number in a template literal).
use Prim.Native.Char.{Char, code}
use Prim.Native.String.{String}
use gateloop.Base.{
  Ordering, compare, ℕ, zero, suc, ◌+◌, ◌-◌, ◌*◌, ◌<◌, ◌≡◌, refl, sym, ap, ◌∙◌, List, [], ◌∷◌,
  arith, ltb, if◌then◌else◌, ◌==◌, Bool-cases, inl, inr, Bool, true, false, ◌&&◌, ◌||◌, ◌++◌,
  length, leb, any,
}
use Prim.Native.Nat.{◌/◌, ◌%◌}

abbrev pub codes : String → List ℕ
codes String.[] = []
codes (String.◌∷◌ c s) = code c ∷ codes s

-- The UTF-16 units that a JavaScript text consists of: two for a code point beyond the basic plane.
abbrev pub units : List ℕ → List ℕ
units [] = []
units (c ∷ s) =
    let rest = units s in
    if ltb c 65536
    then c ∷ rest
    else (55296 + (c - 65536) / 1024) ∷ (56320 + (c - 65536) % 1024) ∷ rest

-- `length` of a text.
abbrev pub unit_length : String → ℕ
unit_length s = length (units (codes s))

abbrev compare_units : List ℕ → List ℕ → Ordering
compare_units [] [] = Ordering.eq
compare_units [] (b ∷ t) = Ordering.lt
compare_units (a ∷ s) [] = Ordering.gt
compare_units (a ∷ s) (b ∷ t) =
    let rest = compare_units s t in
    elim (compare a b) [
      | Ordering.lt ↦ Ordering.lt
      | Ordering.gt ↦ Ordering.gt
      | Ordering.eq ↦ rest
    ]

-- The order of `sort` without a comparison.
abbrev pub unit_compare : String → String → Ordering
unit_compare s t = compare_units (units (codes s)) (units (codes t))

abbrev digit : ℕ → Char
digit zero = "0"
digit (suc zero) = "1"
digit (suc (suc zero)) = "2"
digit (suc (suc (suc zero))) = "3"
digit (suc (suc (suc (suc zero)))) = "4"
digit (suc (suc (suc (suc (suc zero))))) = "5"
digit (suc (suc (suc (suc (suc (suc zero)))))) = "6"
digit (suc (suc (suc (suc (suc (suc (suc zero))))))) = "7"
digit (suc (suc (suc (suc (suc (suc (suc (suc zero)))))))) = "8"
digit (suc (suc (suc (suc (suc (suc (suc (suc (suc n))))))))) = "9"

-- The digits of `n` before `tail`; each round drops one digit, so `n + 1` rounds are enough.
digits : ℕ → ℕ → String → String
digits zero n tail = tail
digits (suc fuel) n tail =
    let more = digits fuel (n / 10) (String.◌∷◌ (digit (n % 10)) tail) in
    if ltb n 10 then String.◌∷◌ (digit n) tail else more

-- `startsWith`, `includes`, and a global replacement of one literal text by another.
abbrev pub starts_with : List ℕ → List ℕ → Bool
starts_with [] s = true
starts_with (c ∷ p) [] = false
starts_with (c ∷ p) (d ∷ s) = c == d && starts_with p s

abbrev pub includes : List ℕ → List ℕ → Bool
includes part [] = starts_with part []
includes part (c ∷ s) = starts_with part (c ∷ s) || includes part s

-- `skip` characters of a replaced occurrence are left to drop.
abbrev pub replace_all : List ℕ → List ℕ → ℕ → List ℕ → List ℕ
replace_all part new skip [] = []
replace_all part new (suc skip) (c ∷ s) = replace_all part new skip s
replace_all part new zero (c ∷ s) =
    let replaced = new ++ replace_all part new (length part - 1) s in
    let kept = c ∷ replace_all part new zero s in
    if starts_with part (c ∷ s) then replaced else kept

-- The white space and line ends that `trim` takes off.
abbrev pub is_space : ℕ → Bool
is_space c =
    (ltb 8 c && ltb c 14)
    || any (λ n. n == c) (32 ∷ 160 ∷ 5760 ∷ 8232 ∷ 8233 ∷ 8239 ∷ 8287 ∷ 12288 ∷ 65279 ∷ [])
    || (leb 8192 c && leb c 8202)

abbrev pub trim_start : List ℕ → List ℕ
trim_start [] = []
trim_start (c ∷ s) = let rest = trim_start s in if is_space c then rest else c ∷ s

abbrev pub before_end : ℕ → List ℕ → List ℕ
before_end c [] = if is_space c then [] else c ∷ []
before_end c (d ∷ s) = c ∷ d ∷ s

abbrev pub trim_end : List ℕ → List ℕ
trim_end [] = []
trim_end (c ∷ s) = before_end c (trim_end s)

abbrev pub trim : List ℕ → List ℕ
trim s = trim_end (trim_start s)

abbrev pub same_text : List ℕ → List ℕ → Bool
same_text [] [] = true
same_text (a ∷ s) (b ∷ t) = (a == b) && same_text s t
same_text _ _ = false

-- An ASCII capital as a small letter.
abbrev pub lower : ℕ → ℕ
lower c = if ltb 64 c && ltb c 91 then c + 32 else c

unfoldable pub decimal : ℕ → String
unfolding digits
decimal n = digits (suc n) n ""

-- Reading digits back, from the left.
read : ℕ → String → ℕ
read v String.[] = v
read v (String.◌∷◌ c s) = read (10 * v + (code c - 48)) s

code-digit : (n : ℕ) → n < 10 → code (digit n) - 48 ≡ n
code-digit zero h = refl
code-digit (suc zero) h = refl
code-digit (suc (suc zero)) h = refl
code-digit (suc (suc (suc zero))) h = refl
code-digit (suc (suc (suc (suc zero)))) h = refl
code-digit (suc (suc (suc (suc (suc zero))))) h = refl
code-digit (suc (suc (suc (suc (suc (suc zero)))))) h = refl
code-digit (suc (suc (suc (suc (suc (suc (suc zero))))))) h = refl
code-digit (suc (suc (suc (suc (suc (suc (suc (suc zero)))))))) h = refl
code-digit (suc (suc (suc (suc (suc (suc (suc (suc (suc n))))))))) h = omega (arith)

read-digits : (fuel n : ℕ) (tail : String) → n < fuel → read 0 (digits fuel n tail) ≡ read n tail
unfolding digits read
read-digits zero n tail h = absurd (omega arith)
read-digits (suc fuel) n tail h = elim (Bool-cases (ltb n 10)) [
  | inl small ↦
      let few : n < 10 = ground arith in
      rw small (ap (λ v. read v tail) (omega (arith, code-digit n few)))
  | inr large ↦
      let many : 10 * (n / 10) + (code (digit (n % 10)) - 48) ≡ n =
        omega (arith, code-digit (n % 10) (omega arith)) in
      rw large (
        read-digits fuel (n / 10) (String.◌∷◌ (digit (n % 10)) tail) (ground arith)
        ∙ ap (λ v. read v tail) many)
]

-- Different numbers have different decimals.
pub decimal_injective : (m n : ℕ) → decimal m ≡ decimal n → m ≡ n
unfolding decimal read
decimal_injective m n e =
    sym (read-digits (suc m) m "" (omega arith))
    ∙ ap (read 0) e
    ∙ read-digits (suc n) n "" (omega arith)
