-- ===== src/Glob.antt =====
-- The glob test of write sets: `covered` in packages/task-graph/src/index.ts (lines 39 to 42) and
-- `globMatch` in packages/permission-gateway/src/index.ts (lines 98 to 103), which are the same code.
-- A glob is turned into a regular expression text and tested. Here the two steps are `compile`, which
-- reads the glob into what the parts of that expression match, and `matches`.
pub mod Laws
pub mod Subtree
pub mod Scanning
pub mod Meaning
mod Tests
use mathlib.Core.Option
use gateloop.Base.{
  ℕ, String, Bool, true, false, not, ◌&&◌, ◌||◌, Option, none, some, List, [], ◌∷◌, any, ◌==◌,
  if◌then◌else◌,
}
use gateloop.Base.Text.{codes}

-- `lit` an escaped or plain character, `opt` one followed by `?`, `seg` is `[^/]*`, `run` is `.*`.
pub data Item : Type 0 where
  lit opt : ℕ → Item
  seg run : Item

abbrev star : ℕ
star = 42

abbrev query : ℕ
query = 63

-- The placeholder that stands for `**` between the two replacements.
abbrev section_sign : ℕ
section_sign = 167

abbrev slash : ℕ
slash = 47

-- What `.` does not match.
abbrev pub is_line_end : ℕ → Bool
is_line_end c = c == 10 || c == 13 || c == 8232 || c == 8233

-- The parts of the expression text, `mark` for a `?` of the glob.
pub data Token : Type 0 where
  char : ℕ → Token
  segment rest_of_line mark : Token

abbrev pub plain_token : ℕ → Token
plain_token c = if c == section_sign then rest_of_line else if c == query then mark else char c

-- The replacements of `**` and of `*`; `pending` when one star is read that no second has followed.
abbrev pub scan : Bool → List ℕ → List Token
scan false [] = []
scan true [] = segment ∷ []
scan false (c ∷ s) =
    let rest = scan (c == star) s in if c == star then rest else plain_token c ∷ rest
scan true (c ∷ s) =
    let rest = scan false s in
    if c == star then rest_of_line ∷ rest else segment ∷ plain_token c ∷ rest

-- A `?` makes what stands before it optional, or lazy where that is repeated or optional already. With
-- nothing to repeat, `new RegExp` throws: `none`.
abbrev pub quantify : List Token → Option (List Item)
quantify [] = some []
quantify (mark ∷ ts) = none
quantify (char c ∷ mark ∷ mark ∷ ts) = Option.map (λ is. opt c ∷ is) (quantify ts)
quantify (char c ∷ mark ∷ ts) = Option.map (λ is. opt c ∷ is) (quantify ts)
quantify (char c ∷ ts) = Option.map (λ is. lit c ∷ is) (quantify ts)
quantify (segment ∷ mark ∷ ts) = Option.map (λ is. seg ∷ is) (quantify ts)
quantify (segment ∷ ts) = Option.map (λ is. seg ∷ is) (quantify ts)
quantify (rest_of_line ∷ mark ∷ ts) = Option.map (λ is. run ∷ is) (quantify ts)
quantify (rest_of_line ∷ ts) = Option.map (λ is. run ∷ is) (quantify ts)

unfoldable pub compile : String → Option (List Item)
compile glob = quantify (scan false (codes glob))

-- The whole text must match, by `^` and `$`.
unfoldable pub matches : List Item → List ℕ → Bool
matches [] [] = true
matches [] (x ∷ xs) = false
matches (lit c ∷ is) [] = false
matches (lit c ∷ is) (x ∷ xs) = x == c && matches is xs
matches (opt c ∷ is) [] = matches is []
matches (opt c ∷ is) (x ∷ xs) = elim (matches is (x ∷ xs)) [
  | true ↦ true
  | false ↦ x == c && matches is xs
]
matches (seg ∷ is) [] = matches is []
matches (seg ∷ is) (x ∷ xs) = elim (matches is (x ∷ xs)) [
  | true ↦ true
  | false ↦ not (x == slash) && matches (seg ∷ is) xs
]
matches (run ∷ is) [] = matches is []
matches (run ∷ is) (x ∷ xs) = elim (matches is (x ∷ xs)) [
  | true ↦ true
  | false ↦ not (is_line_end x) && matches (run ∷ is) xs
]

-- One glob on one path.
unfoldable pub glob_test : String → String → Option Bool
unfolding compile matches
glob_test glob path = Option.map (λ is. matches is (codes path)) (compile glob)

abbrev or_later : Bool → Option Bool → Option Bool
or_later true later = some true
or_later false later = later

-- `globs.some(…)`: the first match decides, and a glob that does not compile throws when reached.
unfoldable pub covered : String → List String → Option Bool
unfolding glob_test
covered path [] = some false
covered path (glob ∷ globs) =
    let later = covered path globs in
    elim (glob_test glob path) [ none ↦ none | some b ↦ or_later b later ]
