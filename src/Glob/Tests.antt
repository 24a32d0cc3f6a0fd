-- ===== src/Glob/Tests.antt =====
-- The globs of write sets at concrete texts.
use gateloop.Base.{
  ℕ, true, false, none, some, List, [], ◌∷◌, ◌++◌, ◌≡◌, refl, ◌↔◌, Bool, arith, All,
}
use gateloop.Base.Text.{codes}
use gateloop.Glob.{matches, compile, glob_test, covered}
use gateloop.Glob.Scanning.{IsSimple}
use gateloop.Glob.Meaning.{Covers, glob_iff}
use gateloop.Glob.Subtree.{IsPlain, NoLineEnd, glob_subtree_iff}

program : Unit {0}
unfolding compile matches glob_test covered
program = tt

star_stays_in_folder : glob_test "src/*.ts" "src/a/b.ts" ≡ some false
unfolding program
star_stays_in_folder = refl

star_takes_file : glob_test "src/*.ts" "src/b.ts" ≡ some true
unfolding program
star_takes_file = refl

bare_query_throws : glob_test "?" "a" ≡ none
unfolding program
bare_query_throws = refl

covered_by_second : covered "docs/a/b.md" ("src/**" ∷ "docs/**" ∷ []) ≡ some true
unfolding program
covered_by_second = refl

IsSimple-sources : All IsSimple (codes "src/**/*.ts")
IsSimple-sources = ground arith

glob_iff_example :
    ((b : Bool) × (glob_test "src/**/*.ts" "src/a/b/c.ts" ≡ some b))
    × ((glob_test "src/**/*.ts" "src/a/b/c.ts" ≡ some true)
        ↔ Covers (codes "src/**/*.ts") (codes "src/a/b/c.ts"))
glob_iff_example = glob_iff "src/**/*.ts" "src/a/b/c.ts" IsSimple-sources

IsPlain-folder : All IsPlain (codes "src/")
IsPlain-folder = ground arith

glob_subtree_iff_example :
    (glob_test "src/**" "src/a/b" ≡ some true)
    ↔ ((rest : List ℕ) × (codes "src/a/b" ≡ codes "src/" ++ rest) × NoLineEnd rest)
glob_subtree_iff_example = glob_subtree_iff "src/**" "src/a/b" (codes "src/") refl IsPlain-folder
