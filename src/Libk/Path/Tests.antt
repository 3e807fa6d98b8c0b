-- ===== src/Libk/Path/Tests.antt =====
-- `path_simplify` on paths that its documentation and src/cmd/tests/kernel/path.c name, and the
-- theorems at such paths.
use camellia.Base.{text, ℕ, ◌≡◌, refl, List, [], Option, none, some, Outcome, done}
use camellia.Libk.Path.{kind, segment, after_segment, write, backtrack, finish, loop, simplify}
use camellia.Libk.Path.Refine.{simplify_refines}
use camellia.Libk.Path.Spec.{canonical}

run : List ℕ → Outcome (Option (List ℕ))
unfolding kind segment after_segment write backtrack finish loop simplify
run p = simplify p

accepts :
    (run (text "/some/./long/../path//") ≡ done (some (text "/some/path/")))
    × (run (text "/a/..") ≡ done (some (text "/")))
    × (run (text "/.a/...") ≡ done (some (text "/.a/...")))
    × (run (text "/asdf/") ≡ done (some (text "/asdf/")))
unfolding run
accepts = (refl, refl, refl, refl)

rejects :
    (run [] ≡ done none) × (run (text "relative") ≡ done none) × (run (text "/a/../..") ≡ done none)
unfolding run
rejects = (refl, refl, refl)

dotted : simplify (text "/a/./b/..") ≡ done (some (text "/a/"))
unfolding run
dotted = refl

simplify_refines_example : simplify (text "/a/./b/..") ≡ done (canonical (text "/a/./b/.."))
simplify_refines_example = simplify_refines (text "/a/./b/..")
