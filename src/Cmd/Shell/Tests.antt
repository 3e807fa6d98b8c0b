-- ===== src/Cmd/Shell/Tests.antt =====
-- Command lines.
use camellia.Base.{◌<◌, ◌⊎◌, length, ◌≡◌, refl, text, [], ◌∷◌, none, some, done, true, false}
use camellia.Cmd.Shell.Bounds.{parse_lem}
use camellia.Cmd.Shell.{
  parse, parse_from, parse_at, add_arg, parg, parg_at, redirect, unquoted, plain_end, quoted, cut,
  before_comment, skipspace, isspecial, Parsed,
}

parses :
    (parse (text "echo \"a b\" c >> f") 8
      ≡ done (
          some (record {
            argv = some (text "echo") ∷ some (text "a b") ∷ some (text "c") ∷ [];
            redir = record { stdout = some (text "f"); append = true };
          })))
    × (parse (text "a b") 2 ≡ done none)
unfolding parse parse_from parse_at add_arg parg parg_at redirect unquoted plain_end quoted cut
    before_comment skipspace isspecial
parses = (refl, refl)

-- The '>' that ends an argument is dropped with it, and a comment leaves an argument that is NULL.
dropped :
    (parse (text "a>b") 8
      ≡ done (
          some (record {
            argv = some (text "a") ∷ some (text "b") ∷ [];
            redir = record { stdout = none; append = false };
          })))
    × (parse (text "a #b") 8
        ≡ done (
            some (record {
              argv = some (text "a") ∷ none ∷ [];
              redir = record { stdout = none; append = false };
            })))
unfolding parse parse_from parse_at add_arg parg parg_at redirect unquoted plain_end quoted cut
    before_comment skipspace isspecial
dropped = (refl, refl)

parse_lem_example :
    (parse (text "echo hi > f") 8 ≡ done none)
    ⊎ ((q : Parsed) × (parse (text "echo hi > f") 8 ≡ done (some q)) × (length q.argv < 8))
parse_lem_example = parse_lem (text "echo hi > f") 8
