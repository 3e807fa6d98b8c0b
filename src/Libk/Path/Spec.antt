-- ===== src/Libk/Path/Spec.antt =====
-- What `path_simplify` computes, said of the components of a path.
use mathlib.Core.Option
use camellia.Base.{
  ℕ, List, [], ◌∷◌, ◌++◌, Bool, true, false, Option, none, some, ◌==◌, if◌then◌else◌,
}
use camellia.Libk.Path.{here, parent, name, kind}

-- prepends a byte to the first of the parts
abbrev pub onto_first : ℕ → List (List ℕ) → List (List ℕ)
onto_first c [] = (c ∷ []) ∷ []
onto_first c (p ∷ ps) = (c ∷ p) ∷ ps

-- the parts between slashes
unfoldable pub split : List ℕ → List (List ℕ)
split [] = [] ∷ []
split (c ∷ s) = if c == b'/' then [] ∷ split s else onto_first c (split s)

-- the components left when "" and "." are dropped and ".." removes the one before it; the last
-- component comes first, and `none` means that ".." had none to remove
unfoldable pub resolve : List (List ℕ) → List (List ℕ) → Option (List (List ℕ))
resolve [] names = some names
resolve (p ∷ ps) names = elim (kind p) [
  | here ↦ resolve ps names
  | parent ↦ elim names [ [] ↦ none | n ∷ ns ↦ resolve ps ns ]
  | name ↦ resolve ps (p ∷ names)
]

-- a path names a directory if it ends in "", "." or ".."
unfoldable pub ends_dir : List (List ℕ) → Bool → Bool
ends_dir [] dir = dir
ends_dir (p ∷ ps) dir = ends_dir ps (elim (kind p) [ name ↦ false | _ ↦ true ])

-- "/" and the name, for every component
unfoldable pub render : List (List ℕ) → List ℕ
render [] = []
render (n ∷ ns) = render ns ++ (b'/' ∷ n)

abbrev pub closing : Bool → List ℕ
closing true = b'/' ∷ []
closing false = []

unfoldable pub canonical : List ℕ → Option (List ℕ)
canonical [] = none
canonical (c ∷ s) =
    if c == b'/'
    then Option.map (λ names. render names ++ closing (ends_dir (split s) false))
        (resolve (split s) [])
    else none
