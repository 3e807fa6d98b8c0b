-- ===== src/Cmd/Shell.antt =====
-- The parser of command lines, src/cmd/shell/parser.c. A string is the list of its characters up to
-- the NUL byte. The parser cuts its arguments out of the line in place, so that an argument is a part
-- of the line; `none` is NULL.
pub mod Ends
pub mod Bounds
mod Tests
use camellia.Base.{
  ℕ, zero, suc, ◌+◌, List, [], ◌∷◌, ◌++◌, Bool, true, false, ◌&&◌, ◌||◌, not, Option, none, some,
  Outcome, done, panic, ◌==◌, leb, if◌then◌else◌, length,
}

-- struct redir
pub record Redir : Type 0 where
  pub stdout : Option (List ℕ)
  pub append : Bool

-- isspace of src/libc/ctype.c
abbrev pub isspace : ℕ → Bool
isspace c = c == b' ' || (c == 12 || (c == 10 || (c == 13 || (c == 9 || c == 11))))

unfoldable pub isspecial : ℕ → Bool
isspecial c = c == b'>' || c == b'#'

unfoldable pub skipspace : List ℕ → List ℕ
skipspace [] = []
skipspace (c ∷ s) = let rest = skipspace s in if isspace c then rest else c ∷ s

-- the characters up to a quote, and what is behind them
unfoldable pub quoted : List ℕ → List ℕ × List ℕ
quoted [] = ([], [])
quoted (c ∷ s) = let (arg, rest) = quoted s in if c == b'"' then ([], c ∷ s) else (c ∷ arg, rest)

-- the characters up to a space or a special one, and what is behind them
unfoldable pub unquoted : List ℕ → List ℕ × List ℕ
unquoted [] = ([], [])
unquoted (c ∷ s) =
    let (arg, rest) = unquoted s in
    if isspace c || isspecial c then ([], c ∷ s) else (c ∷ arg, rest)

-- `if (*s) *s++ = '\0'`
unfoldable pub cut : List ℕ → List ℕ
cut [] = []
cut (c ∷ s) = s

-- `res`, which is not NULL for an empty argument unless a comment follows
unfoldable pub before_comment : List ℕ → Option (List ℕ)
before_comment [] = none
before_comment (c ∷ arg) = some (c ∷ arg)

-- the end of an argument that is not quoted
unfoldable pub plain_end : List ℕ → List ℕ → Option (List ℕ) × List ℕ
plain_end arg [] = (some arg, [])
plain_end arg (c ∷ s) = if c == b'#' then (before_comment arg, []) else (some arg, s)

-- the argument at the first character that is no space
unfoldable pub parg_at : List ℕ → Option (List ℕ) × List ℕ
parg_at [] = (none, [])
parg_at (c ∷ s) =
    let (q, quote_rest) = quoted s in
    let (p, plain_rest) = unquoted (c ∷ s) in
    if c == b'"' then (some q, cut quote_rest) else plain_end p plain_rest

-- parg: the argument, and the string behind it
unfoldable pub parg : List ℕ → Option (List ℕ) × List ℕ
parg s = parg_at (skipspace s)

-- what the parser has of a line
pub record Parsed : Type 0 where
  pub argv : List (Option (List ℕ))
  pub redir : Redir

-- the case '>' of `parse`, behind this character
unfoldable pub redirect : Redir → List ℕ → Redir × List ℕ
redirect r [] = let (arg, rest) = parg [] in (record r { stdout = arg }, rest)
redirect r (c ∷ s) =
    let (arg, rest) = parg (c ∷ s) in
    let (arg', rest') = parg s in
    if c == b'>'
    then (record { stdout = arg'; append = true }, rest')
    else (record r { stdout = arg }, rest)

unfoldable pub add_arg :
    (argvlen : ℕ) → Parsed → Option (List ℕ) × List ℕ → Option (Parsed × List ℕ)
add_arg argvlen p (arg, rest) =
    let argv = p.argv ++ (arg ∷ []) in
    if leb argvlen (length argv) then none else some (record p { argv = argv }, rest)

-- the loop body of `parse`; `none` is the return of -1
unfoldable pub parse_at : (argvlen : ℕ) → Parsed → (c : ℕ) (s : List ℕ) → Option (Parsed × List ℕ)
parse_at argvlen p c s =
    let (redir, rest) = redirect p.redir s in
    if c == b'>' then some (record p { redir = redir }, rest) else add_arg argvlen p (parg (c ∷ s))

-- the loop of `parse`, on a string without spaces in front; `panic` is the lack of fuel, and `none` the
-- result -1
unfoldable pub parse_from : (fuel : ℕ) → (argvlen : ℕ) → Parsed → List ℕ → Outcome (Option Parsed)
parse_from fuel argvlen p [] = done (some p)
parse_from zero argvlen p (c ∷ s) = panic
parse_from (suc fuel) argvlen p (c ∷ s) = elim (parse_at argvlen p c s) [
  | none ↦ done none
  | some (p', rest) ↦ parse_from fuel argvlen p' (skipspace rest)
]

-- parse; each round takes a character
unfoldable pub parse : List ℕ → (argvlen : ℕ) → Outcome (Option Parsed)
parse s argvlen =
    let start : Parsed = record { argv = []; redir = record { stdout = none; append = false } } in
    if argvlen == 0 then done none else parse_from (length s) argvlen start (skipspace s)
