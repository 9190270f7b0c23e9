-- ===== src/Nolint.antt =====
-- Comments that suppress reports (internal/nolint/nolint.go).
pub mod Named
pub mod Lines
use safetylint.Base.{
  ℕ, zero, suc, ◌-◌, Bool, true, false, not, ◌&&◌, ◌||◌, List, [], ◌∷◌, ◌++◌, Option, none, some,
  ◌==◌, any, if◌then◌else◌,
}
use safetylint.Strings.{
  Text, is_empty, text_eq, is_prefix, behind, trim_space, split_by, before_slashes, before_blank,
}

-- `Umbrella`: safetylint
abbrev pub umbrella : Text
umbrella = b's' ∷ b'a' ∷ b'f' ∷ b'e' ∷ b't' ∷ b'y' ∷ b'l' ∷ b'i' ∷ b'n' ∷ b't' ∷ []

abbrev pub slashes : Text
slashes = b'/' ∷ b'/' ∷ []

-- the `prefix` of `parseNolint`
abbrev pub nolint : Text
nolint = b'n' ∷ b'o' ∷ b'l' ∷ b'i' ∷ b'n' ∷ b't' ∷ []

-- what the loop of `parseNolint` appends for a part
unfoldable pub part_names : Text → List Text
unfolding trim_space before_blank
part_names p =
    let q = trim_space p in
    if is_empty q then [] else if is_empty (before_blank q) then [] else before_blank q ∷ []

unfoldable pub all_part_names : List Text → List Text
unfolding part_names
all_part_names [] = []
all_part_names (p ∷ ps) = part_names p ++ all_part_names ps

-- the names behind the colon
unfoldable pub names_in : Text → List Text
unfolding all_part_names before_slashes trim_space split_by
names_in s =
    let rest = trim_space (before_slashes s) in
    if is_empty rest then [] else all_part_names (split_by (λ c. c == b',') rest)

-- what follows the word `nolint`
unfoldable pub names_behind : Text → List Text
unfolding names_in
names_behind [] = []
names_behind (c ∷ s) = if not (c == b':') then [] else names_in s

unfoldable pub parse_nolint : Text → List Text
unfolding names_behind trim_space
parse_nolint raw =
    let text = trim_space raw in
    if not (is_prefix slashes text)
    then []
    else let rest = trim_space (behind 2 text) in
      if not (is_prefix nolint rest) then [] else names_behind (behind 6 rest)

unfoldable pub comment_has : Text → Text → Bool
unfolding parse_nolint
comment_has text analyzer =
    any (λ name. text_eq name analyzer || text_eq name umbrella) (parse_nolint text)

-- `token.Position`, as far as it is read
pub record Position : Type 0 where
  pub filename : Text
  pub line : ℕ

-- `ast.Comment` and `ast.File`
pub record Comment : Type 0 where
  pub pos : ℕ
  pub text : Text

pub record File : Type 0 where
  pub pos : ℕ
  pub comments : List (List Comment)

-- `position` is `pass.Fset.Position`, which go/token has; a `token.Pos` is valid unless it is 0
module _ (position : ℕ → Position) where
  unfoldable pub file_for : List File → Text → Option File
  file_for [] name = none
  file_for (f ∷ fs) name =
      if text_eq (Position.filename (position (File.pos f))) name then some f else file_for fs name

  -- the body of the inner loop of `Suppressed`
  unfoldable pub comment_suppresses : Position → Text → Comment → Bool
  unfolding comment_has
  comment_suppresses target analyzer c =
      let cl = position c.pos in
      if not (text_eq cl.filename target.filename)
      then false
      else if not (cl.line == target.line) && not (cl.line == target.line - 1)
      then false
      else comment_has c.text analyzer

  unfoldable pub suppressed : List File → ℕ → Text → Bool
  unfolding file_for comment_suppresses
  suppressed files pos analyzer =
      if pos == 0 || is_empty analyzer
      then false
      else let target = position pos in
        if is_empty target.filename || target.line == 0
        then false
        else elim (file_for files target.filename) [
          | none ↦ false
          | some f ↦ any (λ cg. any (comment_suppresses target analyzer) cg) f.comments
        ]
