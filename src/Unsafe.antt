-- ===== src/Unsafe.antt =====
-- The compiler directives and the uses of package reflect that are reported
-- (internal/nounsafe/nounsafe.go).
pub mod Visible
use safetylint.Base.{
  ℕ, Bool, true, false, not, ◌&&◌, List, [], ◌∷◌, ◌++◌, Option, none, some, if◌then◌else◌,
}
use safetylint.Strings.{Text, text_eq, one_of_text, is_prefix, behind, trim_space, before_blank}
use safetylint.Nolint.{Position, Comment, File, suppressed}

-- what is reported: the message without its common end
pub data Kind : Type 0 where
  linkname : Kind
  cgo_directive reflect_use : Text → Kind

pub record Report : Type 0 where
  pub pos : ℕ
  pub kind : Kind

-- an identifier with what `TypesInfo.Uses` has for it: an object's package path, if it has a
-- package, and its name
pub record Ident : Type 0 where
  pub pos : ℕ
  pub uses : Option (Option Text × Text)

-- the syntax as far as the walk tells its nodes apart
mutual
  pub data Node : Type 0 where
    selector : Node → Ident → Node
    ident : Ident → Node
    other : Nodes → Node

  pub data Nodes : Type 0 where
    nil : Nodes
    cons : Node → Nodes → Nodes

-- `nounsafe`
abbrev pub analyzer : Text
analyzer = b'n' ∷ b'o' ∷ b'u' ∷ b'n' ∷ b's' ∷ b'a' ∷ b'f' ∷ b'e' ∷ []

-- `//go:`
abbrev pub directive_prefix : Text
directive_prefix = b'/' ∷ b'/' ∷ b'g' ∷ b'o' ∷ b':' ∷ []

abbrev pub linkname_word : Text
linkname_word = b'l' ∷ b'i' ∷ b'n' ∷ b'k' ∷ b'n' ∷ b'a' ∷ b'm' ∷ b'e' ∷ []

abbrev pub cgo_prefix : Text
cgo_prefix = b'c' ∷ b'g' ∷ b'o' ∷ b'_' ∷ []

abbrev pub reflect_path : Text
reflect_path = b'r' ∷ b'e' ∷ b'f' ∷ b'l' ∷ b'e' ∷ b'c' ∷ b't' ∷ []

-- `UnsafePointer`, `UnsafeAddr`, `SliceHeader` and `StringHeader`
abbrev pub hatches : List Text
hatches =
    (b'U' ∷ b'n' ∷ b's' ∷ b'a' ∷ b'f' ∷ b'e' ∷ b'P' ∷ b'o' ∷ b'i' ∷ b'n' ∷ b't' ∷ b'e' ∷ b'r' ∷ [])
    ∷ (b'U' ∷ b'n' ∷ b's' ∷ b'a' ∷ b'f' ∷ b'e' ∷ b'A' ∷ b'd' ∷ b'd' ∷ b'r' ∷ [])
    ∷ (b'S' ∷ b'l' ∷ b'i' ∷ b'c' ∷ b'e' ∷ b'H' ∷ b'e' ∷ b'a' ∷ b'd' ∷ b'e' ∷ b'r' ∷ [])
    ∷ (b'S' ∷ b't' ∷ b'r' ∷ b'i' ∷ b'n' ∷ b'g' ∷ b'H' ∷ b'e' ∷ b'a' ∷ b'd' ∷ b'e' ∷ b'r' ∷ [])
    ∷ []

-- the kind of a directive's text, in the switch of `checkDirectives`
unfoldable pub directive_kind : Text → Option Kind
unfolding trim_space before_blank
directive_kind raw =
    let text = trim_space raw in
    if not (is_prefix directive_prefix text)
    then none
    else let name = before_blank (behind 5 text) in
      if text_eq name linkname_word
      then some linkname
      else if is_prefix cgo_prefix name
      then some (cgo_directive name)
      else none

-- the reflect use that an identifier is, in `checkReflectObj`
unfoldable pub reflect_kind : Ident → Option Kind
reflect_kind id = elim id.uses [
  | some (some path, name) ↦
      if text_eq path reflect_path && one_of_text name hatches
      then some (reflect_use name)
      else none
  | _ ↦ none
]

-- `files` and `position` are those of the pass, for the comments that suppress a report
module _ (position : ℕ → Position) (files : List File) where
  -- `reportf`
  unfoldable pub report : ℕ → Option Kind → List Report
  unfolding suppressed
  report pos none = []
  report pos (some kind) =
      if suppressed position files pos analyzer then [] else record { pos = pos; kind = kind } ∷ []

  unfoldable pub check_group : List Comment → List Report
  unfolding report directive_kind
  check_group [] = []
  check_group (c ∷ cs) = report c.pos (directive_kind c.text) ++ check_group cs

  unfoldable pub check_directives : List (List Comment) → List Report
  unfolding check_group
  check_directives [] = []
  check_directives (g ∷ gs) = check_group g ++ check_directives gs

  unfoldable pub check_reflect_obj : Ident → List Report
  unfolding report reflect_kind
  check_reflect_obj id = report id.pos (reflect_kind id)

  -- the function that `insp.Nodes` is given, in a file that cgo did not generate: it goes into
  -- the children of other nodes, not into those of a selector
  unfoldable mutual
    unfolding check_reflect_obj

    pub walk : Node → List Report
    walk (selector x sel) = check_reflect_obj sel
    walk (ident id) = check_reflect_obj id
    walk (other children) = walk_all children

    pub walk_all : Nodes → List Report
    walk_all nil = []
    walk_all (cons n ns) = walk n ++ walk_all ns
