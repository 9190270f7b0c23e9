-- ===== src/Base/Text.antt =====
-- Comparing the names and paths that the program reads as whole texts.
use Prim.Native.String.{String}
use Prim.Native.Char.{code}
use mathlib.Core.Bool.{Bool, true, false, ◌||◌, ◌&&◌}
use mathlib.Core.List.{List, [], ◌∷◌}
use mathlib.Core.Option.{Option, none, some}
use safetylint.Base.Tests.{◌==◌, if◌then◌else◌}
use text.Mathlib.Text.{◌==◌ as str_eq'}

abbrev pub str_eq : String → String → Bool
str_eq s t = str_eq' s t

-- `case "a", "b":` of a switch on a text.
abbrev pub one_of : String → List String → Bool
one_of s [] = false
one_of s (t ∷ ts) = str_eq s t || one_of s ts

-- The part of a text behind its last dot: `if i := strings.LastIndex(s, "."); i >= 0 { s = s[i+1:] }`.
pub after_dot : String → Option String
after_dot String.[] = none
after_dot (String.◌∷◌ c s) = elim (after_dot s) [
  | some t ↦ some t
  | none ↦ if code c == b'.' then some s else none
]

unfoldable pub base_name : String → String
unfolding after_dot
base_name s = elim (after_dot s) [ some t ↦ t | none ↦ s ]

-- The part of a text before the first `[`: `if i := strings.IndexByte(s, '['); i >= 0 { s = s[:i] }`.
unfoldable pub before_bracket : String → String
before_bracket String.[] = ""
before_bracket (String.◌∷◌ c s) =
    let rest = before_bracket s in if code c == b'[' then "" else String.◌∷◌ c rest

-- `strings.HasPrefix(s, p)`, the prefix first
pub has_prefix : String → String → Bool
has_prefix String.[] s = true
has_prefix (String.◌∷◌ c p) String.[] = false
has_prefix (String.◌∷◌ c p) (String.◌∷◌ d s) = code c == code d && has_prefix p s
