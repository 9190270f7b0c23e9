-- ===== src/Command.antt =====
-- The build tags of the command (cmd/safetylint/main.go).
pub mod Flags
pub mod Items
use safetylint.Base.{
  ℕ, zero, suc, Bool, true, false, not, ◌&&◌, ◌||◌, List, [], ◌∷◌, ◌++◌, Option, none, some, ◌==◌,
  map, reject, if◌then◌else◌,
}
use safetylint.Strings.{Text, is_empty, text_eq, is_prefix, behind, trim_space, text_fields, join}

-- `-tags` and `-tags=`
abbrev pub tags_word : Text
tags_word = b'-' ∷ b't' ∷ b'a' ∷ b'g' ∷ b's' ∷ []

abbrev pub tags_prefix : Text
tags_prefix = b'-' ∷ b't' ∷ b'a' ∷ b'g' ∷ b's' ∷ b'=' ∷ []

-- the arguments that are left, and the two results of `peelBuildTags`
pub record Peeled : Type 0 where
  pub args : List Text
  pub tags : Text
  pub found : Bool

abbrev pub keep_arg : Text → Peeled → Peeled
keep_arg a p = record { args = a ∷ p.args; tags = p.tags; found = p.found }

-- the loop of `peelBuildTags`, with the tags found so far
unfoldable pub peel_from : List Text → Text → Bool → Peeled
peel_from [] tags found = record { args = []; tags = tags; found = found }
peel_from (a ∷ []) tags found =
    if is_prefix tags_prefix a
    then record { args = []; tags = behind 6 a; found = true }
    else record { args = a ∷ []; tags = tags; found = found }
peel_from (a ∷ b ∷ rest) tags found =
    if text_eq a tags_word
    then peel_from rest b true
    else if is_prefix tags_prefix a
    then peel_from (b ∷ rest) (behind 6 a) true
    else keep_arg a (peel_from (b ∷ rest) tags found)

unfoldable pub peel_build_tags : List Text → Peeled
unfolding peel_from
peel_build_tags args = peel_from args [] false

-- `strings.ReplaceAll(tags, ",", " ")`
abbrev pub commas_to_blanks : Text → Text
commas_to_blanks s = map (λ c. if c == b',' then b' ' else c) s

unfoldable pub normal_tags : Text → Text
unfolding text_fields
normal_tags tags = join (b',' ∷ []) (text_fields (commas_to_blanks tags))

abbrev pub is_tags_flag : Text → Bool
is_tags_flag p = text_eq p tags_word || is_prefix tags_prefix p

-- `injectGOFLAGSTags`, on the tags and the old value of GOFLAGS: the new value, or `none` for the
-- error
unfoldable pub inject_goflags_tags : Text → Text → Option Text
unfolding normal_tags trim_space text_fields
inject_goflags_tags tags old =
    let t = normal_tags tags in
    if is_empty t
    then none
    else let flag = tags_prefix ++ t in
      let gf = trim_space old in
      if is_empty gf
      then some flag
      else some (join (b' ' ∷ []) (reject is_tags_flag (text_fields gf) ++ flag ∷ []))
