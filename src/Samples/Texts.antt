-- ===== src/Samples/Texts.antt =====
-- Comments, file positions and arguments to evaluate the readers of texts on.
use safetylint.Base.{
  ℕ, ◌≡◌, ◌↔◌, refl, true, false, List, [], ◌∷◌, ◌++◌, none, some, Memᴰ, inl, inr, sym, subst,
  reject, Bool,
}
use mathlib.Core.List.Memᴰ
use safetylint.Strings.{Text, is_space, trim_space, text_fields}
use safetylint.Nolint.{parse_nolint, Position, Comment, File, suppressed}
use safetylint.Nolint.Named.{IsName, print_nolint, parse-print_nolint}
use safetylint.Nolint.Lines.{IsSuppressed, suppressed_iff}
use safetylint.Command.{
  peel_build_tags, inject_goflags_tags, tags_word, tags_prefix, normal_tags, is_tags_flag,
}
use safetylint.Command.Items.{
  Item, print, ArePlain, others, tail, last_tags, has_tags, peel_build_tags_items,
}
use safetylint.Command.Flags.{inject_goflags_tags-fields}

abbrev word_ab : Text
word_ab = b'a' ∷ b'b' ∷ []

abbrev word_c : Text
word_c = b'c' ∷ []

names-IsName : (n : Text) → Memᴰ n (word_ab ∷ word_c ∷ []) → IsName n
unfolding is_space
names-IsName n m = elim (Memᴰ.cases_cons m) [
  | inl e ↦ subst IsName (sym e) (refl, refl)
  | inr k ↦ elim (Memᴰ.cases_cons k) [
    | inl e ↦ subst IsName (sym e) (refl, refl)
    | inr l ↦ absurd (Memᴰ.not-nil l)
  ]
]

-- `//nolint:ab,c // c`
parse-print_nolint_example :
    parse_nolint (print_nolint (word_ab ∷ word_c ∷ []) (some word_c)) ≡ word_ab ∷ word_c ∷ []
parse-print_nolint_example = parse-print_nolint word_ab (word_c ∷ []) (some word_c) names-IsName

-- `//nolint` names nothing.
bare : parse_nolint (b'/' ∷ b'/' ∷ b'n' ∷ b'o' ∷ b'l' ∷ b'i' ∷ b'n' ∷ b't' ∷ []) ≡ []
unfolding parse_nolint
bare = refl

-- every place is in the file `c`, and a place's number is its line
abbrev place : ℕ → Position
place n = record { filename = word_c; line = n }

abbrev comment : Comment
comment = record { pos = 4; text = print_nolint (word_ab ∷ []) none }

abbrev files : List File
files = record { pos = 1; comments = (comment ∷ []) ∷ [] } ∷ []

-- The comment on line 4 suppresses a report on line 5, not one on line 6.
on_next_line : suppressed place files 5 word_ab ≡ true
unfolding suppressed
on_next_line = refl

two_lines_on : suppressed place files 6 word_ab ≡ false
unfolding suppressed
two_lines_on = refl

suppressed_iff_example :
    (suppressed place files 5 word_ab ≡ true) ↔ IsSuppressed place files 5 word_ab
suppressed_iff_example = suppressed_iff place files 5 word_ab

-- `ab -tags c -tags=ab c`
abbrev args : List Text
args = word_ab ∷ tags_word ∷ word_c ∷ (tags_prefix ++ word_ab) ∷ word_c ∷ []

peeled :
    peel_build_tags args ≡ record { args = word_ab ∷ word_c ∷ []; tags = word_ab; found = true }
unfolding peel_build_tags
peeled = refl

peel_build_tags_items_example :
    (items : List Item) × (bare : Bool) × (args ≡ print items bare)
    × ArePlain items
    × (peel_build_tags args ≡ record {
      args = others items ++ tail bare;
      tags = last_tags [] items;
      found = has_tags false items;
    })
peel_build_tags_items_example = peel_build_tags_items args

-- ` ab -tags=c` with the tags `c`
abbrev old_flags : Text
old_flags = b' ' ∷ (word_ab ++ b' ' ∷ (tags_prefix ++ word_c))

abbrev new_flags : Text
new_flags = word_ab ++ b' ' ∷ (tags_prefix ++ word_c)

injected : inject_goflags_tags word_c old_flags ≡ some new_flags
unfolding inject_goflags_tags
injected = refl

inject_goflags_tags-fields_example :
    text_fields new_flags
    ≡ reject is_tags_flag (text_fields (trim_space old_flags))
      ++ (tags_prefix ++ normal_tags word_c) ∷ []
inject_goflags_tags-fields_example = inject_goflags_tags-fields word_c old_flags new_flags injected
