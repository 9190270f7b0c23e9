-- ===== src/Strings.antt =====
-- What the source uses of Go's package strings. A text is the list of its code points: Go source
-- and arguments are read as UTF-8.
pub mod Laws
use safetylint.Base.{
  ℕ, zero, suc, Bool, true, false, not, ◌&&◌, ◌||◌, List, [], ◌∷◌, ◌++◌, ◌==◌, leb, if◌then◌else◌,
  reject,
}

abbrev pub Text : Type 0
Text = List ℕ

abbrev pub is_empty : {A : Type 0} → List A → Bool
is_empty [] = true
is_empty (x ∷ xs) = false

abbrev pub text_eq : Text → Text → Bool
text_eq [] [] = true
text_eq [] (d ∷ t) = false
text_eq (c ∷ s) [] = false
text_eq (c ∷ s) (d ∷ t) = c == d && text_eq s t

abbrev pub one_of_text : Text → List Text → Bool
one_of_text s [] = false
one_of_text s (t ∷ ts) = text_eq s t || one_of_text s ts

-- `unicode.IsSpace`
unfoldable pub is_space : ℕ → Bool
is_space c =
    (leb 9 c && leb c 13)
    || c == 32
    || c == 133
    || c == 160
    || c == 5760
    || (leb 8192 c && leb c 8202)
    || c == 8232
    || c == 8233
    || c == 8239
    || c == 8287
    || c == 12288

-- `strings.HasPrefix(s, p)`, the prefix first, and what is behind the prefix
abbrev pub is_prefix : Text → Text → Bool
is_prefix [] s = true
is_prefix (c ∷ p) [] = false
is_prefix (c ∷ p) (d ∷ s) = c == d && is_prefix p s

-- `s[n:]` where `s` is that long
abbrev pub behind : ℕ → Text → Text
behind zero s = s
behind (suc n) [] = []
behind (suc n) (c ∷ s) = behind n s

unfoldable pub trim_left : Text → Text
unfolding is_space
trim_left [] = []
trim_left (c ∷ s) = let rest = trim_left s in if is_space c then rest else c ∷ s

unfoldable pub trim_right : Text → Text
unfolding is_space
trim_right [] = []
trim_right (c ∷ s) = let rest = trim_right s in if is_space c && is_empty rest then [] else c ∷ rest

-- `strings.TrimSpace`
unfoldable pub trim_space : Text → Text
unfolding trim_left trim_right
trim_space s = trim_right (trim_left s)

abbrev pub add_to_first : ℕ → List Text → List Text
add_to_first c [] = (c ∷ []) ∷ []
add_to_first c (w ∷ ws) = (c ∷ w) ∷ ws

-- the pieces between the code points that pass the test: `strings.Split` for one code point
unfoldable pub split_by : (ℕ → Bool) → Text → List Text
split_by p [] = [] ∷ []
split_by p (c ∷ s) = let rest = split_by p s in if p c then [] ∷ rest else add_to_first c rest

-- `strings.Fields`
unfoldable pub text_fields : Text → List Text
unfolding split_by is_space
text_fields s = reject is_empty (split_by is_space s)

-- `strings.Join`, the separator first
abbrev pub join : Text → List Text → Text
join sep [] = []
join sep (w ∷ []) = w
join sep (w ∷ v ∷ ws) = w ++ (sep ++ join sep (v ∷ ws))

-- `if i := strings.Index(s, "//"); i >= 0 { s = s[:i] }`
unfoldable pub before_slashes : Text → Text
before_slashes [] = []
before_slashes (c ∷ s) =
    let rest = before_slashes s in if is_prefix (b'/' ∷ b'/' ∷ []) (c ∷ s) then [] else c ∷ rest

-- `if i := strings.IndexAny(s, " \t"); i >= 0 { s = s[:i] }`
unfoldable pub before_blank : Text → Text
before_blank [] = []
before_blank (c ∷ s) = let rest = before_blank s in if c == b' ' || c == b'\t' then [] else c ∷ rest
