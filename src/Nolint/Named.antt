-- ===== src/Nolint/Named.antt =====
-- The names that are printed into a comment are read back.
use safetylint.Base.{
  ℕ, ◌≡◌, refl, ap, ◌∙◌, arith, Bool, true, false, ◌||◌, List, [], ◌∷◌, ◌++◌, Option, none, some,
  ◌==◌, Memᴰ,
}
use mathlib.Core.List.{append-nil}
use safetylint.Strings.{
  Text, is_empty, is_space, trim_right, trim_space, join, before_slashes, before_blank,
}
use safetylint.Strings.Laws.{
  Avoids, split_by-join, Avoids-join, trim_space-plain, trim_space-word, trim_right-plain,
}
use safetylint.Nolint.{parse_nolint, names_in, all_part_names, part_names, slashes, nolint}

-- white space, a comma or a slash
abbrev pub is_mark : ℕ → Bool
is_mark c = is_space c || c == b',' || c == b'/'

-- A name of a linter: some code points, none of them a mark.
abbrev pub IsName : Text → Type 0
IsName n = (is_empty n ≡ false) × Avoids is_mark n

abbrev space_or_slash : ℕ → Bool
space_or_slash c = is_space c || c == b'/'

-- the reason behind the names
abbrev pub reason_text : Option Text → Text
reason_text none = []
reason_text (some r) = b' ' ∷ b'/' ∷ b'/' ∷ r

-- `//nolint:a,b // reason`
abbrev pub print_nolint : List Text → Option Text → Text
print_nolint names reason =
    slashes ++ (nolint ++ (b':' ∷ (join (b',' ∷ []) names ++ reason_text reason)))

weaken : (p q : ℕ → Bool) (w : Text) → ((c : ℕ) → q c ≡ true → p c ≡ true) → Avoids p w → Avoids q w
weaken p q [] h k = refl
weaken p q (c ∷ w) h k = let r = weaken p q w h (ground arith) in let hc = h c in ground arith

reason_trimmed :
    (o : Option Text) → (o' : Option Text) × (trim_right (reason_text o) ≡ reason_text o')
unfolding trim_right
reason_trimmed none = (none, refl)
reason_trimmed (some r) = (some (trim_right r), refl)

-- the blank before a reason
abbrev blank_of : Option Text → Text
blank_of none = []
blank_of (some r) = b' ' ∷ []

blank_trimmed : (o : Option Text) → trim_right (blank_of o) ≡ []
unfolding trim_right
blank_trimmed none = refl
blank_trimmed (some r) = refl

before_reason :
    (w : Text) (o : Option Text)
    → Avoids (λ c. c == b'/') w
    → before_slashes (w ++ reason_text o) ≡ w ++ blank_of o
unfolding before_slashes
before_reason [] none h = refl
before_reason [] (some r) h = refl
before_reason (c ∷ w) o h =
    let e : b'/' == c ≡ false = ground arith in
    let k : Avoids (λ c. c == b'/') w = ground arith in rw (e, before_reason w o k) refl

before_blank-word : (w : Text) → Avoids is_space w → before_blank w ≡ w
unfolding before_blank is_space
before_blank-word [] h = refl
before_blank-word (c ∷ w) h =
    let e : c == b' ' || c == b'\t' ≡ false = ground arith in
    let k : Avoids is_space w = ground arith in rw (e, before_blank-word w k) refl

name_word : (n : Text) → Avoids is_mark n → Avoids is_space n
name_word n h = weaken is_mark is_space n (λ c e. ground arith) h

part_names-name : (n : Text) → IsName n → part_names n ≡ n ∷ []
unfolding part_names
part_names-name n h =
    rw (trim_space-word n (name_word n h.1) h.0, h.0, before_blank-word n (name_word n h.1), h.0)
      refl

all_part_names-names :
    (ns : List Text) → ((n : Text) → Memᴰ n ns → IsName n) → all_part_names ns ≡ ns
unfolding all_part_names
all_part_names-names [] h = refl
all_part_names-names (n ∷ ns) h =
    rw
      (part_names-name n (h n (Memᴰ.head refl)), all_part_names-names ns (λ m k. h m (Memᴰ.tail k)))
      refl

join-not-empty :
    (n : Text) (ns : List Text) → is_empty n ≡ false → is_empty (join (b',' ∷ []) (n ∷ ns)) ≡ false
join-not-empty [] ns h = cc
join-not-empty (c ∷ n) [] h = refl
join-not-empty (c ∷ n) (m ∷ ns) h = refl

printed-no_space :
    (n : Text) (ns : List Text)
    → ((m : Text) → Memᴰ m (n ∷ ns) → IsName m)
    → Avoids is_space (join (b',' ∷ []) (n ∷ ns))
unfolding is_space
printed-no_space n ns h =
    Avoids-join is_space (b',' ∷ []) (n ∷ ns) refl (λ m k. name_word m (h m k).1)

names_in-printed :
    (n : Text) (ns : List Text) (o : Option Text)
    → ((m : Text) → Memᴰ m (n ∷ ns) → IsName m)
    → names_in (join (b',' ∷ []) (n ∷ ns) ++ reason_text o) ≡ n ∷ ns
unfolding names_in
names_in-printed n ns o h =
    let body = join (b',' ∷ []) (n ∷ ns) in
    let full = join-not-empty n ns (h n (Memᴰ.head refl)).0 in
    let no_slash : Avoids (λ c. c == b'/') body =
      Avoids-join (λ c. c == b'/') (b',' ∷ []) (n ∷ ns) refl
        (λ m k. weaken is_mark (λ c. c == b'/') m (λ c e. ground arith) (h m k).1) in
    let no_space : Avoids is_space body = printed-no_space n ns h in
    let trimmed : trim_space (body ++ blank_of o) ≡ body =
      trim_space-plain body (blank_of o) no_space full
      ∙ ap (λ z. body ++ z) (blank_trimmed o)
      ∙ append-nil body in
    rw
      (
        before_reason body o no_slash,
        trimmed,
        full,
        split_by-join (λ c. c == b',') b',' n ns refl
            (λ m k. weaken is_mark (λ c. c == b',') m (λ c e. ground arith) (h m k).1),
        all_part_names-names (n ∷ ns) h,
      )
      refl

-- parseNolint reads back the names that a comment of the form //nolint:a,b, with or without a
-- reason behind a second pair of slashes, is printed from; there is one name at least, and a name
-- is not empty and has no white space, comma or slash.
pub parse-print_nolint :
    (n : Text) (ns : List Text) (reason : Option Text)
    → ((m : Text) → Memᴰ m (n ∷ ns) → IsName m)
    → parse_nolint (print_nolint (n ∷ ns) reason) ≡ n ∷ ns
unfolding parse_nolint
parse-print_nolint n ns reason h =
    let body = join (b',' ∷ []) (n ∷ ns) in
    let plain = printed-no_space n ns h in
    let (once, e) = reason_trimmed reason in
    let (twice, q) = reason_trimmed once in
    ap (λ z. names_in (trim_right z))
      (trim_right-plain body (reason_text reason) plain ∙ ap (λ z. body ++ z) e)
    ∙ ap names_in (trim_right-plain body (reason_text once) plain ∙ ap (λ z. body ++ z) q)
    ∙ names_in-printed n ns twice h
