-- ===== src/Command/Items.antt =====
-- What `peelBuildTags` makes of a command line (cmd/safetylint/main.go), against a reading of the
-- line as a list of tag options and other arguments.
use safetylint.Base.{
  ◌≡◌, refl, Bool, true, false, List, [], ◌∷◌, ◌++◌, Bool-cases, inl, inr, ap, if◌then◌else◌, ◌∙◌,
}
use safetylint.Strings.{Text, text_eq, is_prefix, behind}
use safetylint.Strings.Laws.{text_eq-≡, is_prefix-behind}
use safetylint.Command.{Peeled, keep_arg, tags_word, tags_prefix, peel_from, peel_build_tags}

-- `-tags t`, `-tags=t`, and any other argument
pub data Item : Type 0 where
  apart : Text → Item
  joined : Text → Item
  plain : Text → Item

-- A `-tags` with nothing behind it, which may end the line.
abbrev pub tail : Bool → List Text
tail bare = if bare then tags_word ∷ [] else []

abbrev pub print : List Item → Bool → List Text
print [] bare = tail bare
print (apart t ∷ items) bare = tags_word ∷ t ∷ print items bare
print (joined t ∷ items) bare = (tags_prefix ++ t) ∷ print items bare
print (plain a ∷ items) bare = a ∷ print items bare

-- No argument that is read as another one looks like a tag option.
abbrev pub ArePlain : List Item → Type 0
ArePlain [] = Unit {0}
ArePlain (plain a ∷ items) =
    (text_eq a tags_word ≡ false) × (is_prefix tags_prefix a ≡ false) × ArePlain items
ArePlain (_ ∷ items) = ArePlain items

abbrev pub others : List Item → List Text
others [] = []
others (plain a ∷ items) = a ∷ others items
others (_ ∷ items) = others items

-- The tags of the last tag option, or the given ones where there is none.
abbrev pub last_tags : Text → List Item → Text
last_tags t [] = t
last_tags t (apart u ∷ items) = last_tags u items
last_tags t (joined u ∷ items) = last_tags u items
last_tags t (plain a ∷ items) = last_tags t items

abbrev pub has_tags : Bool → List Item → Bool
has_tags found [] = found
has_tags found (plain a ∷ items) = has_tags found items
has_tags found (_ ∷ items) = has_tags true items

abbrev result : Text → Bool → List Item → Bool → Peeled
result t found items bare = record {
  args = others items ++ tail bare;
  tags = last_tags t items;
  found = has_tags found items;
}

peel_from-joined :
    (t u : Text) (found : Bool) (rest : List Text)
    → peel_from ((tags_prefix ++ t) ∷ rest) u found ≡ peel_from rest t true
unfolding peel_from
peel_from-joined t u found [] = refl
peel_from-joined t u found (b ∷ rest) = refl

peel_from-plain :
    (a t : Text) (found : Bool) (rest : List Text)
    → text_eq a tags_word ≡ false
    → is_prefix tags_prefix a ≡ false
    → peel_from (a ∷ rest) t found ≡ keep_arg a (peel_from rest t found)
unfolding peel_from
peel_from-plain a t found [] w e = rw e refl
peel_from-plain a t found (b ∷ rest) w e = rw (w, e) refl

peel_from-print :
    (items : List Item) (bare : Bool) (t : Text) (found : Bool)
    → ArePlain items
    → peel_from (print items bare) t found ≡ result t found items bare
unfolding peel_from
peel_from-print [] true t found h = refl
peel_from-print [] false t found h = refl
peel_from-print (apart u ∷ items) bare t found h = peel_from-print items bare u true h
peel_from-print (joined u ∷ items) bare t found h =
    peel_from-joined u t found (print items bare) ∙ peel_from-print items bare u true h
peel_from-print (plain a ∷ items) bare t found h =
    peel_from-plain a t found (print items bare) h.0 h.1
    ∙ ap (keep_arg a) (peel_from-print items bare t found h.2)

-- A line, read as its items.
pub record Reading (args : List Text) : Type 0 where
  pub items : List Item
  pub bare : Bool
  pub place : args ≡ print items bare
  pub are_plain : ArePlain items

read_next :
    (a : Text) (rest : List Text)
    → is_prefix tags_prefix a ≡ true
    → Reading rest
    → Reading (a ∷ rest)
read_next a rest h r = record {
  items = joined (behind 6 a) ∷ r.items;
  bare = r.bare;
  place = cc (is_prefix-behind tags_prefix a h, r.place);
  are_plain = r.are_plain;
}

read_plain :
    (a : Text) (rest : List Text)
    → text_eq a tags_word ≡ false
    → is_prefix tags_prefix a ≡ false
    → Reading rest
    → Reading (a ∷ rest)
read_plain a rest w e r = record {
  items = plain a ∷ r.items;
  bare = r.bare;
  place = ap (λ xs. a ∷ xs) r.place;
  are_plain = (w, e, r.are_plain);
}

nothing : Reading []
nothing = record { items = []; bare = false; place = refl; are_plain = tt }

bare_word : (a : Text) → text_eq a tags_word ≡ true → Reading (a ∷ [])
bare_word a w = record {
  items = [];
  bare = true;
  place = ap (λ x. x ∷ []) (text_eq-≡ a tags_word w);
  are_plain = tt;
}

read_apart :
    (a b : Text) (rest : List Text)
    → text_eq a tags_word ≡ true
    → Reading rest
    → Reading (a ∷ b ∷ rest)
read_apart a b rest w r = record {
  items = apart b ∷ r.items;
  bare = r.bare;
  place = cc (text_eq-≡ a tags_word w, r.place);
  are_plain = r.are_plain;
}

-- Every line can be read.
read : (args : List Text) → Reading args
read [] = nothing
read (a ∷ []) = elim (Bool-cases (text_eq a tags_word)) [
  | inl w ↦ bare_word a w
  | inr w ↦ elim (Bool-cases (is_prefix tags_prefix a)) [
    | inl e ↦ read_next a [] e nothing
    | inr e ↦ read_plain a [] w e nothing
  ]
]
read (a ∷ b ∷ rest) = elim (Bool-cases (text_eq a tags_word)) [
  | inl w ↦ read_apart a b rest w (read rest)
  | inr w ↦ elim (Bool-cases (is_prefix tags_prefix a)) [
    | inl e ↦ read_next a (b ∷ rest) e (read (b ∷ rest))
    | inr e ↦ read_plain a (b ∷ rest) w e (read (b ∷ rest))
  ]
]

-- Every command line is a list of items, the options `-tags t` and `-tags=t` and other arguments,
-- with perhaps a `-tags` behind them that has no value. Of these peelBuildTags leaves the other
-- arguments and that last `-tags`, in their order; it returns the tags of the last option, and
-- whether there is an option.
pub peel_build_tags_items :
    (args : List Text)
    → (items : List Item) × (bare : Bool) × (args ≡ print items bare)
      × ArePlain items
      × (peel_build_tags args ≡ record {
        args = others items ++ tail bare;
        tags = last_tags [] items;
        found = has_tags false items;
      })
unfolding peel_build_tags
peel_build_tags_items args =
    let r = read args in
    (
      r.items,
      r.bare,
      r.place,
      r.are_plain,
      ap peel_build_tags r.place ∙ peel_from-print r.items r.bare [] false r.are_plain,
    )
