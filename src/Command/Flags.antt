-- ===== src/Command/Flags.antt =====
-- The flags of the new GOFLAGS: the old ones less the tags, then the tags.
use safetylint.Base.{
  ◌≡◌, refl, sym, ap, ◌∙◌, subst, true, false, not, List, [], ◌∷◌, ◌++◌, all, some, reject,
  Bool-cases, inl, inr, ◌⊎◌, Memᴰ, Memᴰ-all, Memᴰ-reject,
}
use mathlib.Core.List.Memᴰ
use mathlib.Core.Option.{some-injective}
use safetylint.Strings.{Text, is_empty, is_space, trim_space, text_fields, split_by, join}
use safetylint.Strings.Laws.{Avoids, split_by-join, split_by-Avoids, Avoids-++, Avoids-join}
use safetylint.Command.{
  tags_prefix, normal_tags, commas_to_blanks, is_tags_flag, inject_goflags_tags,
}

-- A word: some code points, no white space.
abbrev pub IsWord : Text → Type 0
IsWord w = (is_empty w ≡ false) × Avoids is_space w

text_fields-IsWord : (s w : Text) → Memᴰ w (text_fields s) → IsWord w
unfolding text_fields
text_fields-IsWord s w m =
    let (n, e) = (Memᴰ-reject is_empty (split_by is_space s) w).0 m in
    (
      e,
      Memᴰ-all (λ v. all (λ d. not (is_space d)) v) (split_by is_space s) w n
          (split_by-Avoids is_space s),
    )

blank_space : is_space b' ' ≡ true
unfolding is_space
blank_space = refl

comma_plain : Avoids is_space (b',' ∷ [])
unfolding is_space
comma_plain = refl

prefix_plain : Avoids is_space tags_prefix
unfolding is_space
prefix_plain = refl

reject-none : (ws : List Text) → ((w : Text) → Memᴰ w ws → IsWord w) → reject is_empty ws ≡ ws
reject-none [] h = refl
reject-none (w ∷ ws) h =
    rw ((h w (Memᴰ.head refl)).0, reject-none ws (λ v m. h v (Memᴰ.tail m))) refl

-- Joined words are split again.
text_fields-join :
    (w : Text) (ws : List Text)
    → ((v : Text) → Memᴰ v (w ∷ ws) → IsWord v)
    → text_fields (join (b' ' ∷ []) (w ∷ ws)) ≡ w ∷ ws
unfolding text_fields
text_fields-join w ws h =
    ap (reject is_empty) (split_by-join is_space b' ' w ws blank_space (λ v m. (h v m).1))
    ∙ reject-none (w ∷ ws) h

-- The flag that the tags are put in is a word.
flag-IsWord : (tags : Text) → IsWord (tags_prefix ++ normal_tags tags)
unfolding normal_tags
flag-IsWord tags = (
  refl,
  Avoids-++ is_space tags_prefix (normal_tags tags) prefix_plain (
      Avoids-join is_space (b',' ∷ []) (text_fields (commas_to_blanks tags)) comma_plain
        (λ v m. (text_fields-IsWord (commas_to_blanks tags) v m).1)),
)

Memᴰ-last : (ws : List Text) (f v : Text) → Memᴰ v (ws ++ f ∷ []) → Memᴰ v ws ⊎ (v ≡ f)
Memᴰ-last [] f v m = elim (Memᴰ.cases_cons m) [ inl e ↦ inr e | inr n ↦ absurd (Memᴰ.not-nil n) ]
Memᴰ-last (w ∷ ws) f v m = elim (Memᴰ.cases_cons m) [
  | inl e ↦ inl (Memᴰ.head e)
  | inr n ↦ elim (Memᴰ-last ws f v n) [ inl k ↦ inl (Memᴰ.tail k) | inr e ↦ inr e ]
]

fields-with_flag :
    (old f : Text)
    → IsWord f
    → text_fields (join (b' ' ∷ []) (reject is_tags_flag (text_fields old) ++ f ∷ []))
      ≡ reject is_tags_flag (text_fields old) ++ f ∷ []
fields-with_flag old f h = by_list (reject is_tags_flag (text_fields old)) (λ v m. kept v m)
  where
    kept : (v : Text) → Memᴰ v (reject is_tags_flag (text_fields old)) → IsWord v
    kept v m = text_fields-IsWord old v ((Memᴰ-reject is_tags_flag (text_fields old) v).0 m).0

    word :
        (ws : List Text)
        → ((v : Text) → Memᴰ v ws → IsWord v)
        → (v : Text) → Memᴰ v (ws ++ f ∷ [])
        → IsWord v
    word ws k v m = elim (Memᴰ-last ws f v m) [ inl n ↦ k v n | inr e ↦ subst IsWord (sym e) h ]

    by_list :
        (ws : List Text)
        → ((v : Text) → Memᴰ v ws → IsWord v)
        → text_fields (join (b' ' ∷ []) (ws ++ f ∷ [])) ≡ ws ++ f ∷ []
    by_list [] k = text_fields-join f [] (λ v m. word [] k v m)
    by_list (w ∷ ws) k = text_fields-join w (ws ++ f ∷ []) (λ v m. word (w ∷ ws) k v m)

-- Where injectGOFLAGSTags returns no error, the flags of the new GOFLAGS, read by strings.Fields,
-- are those of the old one without its -tags flags, in their order, and then one -tags= flag with
-- the new tags.
pub inject_goflags_tags-fields :
    (tags old new : Text)
    → inject_goflags_tags tags old ≡ some new
    → text_fields new
      ≡ reject is_tags_flag (text_fields (trim_space old)) ++ (tags_prefix ++ normal_tags tags) ∷ []
unfolding inject_goflags_tags
inject_goflags_tags-fields tags old new h = elim (Bool-cases (is_empty (normal_tags tags))) [
  | inl e ↦ cc (rw e at h)
  | inr e ↦ elim (Bool-cases (is_empty (trim_space old))) [
    | inl q ↦
        ap text_fields (sym (some-injective _ _ (rw (e, q) at h)))
        ∙ text_fields-join (tags_prefix ++ normal_tags tags) [] alone
        ∙ no_old (trim_space old) q
    | inr q ↦
        ap text_fields (sym (some-injective _ _ (rw (e, q) at h)))
        ∙ fields-with_flag (trim_space old) (tags_prefix ++ normal_tags tags) (flag-IsWord tags)
  ]
]
  where
    alone : (v : Text) → Memᴰ v ((tags_prefix ++ normal_tags tags) ∷ []) → IsWord v
    alone v m = elim (Memᴰ.cases_cons m) [
      | inl e ↦ subst IsWord (sym e) (flag-IsWord tags)
      | inr n ↦ absurd (Memᴰ.not-nil n)
    ]

    no_old :
        (gf : Text)
        → is_empty gf ≡ true
        → (tags_prefix ++ normal_tags tags) ∷ []
          ≡ reject is_tags_flag (text_fields gf) ++ (tags_prefix ++ normal_tags tags) ∷ []
    no_old [] q = refl
    no_old (c ∷ gf) q = cc
