-- ===== src/Nolint/Lines.antt =====
-- Which reports a comment suppresses: those on its own line and on the next.
use safetylint.Base.{
  ℕ, suc, ◌-◌, ◌≡◌, ◌≢◌, ◌↔◌, ◌⊎◌, inl, inr, refl, sym, subst, arith, true, false, ◌||◌, List, [],
  ◌∷◌, some, ◌==◌, any, Memᴰ, Memᴰ-any, any-Memᴰ, Bool-cases, Option-cases, ◌∙◌,
}
use safetylint.Strings.{Text, is_empty, text_eq}
use safetylint.Strings.Laws.{text_eq-≡}
use safetylint.Nolint.{
  umbrella, parse_nolint, comment_has, Position, Comment, File, file_for, comment_suppresses,
  suppressed,
}

text_eq_self : (s : Text) → text_eq s s ≡ true
text_eq_self [] = refl
text_eq_self (c ∷ s) = ground (arith, text_eq_self s)

-- The comment's names have the analyzer's or the umbrella.
abbrev pub Names : Text → Text → Type 0
Names text analyzer = (n : Text) × Memᴰ n (parse_nolint text) × ((n ≡ analyzer) ⊎ (n ≡ umbrella))

comment_has-Names :
    (text analyzer : Text) → (comment_has text analyzer ≡ true) ↔ Names text analyzer
unfolding comment_has
comment_has-Names text analyzer = (
  λ h.
      let (n, m, k) =
        any-Memᴰ (λ n. text_eq n analyzer || text_eq n umbrella) (parse_nolint text) h in
      (
        n,
        m,
        elim (Bool-cases (text_eq n analyzer)) [
          | inl e ↦ inl (text_eq-≡ n analyzer e)
          | inr e ↦ inr (text_eq-≡ n umbrella (ground arith))
        ],
      ),
  λ k.
      Memᴰ-any (λ n. text_eq n analyzer || text_eq n umbrella) (parse_nolint text) k.0 k.1
        (elim k.2 [
          | inl e ↦ let q = subst (λ z. text_eq k.0 z ≡ true) e (text_eq_self k.0) in ground arith
          | inr e ↦ let q = subst (λ z. text_eq k.0 z ≡ true) e (text_eq_self k.0) in ground arith
        ]),
)

module _ (position : ℕ → Position) where
  -- A comment of the target's file, on its line or the one before, that names the analyzer.
  pub record Suppresses (target : Position) (analyzer : Text) (c : Comment) : Type 0 where
    pub same_file : Position.filename (position c.pos) ≡ target.filename
    pub near :
        (Position.line (position c.pos) ≡ target.line)
        ⊎ (suc (Position.line (position c.pos)) ≡ target.line)
    pub names : Names c.text analyzer

  -- A known place in the first file of that name, and such a comment in it.
  pub record IsSuppressed (files : List File) (pos : ℕ) (analyzer : Text) : Type 0 where
    pub file : File
    pub group : List Comment
    pub comment : Comment
    pub is_valid : pos ≢ 0
    pub has_analyzer : is_empty analyzer ≡ false
    pub has_name : is_empty (Position.filename (position pos)) ≡ false
    pub has_line : Position.line (position pos) ≢ 0
    pub is_file : file_for position files (Position.filename (position pos)) ≡ some file
    pub in_file : Memᴰ group file.comments
    pub in_group : Memᴰ comment group
    pub suppresses : Suppresses (position pos) analyzer comment

  comment_suppresses-Suppresses :
      (target : Position) (analyzer : Text) (c : Comment)
      → target.line ≢ 0
      → comment_suppresses position target analyzer c ≡ true
      → Suppresses target analyzer c
  unfolding comment_suppresses
  comment_suppresses-Suppresses target analyzer c n h = record {
    same_file = text_eq-≡ _ _ (ground arith);
    near = elim (Bool-cases (Position.line (position c.pos) == target.line)) [
      | inl e ↦ inl (ground arith)
      | inr e ↦
          let q : (Position.line (position c.pos) == target.line - 1) ≡ true = ground arith in
          inr (ground (arith, n))
    ];
    names = (comment_has-Names c.text analyzer).0 (ground arith);
  }

  Suppresses-comment_suppresses :
      (target : Position) (analyzer : Text) (c : Comment)
      → Suppresses target analyzer c
      → comment_suppresses position target analyzer c ≡ true
  unfolding comment_suppresses
  Suppresses-comment_suppresses target analyzer c s =
      let e : text_eq (Position.filename (position c.pos)) target.filename ≡ true =
        subst (λ z. text_eq (Position.filename (position c.pos)) z ≡ true) s.same_file
          (text_eq_self (Position.filename (position c.pos))) in
      let q = (comment_has-Names c.text analyzer).1 s.names in
      elim s.near [ inl k ↦ ground arith | inr k ↦ ground arith ]

  -- the file's comments, at a known place
  in_files :
      (files : List File) (pos : ℕ) (analyzer : Text) (f : File)
      → (pos == 0 || is_empty analyzer) ≡ false
      → (is_empty (Position.filename (position pos)) || Position.line (position pos) == 0) ≡ false
      → file_for position files (Position.filename (position pos)) ≡ some f
      → suppressed position files pos analyzer
        ≡ any (λ cg. any (comment_suppresses position (position pos) analyzer) cg) f.comments
  unfolding suppressed
  in_files files pos analyzer f a b e = rw (a, b, e) refl

  suppressed-IsSuppressed :
      (files : List File) (pos : ℕ) (analyzer : Text)
      → suppressed position files pos analyzer ≡ true
      → IsSuppressed files pos analyzer
  unfolding suppressed
  suppressed-IsSuppressed files pos analyzer h = elim (Bool-cases (pos == 0 || is_empty analyzer)) [
    | inl a ↦ cc (rw a at h)
    | inr a ↦
        elim (Bool-cases
          (is_empty (Position.filename (position pos)) || Position.line (position pos) == 0)) [
            | inl b ↦ cc (rw (a, b) at h)
            | inr b ↦
                elim (Option-cases (file_for position files (Position.filename (position pos)))) [
                  | inl e ↦ cc (rw (a, b, e) at h)
                  | inr (f, e) ↦ found a b f e (sym (in_files files pos analyzer f a b e) ∙ h)
                ]
          ]
  ]
    where
      found :
          (pos == 0 || is_empty analyzer) ≡ false
          → (is_empty (Position.filename (position pos)) || Position.line (position pos) == 0)
            ≡ false
          → (f : File) → file_for position files (Position.filename (position pos)) ≡ some f
          → any (λ cg. any (comment_suppresses position (position pos) analyzer) cg) f.comments
            ≡ true
          → IsSuppressed files pos analyzer
      found a b f e k =
          let (cg, m, k1) =
            any-Memᴰ (λ g. any (comment_suppresses position (position pos) analyzer) g) f.comments
              k in
          let (c, n, k2) = any-Memᴰ (comment_suppresses position (position pos) analyzer) cg k1 in
          let line_ne : Position.line (position pos) ≢ 0 = ground arith in
          record {
            file = f;
            group = cg;
            comment = c;
            is_valid = ground arith;
            has_analyzer = ground arith;
            has_name = ground arith;
            has_line = line_ne;
            is_file = e;
            in_file = m;
            in_group = n;
            suppresses = comment_suppresses-Suppresses (position pos) analyzer c line_ne k2;
          }

  -- A report is suppressed exactly when its place and its analyzer are known and the first file of
  -- the place's name has a comment in that file, on the line of the report or on the line before
  -- it, whose names have the analyzer or the umbrella name.
  pub suppressed_iff :
      (files : List File) (pos : ℕ) (analyzer : Text)
      → (suppressed position files pos analyzer ≡ true) ↔ IsSuppressed files pos analyzer
  suppressed_iff files pos analyzer = (
    suppressed-IsSuppressed files pos analyzer,
    λ s.
        in_files files pos analyzer s.file (ground (arith, s.is_valid, s.has_analyzer))
          (ground (arith, s.has_name, s.has_line)) s.is_file
        ∙ Memᴰ-any (λ g. any (comment_suppresses position (position pos) analyzer) g)
            s.file.comments s.group s.in_file
            (Memᴰ-any (comment_suppresses position (position pos) analyzer) s.group s.comment
              s.in_group
              (Suppresses-comment_suppresses (position pos) analyzer s.comment s.suppresses)),
  )
