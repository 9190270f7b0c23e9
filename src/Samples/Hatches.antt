-- ===== src/Samples/Hatches.antt =====
-- `reflect.UnsafeAddr` by itself, and in the operand of a selector.
use safetylint.Base.{ℕ, ◌≡◌, ◌↔◌, refl, List, [], ◌∷◌, some, none, Memᴰ}
use safetylint.Strings.{Text}
use safetylint.Nolint.{Position, File}
use safetylint.Unsafe.{
  Ident, Node, selector, ident, other, cons, nil, reflect_use, reflect_path, walk,
}
use safetylint.Unsafe.Visible.{Shown, Reports, walk_iff}

abbrev unsafe_addr : Text
unsafe_addr = b'U' ∷ b'n' ∷ b's' ∷ b'a' ∷ b'f' ∷ b'e' ∷ b'A' ∷ b'd' ∷ b'd' ∷ b'r' ∷ []

abbrev hatch : Ident
hatch = record { pos = 3; uses = some (some reflect_path, unsafe_addr) }

abbrev plain : Ident
plain = record { pos = 9; uses = none }

abbrev no_files : List File
no_files = []

abbrev nowhere : ℕ → Position
nowhere pos = record { filename = []; line = 0 }

-- `x.UnsafeAddr` among the children of another node
abbrev shown : Node
shown = other (cons (selector (ident plain) hatch) nil)

-- `f(x.UnsafeAddr).g`
abbrev hidden : Node
hidden = other (cons (selector shown plain) nil)

is_reported : walk nowhere no_files shown ≡ record { pos = 3; kind = reflect_use unsafe_addr } ∷ []
unfolding walk
is_reported = refl

is_missed : walk nowhere no_files hidden ≡ []
unfolding walk
is_missed = refl

walk_iff_example :
    Memᴰ (record { pos = 3; kind = reflect_use unsafe_addr }) (walk nowhere no_files shown) ↔ (
      (id : Ident) × Shown id shown
      × Reports nowhere no_files id (record { pos = 3; kind = reflect_use unsafe_addr }))
walk_iff_example =
    walk_iff nowhere no_files shown (record { pos = 3; kind = reflect_use unsafe_addr })
