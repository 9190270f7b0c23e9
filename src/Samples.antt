-- ===== src/Samples.antt =====
-- A small program to evaluate the analyses on: `func (s *S) Lock() { s.mu.Lock() }` with its body in
-- two blocks, `type S struct { mu sync.Mutex }`. Everything is a number. The values are 0 for `s`, 1
-- for `&s.mu` and 2 for the call; the functions are 0 for the wrapper and 1 for
-- `(*sync.Mutex).Lock`; the types are 0 for `S`, 1 for `*S`, 2 for `sync.Mutex` and 3 for its
-- pointer, 5 is the
-- struct; a block and its only instruction have the same number.
pub mod Runs
pub mod Steps
pub mod Structs
pub mod Callees
pub mod Parts
pub mod Guards
pub mod Texts
pub mod Helpers
pub mod Hatches
use safetylint.Base.{
  ℕ, zero, suc, ◌≡◌, ◌<◌, refl, arith, Bool, true, false, List, [], ◌∷◌, Option, none, some, Memᴰ,
  ℕ_discrete, String, inl, inr, if◌then◌else◌, ◌==◌,
}
use mathlib.Core.List.Memᴰ
use safetylint.Ssa.{
  Program, IsWellFounded, TyView, ValueView, InstrView, CallCommon, StructField, pointer, named,
  struct, other, field_addr, parameter, call, ret, operand,
}

abbrev lock_call : CallCommon ℕ ℕ
lock_call = record { value = 7; method = none; args = 1 ∷ []; static_callee = some 1 }

abbrev ty_views : ℕ → TyView ℕ ℕ
ty_views zero = named (some "sample") "S"
ty_views (suc zero) = pointer 0
ty_views (suc (suc zero)) = named (some "sync") "Mutex"
ty_views (suc (suc (suc zero))) = pointer 2
ty_views (suc (suc (suc (suc (suc zero))))) = struct 0
ty_views _ = other

abbrev value_views : ℕ → ValueView ℕ ℕ
value_views zero = parameter
value_views (suc zero) = field_addr 0 0
value_views _ = other

abbrev value_types : ℕ → ℕ
value_types zero = 1
value_types (suc zero) = 3
value_types _ = 4

abbrev pub instr_views : ℕ → InstrView ℕ ℕ
instr_views zero = call 2 lock_call
instr_views _ = ret

-- control goes from block 0 to block 1
abbrev edges_to : ℕ → List ℕ
edges_to (suc zero) = 0 ∷ []
edges_to _ = []

abbrev pub sample : Program
sample = record {
  Ty = ℕ;
  Struct = ℕ;
  Value = ℕ;
  Func = ℕ;
  Block = ℕ;
  Instr = ℕ;
  Pkg = ℕ;
  unalias = λ t. t;
  underlying = λ t. if t == 0 then 5 else t;
  ty_view = ty_views;
  struct_discrete = ℕ_discrete;
  struct_string = λ s. "struct{mu sync.Mutex}";
  fields = λ s. record { ty = 2; embedded = false; name = "mu" } ∷ [];
  method_names = λ t. [];
  value_discrete = ℕ_discrete;
  view = value_views;
  type_of = value_types;
  referrers = λ v. [];
  const_int = λ v. none;
  exported = λ v. false;
  instr_discrete = ℕ_discrete;
  instr_view = instr_views;
  instr_parent = λ i. some 0;
  block_discrete = ℕ_discrete;
  index = λ b. b;
  preds = edges_to;
  succs = λ b. if b == 0 then 1 ∷ [] else [];
  instrs = λ b. b ∷ [];
  func_discrete = ℕ_discrete;
  func_name = λ f. "Lock";
  blocks = λ f. if f == 0 then 0 ∷ 1 ∷ [] else [];
  params = λ f. 0 ∷ [];
  free_vars = λ f. [];
  recv = λ f. some (if f == 0 then 1 else 3);
  origin = λ f. none;
  parent_func = λ f. none;
  nesting = λ f. 0;
  anon_funcs = λ f. [];
  func_exported = λ f. true;
  pkg_discrete = ℕ_discrete;
  func_pkg = λ f. none;
  pkg_path = λ p. "sample";
  object_pkg_path = λ f. some (if f == 0 then "sample" else "sync");
  member_funcs = λ p. 0 ∷ [];
  member_globals = λ p. [];
  all_funcs = 0 ∷ 1 ∷ [];
  map_order = λ A xs. xs;
  depth = λ v. v;
  ty_depth = λ t. t;
  nest = λ t. 0;
  embed_depth = λ s. 0;
  embed_bound = 1;
}

operand_lt : (v w : ℕ) → operand (value_views v) ≡ some w → w < v
operand_lt zero w e = cc
operand_lt (suc zero) w e = ground arith
operand_lt (suc (suc v)) w e = cc

pointer_lt : (t e : ℕ) → ty_views t ≡ pointer e → e < t
pointer_lt zero e p = cc
pointer_lt (suc zero) e p = ground arith
pointer_lt (suc (suc zero)) e p = cc
pointer_lt (suc (suc (suc zero))) e p = ground arith
pointer_lt (suc (suc (suc (suc zero)))) e p = cc
pointer_lt (suc (suc (suc (suc (suc zero))))) e p = cc
pointer_lt (suc (suc (suc (suc (suc (suc t)))))) e p = cc

pub sample-IsWellFounded : IsWellFounded sample
sample-IsWellFounded = record { operand_lt = operand_lt; pointer_lt = pointer_lt }
