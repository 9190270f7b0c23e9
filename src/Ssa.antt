-- ===== src/Ssa.antt =====
-- What the analyzers read of golang.org/x/tools/go/ssa and go/types. The program under analysis is
-- a parameter: pointers are elements of abstract types with decided equality, a type switch is a
-- `view`, and a field or a method that the source reads is a function.
use safetylint.Base.{Memᴰ, length, ℕ, ◌<◌, ◌≡◌, Bool, true, false, List, Option, none, some, String}

-- `token.Token`, as far as the source tells the operators of a `*ssa.UnOp` apart.
pub data Token : Type 0 where
  mul not other : Token

module _ (Ty Struct : Type 0) where
  -- The type switch on a `types.Type` behind `types.Unalias`. `named` has the path of the package
  -- of its object if there is one, and the object's name; `interface` has the names of its methods;
  -- `basic` says whether it is `unsafe.Pointer`.
  pub data TyView : Type 0 where
    pointer slice array : Ty → TyView
    map chan signature type_param union other : TyView
    named : Option String → String → TyView
    struct : Struct → TyView
    interface : List String → TyView
    basic : Bool → TyView

pub record StructField (Ty : Type 0) : Type 0 where
  pub ty : Ty
  pub embedded : Bool
  pub name : String

-- `*ssa.CallCommon`. `method` is `none` unless the call is an interface invoke (`IsInvoke`).
pub record CallCommon (Value Func : Type 0) : Type 0 where
  pub value : Value
  pub method : Option String
  pub args : List Value
  pub static_callee : Option Func

abbrev pub is_invoke : {Value Func : Type 0} → CallCommon Value Func → Bool
is_invoke c = elim c.method [ none ↦ false | some _ ↦ true ]

module _ (Value Func : Type 0) where
  -- The type switch on a `ssa.Value`.
  pub data ValueView : Type 0 where
    field_addr : Value → ℕ → ValueView
    index_addr : Value → Value → ValueView
    un_op : Token → Value → ValueView
    change_type change_interface make_interface convert : Value → ValueView
    slice : Value → Option Value → Option Value → ValueView
    alloc parameter global field extract other : ValueView
    -- the function that the free variable belongs to (`Parent`)
    free_var : Func → ValueView
    builtin : String → ValueView

  -- The type switch on a `ssa.Instruction`. A `*ssa.Call` is a value too: its first field.
  pub data InstrView : Type 0 where
    call : Value → CallCommon Value Func → InstrView
    defer go : CallCommon Value Func → InstrView
    store : Value → Value → InstrView
    load : Value → Token → Value → InstrView
    map_update lookup range cond_jump : Value → InstrView
    make_closure : Option Func → List Value → InstrView
    alloc_cell : Value → InstrView
    ret other : InstrView

pub record Program : Type 1 where
  pub Ty : Type 0
  pub Struct : Type 0
  pub Value : Type 0
  pub Func : Type 0
  pub Block : Type 0
  pub Instr : Type 0
  pub Pkg : Type 0
  -- go/types
  pub unalias : Ty → Ty
  pub underlying : Ty → Ty
  pub ty_view : Ty → TyView Ty Struct
  pub struct_discrete : Discrete Struct
  pub struct_string : Struct → String
  pub fields : Struct → List (StructField Ty)
  -- the names of the methods of a `*types.Named`
  pub method_names : Ty → List String
  -- ssa.Value
  pub value_discrete : Discrete Value
  pub view : Value → ValueView Value Func
  pub type_of : Value → Ty
  -- `Referrers`: the instructions that use the value, if the value records them
  pub referrers : Value → List Instr
  -- `constant.Int64Val` of an `*ssa.Const` that is used as an index: Go refuses negative ones
  pub const_int : Value → Option ℕ
  -- `token.IsExported` of the value's name
  pub exported : Value → Bool
  -- ssa.Instruction and ssa.BasicBlock
  pub instr_discrete : Discrete Instr
  pub instr_view : Instr → InstrView Value Func
  pub instr_parent : Instr → Option Func
  pub block_discrete : Discrete Block
  pub index : Block → ℕ
  pub preds : Block → List Block
  pub succs : Block → List Block
  pub instrs : Block → List Instr
  -- ssa.Function; `recv` is the type of `Signature.Recv()`
  pub func_discrete : Discrete Func
  pub func_name : Func → String
  pub blocks : Func → List Block
  pub params : Func → List Value
  pub free_vars : Func → List Value
  pub recv : Func → Option Ty
  -- the generic function that this one instantiates
  pub origin : Func → Option Func
  pub parent_func : Func → Option Func
  -- how many functions enclose it
  pub nesting : Func → ℕ
  pub anon_funcs : Func → List Func
  -- `Object().Exported()`, where the function has an object
  pub func_exported : Func → Bool
  pub pkg_discrete : Discrete Pkg
  pub func_pkg : Func → Option Pkg
  -- `fn.Pkg.Pkg.Path()`, and `fn.Object().Pkg().Path()`
  pub pkg_path : Pkg → String
  pub object_pkg_path : Func → Option String
  -- the functions among a package's `Members` and the methods of its named types
  pub member_funcs : Pkg → List Func
  -- the package variables among its `Members`
  pub member_globals : Pkg → List Value
  -- every function of the program
  pub all_funcs : List Func
  -- the order in which a `range` over a Go map meets its keys
  pub map_order : (A : Type 0) → List A → List A
  -- How deep the chains of operands and of pointer types are: Go's SSA form and its types have no
  -- cycles through these, so the loops that walk them end.
  pub depth : Value → ℕ
  pub ty_depth : Ty → ℕ
  -- how deep a value of the type holds other values in itself, not behind pointers
  pub nest : Ty → ℕ
  -- how many levels of embedded structs a struct has, where that is bounded, and the bound
  pub embed_depth : Struct → ℕ
  pub embed_bound : ℕ

-- The operand that the walks of the source step to.
abbrev pub operand : {Value Func : Type 0} → ValueView Value Func → Option Value
operand (field_addr x f) = some x
operand (index_addr x i) = some x
operand (un_op t x) = some x
operand (change_type x) = some x
operand (change_interface x) = some x
operand (make_interface x) = some x
operand (convert x) = some x
operand (slice x lo hi) = some x
operand _ = none

-- The documented shape of the program that the theorems rely on: operands of these instructions
-- are defined before them, and a chain of pointer types is finite.
pub record IsWellFounded (P : Program) : Type 0 where
  pub operand_lt : (v w : P.Value) → operand (P.view v) ≡ some w → P.depth w < P.depth v
  pub pointer_lt : (t e : P.Ty) → P.ty_view t ≡ pointer e → P.ty_depth (P.unalias e) < P.ty_depth t

-- The blocks of a function as `ssa.Function.Blocks` has them: a block's index is its place, and its
-- predecessors are among them.
pub record IsNumbered (P : Program) (bs : List P.Block) : Type 0 where
  pub unique : (b c : P.Block) → Memᴰ b bs → Memᴰ c bs → P.index b ≡ P.index c → b ≡ c
  pub in_range : (b : P.Block) → Memᴰ b bs → P.index b < length bs
  pub preds_in : (b p : P.Block) → Memᴰ b bs → Memᴰ p (P.preds b) → Memᴰ p bs
