-- ===== src/Curated.antt =====
-- The tables of standard library functions (internal/nosharing: async.go, stdlibsafe.go): which start
-- goroutines, keep an argument, write to one, or only read.
pub mod Params
use safetylint.Base.{
  ℕ, zero, suc, Bool, true, false, not, ◌&&◌, List, [], ◌∷◌, ◌++◌, Option, none, some, String,
  str_eq, one_of, base_name, before_bracket, any, is_some, ◌==◌, if◌then◌else◌,
}
use safetylint.Ssa.{Program}
use safetylint.Calls.{callee_pkg_path, async_callbacks}

-- `curatedSpawns`
unfoldable pub curated_spawns : String → String → Bool
curated_spawns path name =
    str_eq path "net/http"
    && one_of name ("ListenAndServe" ∷ "ListenAndServeTLS" ∷ "Serve" ∷ "ServeTLS" ∷ [])

-- `curatedRetains`: the argument slots that are kept
unfoldable pub curated_retains : String → String → List ℕ
curated_retains path name =
    if str_eq path "net/http"
    then (if one_of name ("ListenAndServe" ∷ "Serve" ∷ "ServeTLS" ∷ [])
        then 0 ∷ 1 ∷ []
        else if str_eq name "ListenAndServeTLS"
        then 0 ∷ 1 ∷ 3 ∷ []
        else [])
    else if str_eq path "os/signal"
    then (if str_eq name "Notify" then 0 ∷ [] else [])
    else []

-- `curatedWriters`
unfoldable pub curated_writers : String → String → Bool
curated_writers path name =
    if str_eq path "bytes"
    then one_of name ("Write" ∷ "WriteString" ∷ "WriteByte" ∷ "WriteRune" ∷ [])
    else if str_eq path "sort"
    then one_of name ("Slice" ∷ "SliceStable" ∷ "Sort" ∷ [])
    else if str_eq path "sync"
    then str_eq name "Store"
    else false

-- `stdlibReadOnly`, with the capitalized names that the package's `init` adds
unfoldable pub stdlib_read_only : String → String → Bool
stdlib_read_only path name =
    if str_eq path "time"
    then one_of name ("Since" ∷ "Until" ∷ [])
    else if str_eq path "maps"
    then one_of name
        ("All" ∷ "Keys" ∷ "Values" ∷ "equal" ∷ "equalFunc" ∷ "Equal" ∷ "EqualFunc" ∷ [])
    else if str_eq path "slices"
    then one_of name (
        "All" ∷ "Values" ∷ "Contains" ∷ "ContainsFunc" ∷ "Index" ∷ "IndexFunc" ∷ "BinarySearch"
        ∷ "BinarySearchFunc" ∷ "Clone" ∷ "Concat" ∷ "equal" ∷ "equalFunc" ∷ "Equal" ∷ "EqualFunc"
        ∷ "Compare" ∷ "CompareFunc" ∷ "IsSorted" ∷ "IsSortedFunc" ∷ "Max" ∷ "MaxFunc" ∷ "Min"
        ∷ "MinFunc" ∷ [])
    else false

-- `ShareMode`
pub data ShareMode : Type 0 where
  share_read share_write : ShareMode

-- `SharedParam`, without the `Mutex` that these functions leave at its zero value
pub record SharedParam : Type 0 where
  pub index : ℕ
  pub is_recv : Bool
  pub mode : ShareMode

module _ (P : Program) where
  open P use {Func, func_name, origin, recv}

  -- `if orig := fn.Origin(); orig != nil { fn = orig }`
  unfoldable pub generic_of : Func → Func
  generic_of fn = elim (origin fn) [ none ↦ fn | some orig ↦ orig ]

  unfoldable pub callee_base_name : Func → String
  unfolding base_name before_bracket
  callee_base_name fn = before_bracket (base_name (func_name fn))

  unfoldable pub is_curated_spawn : Func → Bool
  unfolding curated_spawns callee_pkg_path
  is_curated_spawn fn = curated_spawns (callee_pkg_path P fn) (func_name fn)

  unfoldable pub curated_retain_indices : Func → List ℕ
  unfolding curated_retains callee_pkg_path callee_base_name generic_of
  curated_retain_indices fn =
      curated_retains (callee_pkg_path P (generic_of fn)) (callee_base_name (generic_of fn))

  unfoldable pub is_curated_writer : Func → Bool
  unfolding curated_writers callee_pkg_path callee_base_name generic_of
  is_curated_writer fn =
      curated_writers (callee_pkg_path P (generic_of fn)) (callee_base_name (generic_of fn))

  unfoldable pub is_stdlib_read_only_call : Func → Bool
  unfolding stdlib_read_only callee_pkg_path callee_base_name generic_of
  is_stdlib_read_only_call fn =
      stdlib_read_only (callee_pkg_path P (generic_of fn)) (callee_base_name (generic_of fn))

  -- `asyncCallbackIndices`
  unfoldable pub async_callback_indices : Func → List ℕ
  unfolding async_callbacks callee_pkg_path
  async_callback_indices fn = async_callbacks (callee_pkg_path P fn) (func_name fn)

-- the parameter that a slot of `CallCommon.Args` stands for
unfoldable pub param_of : Bool → ℕ → SharedParam
param_of true zero = record { index = 0; is_recv = true; mode = share_write }
param_of true (suc i) = record { index = i; is_recv = false; mode = share_write }
param_of false i = record { index = i; is_recv = false; mode = share_write }

abbrev pub same_flag : Bool → Bool → Bool
same_flag true b = b
same_flag false b = not b

abbrev pub same_param : SharedParam → SharedParam → Bool
same_param p q = p.index == q.index && same_flag p.is_recv q.is_recv

-- the loop of `curatedRetainParams`; what it has seen is what it has put out
unfoldable pub retain_params_from : Bool → List ℕ → List ℕ → List SharedParam → List SharedParam
unfolding param_of
retain_params_from has_recv async_slots [] out = out
retain_params_from has_recv async_slots (i ∷ is) out = retain_params_from has_recv async_slots is (
    if any (λ j. i == j) async_slots
    then out
    else if any (same_param (param_of has_recv i)) out
    then out
    else out ++ param_of has_recv i ∷ [])

unfoldable pub curated_retain_params : (P : Program) → P.Func → List SharedParam
unfolding retain_params_from async_callback_indices curated_retain_indices
curated_retain_params P fn =
    retain_params_from (is_some (P.recv fn)) (async_callback_indices P fn)
      (curated_retain_indices P fn) []
