-- ===== src/Curated/Params.antt =====
-- Which parameters `curatedRetainParams` returns.
use safetylint.Base.{
  ℕ, ◌≡◌, refl, arith, Bool, true, false, ◌&&◌, List, [], ◌∷◌, ◌⊎◌, is_some, none, ◌∙◌, String,
  str_eq, one_of, base_name, before_bracket, Bool-cases, inl, inr, if◌then◌else◌,
}
use text.Mathlib.TextEquality.{eq_iff}
use safetylint.Ssa.{Program}
use safetylint.Calls.{callee_pkg_path, async_callbacks}
use safetylint.Curated.{
  SharedParam, share_write, curated_retains, retain_params_from, curated_retain_params, generic_of,
  callee_base_name, curated_retain_indices, async_callback_indices,
}

-- The receiver, and the parameters by their places behind it, as memory that is written.
abbrev pub receiver : SharedParam
receiver = record { index = 0; is_recv = true; mode = share_write }

abbrev pub parameter : ℕ → SharedParam
parameter i = record { index = i; is_recv = false; mode = share_write }

-- What is kept of the arguments of a function, and of those of a method.
abbrev pub kept_by_function : String → String → List SharedParam
kept_by_function path name =
    if str_eq path "net/http"
    then (if one_of name ("ListenAndServe" ∷ "Serve" ∷ "ServeTLS" ∷ [])
        then parameter 0 ∷ parameter 1 ∷ []
        else if str_eq name "ListenAndServeTLS"
        then parameter 0 ∷ parameter 1 ∷ parameter 3 ∷ []
        else [])
    else if str_eq path "os/signal" && str_eq name "Notify"
    then parameter 0 ∷ []
    else []

abbrev pub kept_by_method : String → String → List SharedParam
kept_by_method path name =
    if str_eq path "net/http"
    then (if one_of name ("ListenAndServe" ∷ "Serve" ∷ "ServeTLS" ∷ [])
        then receiver ∷ parameter 0 ∷ []
        else if str_eq name "ListenAndServeTLS"
        then receiver ∷ parameter 0 ∷ parameter 2 ∷ []
        else [])
    else if str_eq path "os/signal" && str_eq name "Notify"
    then receiver ∷ []
    else []

base_of : String → String
base_of raw = before_bracket (base_name raw)

keeps_nothing :
    (path raw name : String)
    → str_eq raw name ≡ true
    → curated_retains path (base_of name) ≡ []
    → curated_retains path (base_of raw) ≡ []
keeps_nothing path raw name h e = rw ((eq_iff raw name).0 h) e

-- No function both keeps an argument and calls one back.
keeps_or_calls :
    (path raw : String)
    → (async_callbacks path raw ≡ []) ⊎ (curated_retains path (base_of raw) ≡ [])
unfolding async_callbacks curated_retains base_of base_name before_bracket
keeps_or_calls path raw = elim (Bool-cases (str_eq raw "AfterFunc")) [
  | inl a ↦ inr (keeps_nothing path raw "AfterFunc" a (ground arith))
  | inr a ↦ elim (Bool-cases (str_eq raw "HandleFunc")) [
    | inl b ↦ inr (keeps_nothing path raw "HandleFunc" b (ground arith))
    | inr b ↦ elim (Bool-cases (str_eq raw "Handle")) [
      | inl c ↦ inr (keeps_nothing path raw "Handle" c (ground arith))
      | inr c ↦ elim (Bool-cases (str_eq raw "NotifyFunc")) [
        | inl d ↦ inr (keeps_nothing path raw "NotifyFunc" d (ground arith))
        | inr d ↦ inl (ground arith)
      ]
    ]
  ]
]

kept_of_slots :
    (path name : String) (m : Bool)
    → retain_params_from m [] (curated_retains path name) []
      ≡ (if m then kept_by_method path name else kept_by_function path name)
unfolding retain_params_from curated_retains
kept_of_slots path name true = ground arith
kept_of_slots path name false = ground arith

retain_params_from-nothing :
    (m : Bool) (slots is : List ℕ)
    → (slots ≡ []) ⊎ (is ≡ [])
    → retain_params_from m slots is [] ≡ retain_params_from m [] is []
unfolding retain_params_from
retain_params_from-nothing m slots is (inl e) = rw e refl
retain_params_from-nothing m slots is (inr e) = rw e refl

generic_of_self : (P : Program) (fn : P.Func) → P.origin fn ≡ none → generic_of P fn ≡ fn
unfolding generic_of
generic_of_self P fn e = rw (e, generic_of) refl

-- For a function that is no instance of a generic one, curatedRetainParams returns what the kept
-- arguments of a call are for the function: for ListenAndServe, Serve and ServeTLS of net/http the
-- first two, for ListenAndServeTLS also the fourth, and for Notify of os/signal the first, where
-- the first argument of a method is its receiver, and each later one the parameter before its
-- place; all as written memory, and nothing for any other function. Names are compared without
-- what is before their last dot or behind a bracket.
pub curated_retain_params_kept :
    (P : Program) (fn : P.Func)
    → P.origin fn ≡ none
    → curated_retain_params P fn ≡ (
        if is_some (P.recv fn)
        then kept_by_method (callee_pkg_path P fn) (callee_base_name P fn)
        else kept_by_function (callee_pkg_path P fn) (callee_base_name P fn))
unfolding curated_retain_params curated_retain_indices async_callback_indices callee_base_name
    base_of
curated_retain_params_kept P fn e = rw (generic_of_self P fn e) (
    retain_params_from-nothing (is_some (P.recv fn)) _ _
      (keeps_or_calls (callee_pkg_path P fn) (P.func_name fn))
    ∙ kept_of_slots (callee_pkg_path P fn) (base_of (P.func_name fn)) (is_some (P.recv fn)))
