-- ===== src/Samples/Callees.antt =====
-- The tables of standard library functions on the method `(*http.Server).Serve`.
use safetylint.Base.{◌≡◌, refl, is_some, [], ◌∷◌, some, if◌then◌else◌}
use safetylint.Ssa.{Program}
use safetylint.Calls.{callee_pkg_path}
use safetylint.Curated.{curated_retain_params, callee_base_name}
use safetylint.Curated.Params.{
  receiver, parameter, kept_by_function, kept_by_method, curated_retain_params_kept,
}
use safetylint.Samples.{sample}

abbrev server : Program
server = record sample { func_name = λ f. "Serve"; object_pkg_path = λ f. some "net/http" }

kept_of_serve : curated_retain_params server 0 ≡ receiver ∷ parameter 0 ∷ []
unfolding curated_retain_params
kept_of_serve = refl

curated_retain_params_kept_example : curated_retain_params server 0 ≡ (
    if is_some (server.recv 0)
    then kept_by_method (callee_pkg_path server 0) (callee_base_name server 0)
    else kept_by_function (callee_pkg_path server 0) (callee_base_name server 0))
curated_retain_params_kept_example = curated_retain_params_kept server 0 refl
