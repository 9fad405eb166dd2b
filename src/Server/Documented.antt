-- ===== src/Server/Documented.antt =====
-- The stack of web/js/server/express run by the documented rules, which any run that follows them equals.
use mathlib.Core.Path.{fun_ext}
use sigopt_server.Base.{◌≡◌, refl, ap, ◌∙◌, Option, none, some, List, [], ◌∷◌}
use sigopt_server.Server.Stack.{
  Failure, pass, fail, Ran, Handler, of_request, of_error, and_next, Express,
}

-- How the documented rules run a stack.
unfoldable pub run_stack : List Handler → Option Failure → Ran
run_stack [] none = ([], pass)
run_stack [] (some e) = ([], fail e)
run_stack (of_request ran ∷ handlers) none = and_next ran (run_stack handlers)
run_stack (of_request ran ∷ handlers) (some e) = run_stack handlers (some e)
run_stack (of_error f ∷ handlers) none = run_stack handlers none
run_stack (of_error f ∷ handlers) (some e) = and_next (f e) (run_stack handlers)

pub run-run_stack :
    (express : Express) (handlers : List Handler) (early : Option Failure)
    → express.run handlers early ≡ run_stack handlers early
unfolding run_stack
run-run_stack express [] none = express.run_none
run-run_stack express [] (some e) = express.run_failed e
run-run_stack express (of_request ran ∷ handlers) none =
    express.run_request ran handlers ∙ ap (and_next ran) (fun_ext (run-run_stack express handlers))
run-run_stack express (of_request ran ∷ handlers) (some e) =
    express.skip_request ran handlers e ∙ run-run_stack express handlers (some e)
run-run_stack express (of_error f ∷ handlers) none =
    express.skip_error f handlers ∙ run-run_stack express handlers none
run-run_stack express (of_error f ∷ handlers) (some e) =
    express.run_error f handlers e ∙ ap (and_next (f e)) (fun_ext (run-run_stack express handlers))

-- The rules can be met.
unfoldable pub documented : Express
unfolding run_stack
documented = record {
  run = run_stack;
  run_none = refl;
  run_failed = λ e. refl;
  run_request = λ ran handlers. refl;
  skip_request = λ ran handlers e. refl;
  run_error = λ f handlers e. refl;
  skip_error = λ f handlers. refl;
}
