-- ===== src/Modules/Tests.antt =====
-- Runs of the module framework on modules that are numbers and write into a log.
use irpmon.Common.{
  ℕ, ◌+◌, ◌≡◌, refl, List, [], ◌∷◌, ◌++◌, none, some, true, arith, replicate, if◌then◌else◌, ◌==◌,
}
use irpmon.Kernel.{Status, success, unsuccessful, nt_success, done}
use irpmon.Modules.{
  ModuleOps, Framework, settle, store, add_module, add_modules, finalize_below, initialize_from,
  initialize_modules, finalize_modules, delete_all_modules, framework_init, framework_finit,
  release_driver,
}
use irpmon.Modules.Order.{
  Initialized, unwind, initialize_modules-Initialized, initialize_modules-rollback,
}
use irpmon.Modules.Registry.{Holds, add_modules-Holds}

program : Unit {0}
unfolding settle store add_module add_modules finalize_below initialize_from initialize_modules
    finalize_modules delete_all_modules framework_init framework_finit release_driver
program = tt

-- A module logs its number at the start and its number plus 100 at the end; module 3 fails.
abbrev logging : ModuleOps ℕ (List ℕ)
logging = record {
  init_routine = λ driver path e log. (if e == 3 then unsuccessful else success, log ++ (e ∷ []));
  finit_routine = λ driver path e log. log ++ ((e + 100) ∷ []);
}

-- Four modules, in an array of 256 slots.
abbrev four : Framework ℕ
four = record {
  modules = 1 ∷ 2 ∷ 3 ∷ 4 ∷ replicate 252 0;
  module_count = 4;
  driver_object = some 7;
  references = 1;
}

four-Holds : Holds four (1 ∷ 2 ∷ 3 ∷ 4 ∷ [])
four-Holds = record { rest = replicate 252 0; slots = refl; count = refl; space = refl }

abbrev two : Framework ℕ
two = record four { module_count = 2 }

two-Holds : Holds two (1 ∷ 2 ∷ [])
two-Holds = record { rest = 3 ∷ 4 ∷ replicate 252 0; slots = refl; count = refl; space = refl }

rollback_runs :
    initialize_modules logging 0 none four [] ≡ (unsuccessful, 1 ∷ 2 ∷ 3 ∷ 102 ∷ 101 ∷ [])
unfolding program
rollback_runs = refl

finit_releases : (framework_finit 0 four).references ≡ 0
unfolding program
finit_releases = refl

ran_two : Initialized logging 0 (some 7) none (1 ∷ 2 ∷ []) [] (1 ∷ 2 ∷ [])
unfolding Initialized
ran_two = (refl, (refl, refl))

initialize_modules-rollback_example :
    initialize_modules logging 0 none four []
    ≡ (unsuccessful, unwind logging 0 (some 7) none (1 ∷ 2 ∷ []) (1 ∷ 2 ∷ 3 ∷ []))
initialize_modules-rollback_example =
    initialize_modules-rollback logging 0 none four (1 ∷ 2 ∷ []) (4 ∷ []) 3 [] (1 ∷ 2 ∷ [])
      four-Holds ran_two refl

initialize_modules-Initialized_example :
    (last : Status) × (nt_success last ≡ true)
    × (initialize_modules logging 0 none two [] ≡ (last, 1 ∷ 2 ∷ []))
initialize_modules-Initialized_example =
    initialize_modules-Initialized logging 0 none two (1 ∷ 2 ∷ []) [] (1 ∷ 2 ∷ []) two-Holds ran_two

add_modules-Holds_example :
    (g : Framework ℕ) × (add_modules (5 ∷ 6 ∷ []) two ≡ done g) × Holds g (1 ∷ 2 ∷ 5 ∷ 6 ∷ [])
add_modules-Holds_example = add_modules-Holds (5 ∷ 6 ∷ []) (1 ∷ 2 ∷ []) two two-Holds (omega arith)
