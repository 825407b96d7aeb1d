-- ===== src/Modules.antt =====
-- km-shared/modules.c: the module framework, which runs the initialisation routines of a driver's
-- modules in order, and their finalisation routines in the reverse order.
-- The routines are the drivers': `ModuleOps` says what calling one does to the state `S` of the
-- rest of the driver. Addresses (driver object, registry path) are numbers, NULL is `none`.
-- `bug_check` stands for a failing ASSERT; without ASSERT the write leaves the array.
pub mod Registry
pub mod Order
mod Tests
use irpmon.Common.{
  ℕ, zero, suc, ◌+◌, ◌-◌, List, [], ◌∷◌, Option, none, some, true, false, if◌then◌else◌, ltb, leb,
  get_or, set, length, replicate,
}
use irpmon.Kernel.{Status, success, nt_success, Run, done, bug_check}

-- Calling the routines of a module: driver object and registry path come first.
pub record ModuleOps (E S : Type 0) : Type 0 where
  pub init_routine : Option ℕ → Option ℕ → E → S → Status × S
  pub finit_routine : Option ℕ → Option ℕ → E → S → S

-- The global variables. `references` counts the references taken on the driver object.
pub record Framework (E : Type 0) : Type 0 where
  pub modules : List E
  pub module_count : ℕ
  pub driver_object : Option ℕ
  pub references : ℕ

abbrev pub max_modules : ℕ
max_modules = 256

-- `zeroed` is the entry that RtlSecureZeroMemory leaves.
module _ {E : Type 0} (zeroed : E) where
  pub delete_all_modules : Framework E → Framework E
  delete_all_modules f = record f { modules = replicate max_modules zeroed; module_count = 0 }

  pub framework_init : Option ℕ → Framework E → Status × Framework E
  framework_init none f = (success, f)
  framework_init (some object) f =
      (success, record f { driver_object = some object; references = f.references + 1 })

  -- The release of the driver object in ModuleFrameworkFinit.
  pub release_driver : Option ℕ → Framework E → Framework E
  release_driver none f = f
  release_driver (some object) f = record f { driver_object = none; references = f.references - 1 }

  pub framework_finit : Framework E → Framework E
  framework_finit f = release_driver f.driver_object (delete_all_modules f)

pub add_module : {E : Type 0} → E → Framework E → Run (Framework E)
add_module params f =
    if ltb f.module_count max_modules
    then done (record f {
      modules = set f.modules f.module_count params;
      module_count = suc f.module_count;
    })
    else bug_check

-- The loop of ModuleFrameworkAddModules, from a slot on.
pub store : {E : Type 0} → List E → ℕ → List E → List E
store [] i slots = slots
store (p ∷ ps) i slots = store ps (suc i) (set slots i p)

pub add_modules : {E : Type 0} → List E → Framework E → Run (Framework E)
add_modules params f =
    if leb (f.module_count + length params) max_modules
    then done (record f {
      modules = store params f.module_count f.modules;
      module_count = f.module_count + length params;
    })
    else bug_check

module _ {E S : Type 0} (ops : ModuleOps E S) (zeroed : E) (driver path : Option ℕ) where
  -- The loops that count down from a slot: the finalisation routines below it.
  pub finalize_below : ℕ → List E → S → S
  finalize_below zero slots s = s
  finalize_below (suc j) slots s =
      finalize_below j slots (ops.finit_routine driver path (get_or slots j zeroed) s)

  -- What follows a call of the initialisation routine in slot `i`: `continue` is the rest of the
  -- loop.
  pub settle : (Status → S → Status × S) → ℕ → List E → Status × S → Status × S
  settle continue i slots ran = elim (nt_success ran.0) [
    | true ↦ continue ran.0 ran.1
    | false ↦ (ran.0, finalize_below i slots ran.1)
  ]

  -- The loop of ModuleFrameworkInitializeModules over so many slots from slot `i` on.
  pub initialize_from : ℕ → ℕ → List E → Status → S → Status × S
  initialize_from zero i slots status s = (status, s)
  initialize_from (suc n) i slots status s =
      settle (initialize_from n (suc i) slots) i slots
        (ops.init_routine driver path (get_or slots i zeroed) s)

module _ {E S : Type 0} (ops : ModuleOps E S) (zeroed : E) where
  pub initialize_modules : Option ℕ → Framework E → S → Status × S
  initialize_modules path f s =
      initialize_from ops zeroed f.driver_object path f.module_count 0 f.modules success s

  pub finalize_modules : Framework E → S → S
  finalize_modules f s = finalize_below ops zeroed f.driver_object none f.module_count f.modules s
