-- ===== src/Modules/Order.antt =====
-- The order in which km-shared/modules.c runs the routines of the modules.
use irpmon.Common.{
  ℕ, zero, suc, ◌+◌, ◌≡◌, refl, sym, ap, ◌∙◌, List, [], ◌∷◌, ◌++◌, Option, none, true, false, arith,
  length, get_or,
}
use irpmon.Kernel.{Status, success, nt_success}
use irpmon.Modules.{
  ModuleOps, Framework, settle, finalize_below, initialize_from, initialize_modules,
  finalize_modules,
}
use irpmon.Modules.Registry.{Holds, append_assoc, get_or-middle}

-- The numbers of the loop before and after it has run over a list.
abbrev ahead : {A : Type 0} → List A → ℕ → ℕ
ahead [] n = n
ahead (x ∷ xs) n = suc (ahead xs n)

abbrev passed : {A : Type 0} → List A → ℕ → ℕ
passed [] i = i
passed (x ∷ xs) i = passed xs (suc i)

ahead-length : {A : Type 0} (xs ys : List A) → ahead xs (length ys) ≡ length (xs ++ ys)
ahead-length [] ys = refl
ahead-length (x ∷ xs) ys = ap suc (ahead-length xs ys)

ahead_zero : {A : Type 0} (xs : List A) → ahead xs 0 ≡ length xs
ahead_zero [] = refl
ahead_zero (x ∷ xs) = ap suc (ahead_zero xs)

passed_lem : {A : Type 0} (xs : List A) (i : ℕ) → passed xs i ≡ length xs + i
passed_lem [] i = omega arith
passed_lem (x ∷ xs) i = omega (arith, passed_lem xs (suc i))

module _ {E S : Type 0} (ops : ModuleOps E S) (zeroed : E) (driver path : Option ℕ) where
  -- All the initialisation routines of the list succeed, and lead from one state to the other.
  unfoldable pub Initialized : List E → S → S → Type 0
  Initialized [] s s' = s ≡ s'
  Initialized (e ∷ es) s s' =
      (nt_success (ops.init_routine driver path e s).0 ≡ true)
      × Initialized es (ops.init_routine driver path e s).1 s'

  -- The finalisation routines of the list, the last module's first.
  pub unwind : List E → S → S
  unwind [] s = s
  unwind (e ∷ es) s = ops.finit_routine driver path e (unwind es s)

  finalize_below-first :
      (n : ℕ) (e : E) (slots : List E) (s : S)
      → finalize_below ops zeroed driver path (suc n) (e ∷ slots) s
        ≡ ops.finit_routine driver path e (finalize_below ops zeroed driver path n slots s)
  unfolding finalize_below
  finalize_below-first zero e slots s = refl
  finalize_below-first (suc n) e slots s = finalize_below-first n e slots _

  pub finalize_below-unwind :
      (es rest : List E) (s : S)
      → finalize_below ops zeroed driver path (length es) (es ++ rest) s ≡ unwind es s
  unfolding finalize_below unwind
  finalize_below-unwind [] rest s = refl
  finalize_below-unwind (e ∷ es) rest s =
      finalize_below-first (length es) e (es ++ rest) s
      ∙ ap (ops.finit_routine driver path e) (finalize_below-unwind es rest s)

  -- The array has these modules from a slot on.
  Stored : List E → ℕ → List E → Type 0
  Stored slots i [] = Unit
  Stored slots i (e ∷ es) = (get_or slots i zeroed ≡ e) × Stored slots (suc i) es

  Stored-suc :
      (x : E) (slots : List E) (i : ℕ) (es : List E)
      → Stored slots i es
      → Stored (x ∷ slots) (suc i) es
  unfolding Stored
  Stored-suc x slots i [] h = tt
  Stored-suc x slots i (e ∷ es) (here, later) = (here, Stored-suc x slots (suc i) es later)

  Stored-append : (es rest : List E) → Stored (es ++ rest) 0 es
  unfolding Stored
  Stored-append [] rest = tt
  Stored-append (e ∷ es) rest = (refl, Stored-suc e (es ++ rest) 0 es (Stored-append es rest))

  initialize_from-suc :
      (n i : ℕ) (slots : List E) (status : Status) (e : E) (s : S)
      → get_or slots i zeroed ≡ e
      → nt_success (ops.init_routine driver path e s).0 ≡ true
      → initialize_from ops zeroed driver path (suc n) i slots status s
        ≡ initialize_from ops zeroed driver path n
            (suc i)
            slots
            (ops.init_routine driver path e s).0
            (ops.init_routine driver path e s).1
  unfolding initialize_from settle
  initialize_from-suc n i slots status e s here now = rw (here, now, settle) (rw here refl)

  initialize_from-fails :
      (n i : ℕ) (slots : List E) (status : Status) (e : E) (s : S)
      → get_or slots i zeroed ≡ e
      → nt_success (ops.init_routine driver path e s).0 ≡ false
      → initialize_from ops zeroed driver path (suc n) i slots status s ≡ (
        (ops.init_routine driver path e s).0,
        finalize_below ops zeroed driver path i slots (ops.init_routine driver path e s).1,
      )
  unfolding initialize_from settle
  initialize_from-fails n i slots status e s here now = rw (here, now, settle) (rw here refl)

  -- The loop gets past modules that are initialised.
  initialize_from-Initialized :
      (es slots : List E) (i n : ℕ) (status : Status) (s s' : S)
      → nt_success status ≡ true
      → Stored slots i es
      → Initialized es s s'
      → (last : Status) × (nt_success last ≡ true)
        × (initialize_from ops zeroed driver path (ahead es n) i slots status s
            ≡ initialize_from ops zeroed driver path n (passed es i) slots last s')
  unfolding initialize_from Initialized Stored
  initialize_from-Initialized [] slots i n status s s' ok at h =
      (status, ok, ap (initialize_from ops zeroed driver path n i slots status) h)
  initialize_from-Initialized (e ∷ es) slots i n status s s' ok (here, at) (now, later) =
      let (last, good, eq) =
        initialize_from-Initialized es slots (suc i) n (ops.init_routine driver path e s).0
          (ops.init_routine driver path e s).1 s' now at later in
      (last, good, initialize_from-suc (ahead es n) i slots status e s here now ∙ eq)

module _ {E S : Type 0} (ops : ModuleOps E S) (zeroed : E) where
  -- When all the initialisation routines succeed, `ModuleFrameworkInitializeModules` returns a
  -- success and has run them in the order of registration.
  pub initialize_modules-Initialized :
      (path : Option ℕ) (f : Framework E) (es : List E) (s s' : S)
      → Holds f es
      → Initialized ops zeroed f.driver_object path es s s'
      → (last : Status) × (nt_success last ≡ true)
        × (initialize_modules ops zeroed path f s ≡ (last, s'))
  unfolding initialize_modules initialize_from
  initialize_modules-Initialized path f es s s' holds h =
      let (last, good, eq) =
        initialize_from-Initialized ops zeroed f.driver_object path es (es ++ holds.rest) 0 0
          success s s' refl (Stored-append ops zeroed f.driver_object path es holds.rest) h in
      let count : f.module_count ≡ ahead es 0 = holds.count ∙ sym (ahead_zero es) in
      (last, good, rw (holds.slots, count) eq)

  -- When a module's initialisation routine fails after those of the modules registered before it
  -- succeeded, `ModuleFrameworkInitializeModules` returns the failing routine's status, calls no
  -- later routine, and runs the finalisation routines of the modules before it, the last first.
  pub initialize_modules-rollback :
      (path : Option ℕ) (f : Framework E) (before later : List E) (bad : E) (s s' : S)
      → Holds f (before ++ (bad ∷ later))
      → Initialized ops zeroed f.driver_object path before s s'
      → nt_success (ops.init_routine f.driver_object path bad s').0 ≡ false
      → initialize_modules ops zeroed path f s ≡ (
        (ops.init_routine f.driver_object path bad s').0,
        unwind ops zeroed f.driver_object path before
            (ops.init_routine f.driver_object path bad s').1,
      )
  unfolding initialize_modules
  initialize_modules-rollback path f before later bad s s' holds h fails =
      let slots = before ++ (bad ∷ (later ++ holds.rest)) in
      let (last, good, eq) =
        initialize_from-Initialized ops zeroed f.driver_object path before slots 0
          (suc (length later)) success s s' refl
          (Stored-append ops zeroed f.driver_object path before _) h in
      let first : passed before 0 ≡ length before = omega (arith, passed_lem before 0) in
      let here : get_or slots (passed before 0) zeroed ≡ bad =
        rw first (get_or-middle before bad (later ++ holds.rest) zeroed) in
      let unwound : finalize_below ops zeroed f.driver_object path (passed before 0) slots
            (ops.init_routine f.driver_object path bad s').1
          ≡ unwind ops zeroed f.driver_object path before
              (ops.init_routine f.driver_object path bad s').1 =
        rw first (
          finalize_below-unwind ops zeroed f.driver_object path before (bad ∷ (later ++ holds.rest))
            (ops.init_routine f.driver_object path bad s').1) in
      let count : f.module_count ≡ ahead before (suc (length later)) =
        holds.count ∙ sym (ahead-length before (bad ∷ later)) in
      let array : f.modules ≡ slots = holds.slots ∙ append_assoc before (bad ∷ later) holds.rest in
      rw (array, count)
        (eq
          ∙ initialize_from-fails ops zeroed f.driver_object path (length later) (passed before 0)
              slots last bad s' here fails
          ∙ ap (λ u. ((ops.init_routine f.driver_object path bad s').0, u)) unwound)

  -- `ModuleFrameworkFinalizeModules` runs the finalisation routines of all the modules in the order
  -- opposite to their registration, with no registry path.
  pub finalize_modules-unwind :
      (f : Framework E) (es : List E) (s : S)
      → Holds f es
      → finalize_modules ops zeroed f s ≡ unwind ops zeroed f.driver_object none es s
  unfolding finalize_modules
  finalize_modules-unwind f es s holds =
      rw (holds.slots, holds.count)
        (finalize_below-unwind ops zeroed f.driver_object none es holds.rest s)
