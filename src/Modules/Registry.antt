-- ===== src/Modules/Registry.antt =====
-- The modules that the framework of km-shared/modules.c holds, and their registration.
use irpmon.Common.{
  ℕ, suc, ◌+◌, ◌≤◌, ◌≡◌, refl, sym, ap, ◌∙◌, List, [], ◌∷◌, ◌++◌, true, arith, length, get_or, set,
  length-append, length-set, le→leb, drop, leb,
}
use irpmon.Kernel.{done}
use irpmon.Modules.{Framework, max_modules, store, add_modules}

-- The framework holds these modules, in this order, at the start of its array.
pub record Holds {E : Type 0} (f : Framework E) (es : List E) : Type 0 where
  pub rest : List E
  pub slots : f.modules ≡ es ++ rest
  pub count : f.module_count ≡ length es
  pub space : length f.modules ≡ max_modules

pub append-nil : {A : Type 0} (xs : List A) → xs ++ [] ≡ xs
append-nil [] = refl
append-nil (x ∷ xs) = ap (◌∷◌ x) (append-nil xs)

pub append_assoc : {A : Type 0} (xs ys zs : List A) → (xs ++ ys) ++ zs ≡ xs ++ (ys ++ zs)
append_assoc [] ys zs = refl
append_assoc (x ∷ xs) ys zs = ap (◌∷◌ x) (append_assoc xs ys zs)

pub get_or-middle :
    {A : Type 0} (xs : List A) (y : A) (ys : List A) (d : A)
    → get_or (xs ++ (y ∷ ys)) (length xs) d ≡ y
get_or-middle [] y ys d = refl
get_or-middle (x ∷ xs) y ys d = get_or-middle xs y ys d

pub set-middle :
    {A : Type 0} (xs : List A) (y z : A) (ys : List A)
    → set (xs ++ (y ∷ ys)) (length xs) z ≡ xs ++ (z ∷ ys)
set-middle [] y z ys = refl
set-middle (x ∷ xs) y z ys = ap (◌∷◌ x) (set-middle xs y z ys)

store-append :
    {E : Type 0} (params es rest : List E)
    → length params ≤ length rest
    → store params (length es) (es ++ rest) ≡ (es ++ params) ++ drop (length params) rest
unfolding store
store-append [] es rest h = ap (λ l. l ++ rest) (sym (append-nil es))
store-append (p ∷ ps) es [] h = absurd (omega arith)
store-append (p ∷ ps) es (r ∷ rest) h =
    let longer = es ++ (p ∷ []) in
    let index : suc (length es) ≡ length longer = omega (arith, length-append es (p ∷ [])) in
    let written : set (es ++ (r ∷ rest)) (length es) p ≡ longer ++ rest =
      set-middle es r p rest ∙ sym (append_assoc es (p ∷ []) rest) in
    rw (written, index)
      (store-append ps longer rest (omega arith)
        ∙ ap (λ l. l ++ drop (length ps) rest) (append_assoc es (p ∷ []) ps))

length-store :
    {E : Type 0} (params : List E) (i : ℕ) (slots : List E)
    → length (store params i slots) ≡ length slots
unfolding store
length-store [] i slots = refl
length-store (p ∷ ps) i slots = length-store ps (suc i) (set slots i p) ∙ length-set slots i p

-- Registering modules appends them to those the framework holds, in the order given, as long as
-- there is room for them all.
pub add_modules-Holds :
    {E : Type 0} (params es : List E) (f : Framework E)
    → Holds f es
    → length es + length params ≤ max_modules
    → (g : Framework E) × (add_modules params f ≡ done g) × Holds g (es ++ params)
unfolding add_modules
add_modules-Holds params es f holds room =
    let fits : leb (f.module_count + length params) max_modules ≡ true =
      le→leb _ _ (omega (arith, holds.count)) in
    let total = ap length holds.slots ∙ length-append es holds.rest in
    let left : length params ≤ length holds.rest = omega (arith, total, holds.space) in
    let stored = store-append params es holds.rest left in
    (
      record f {
        modules = store params f.module_count f.modules;
        module_count = f.module_count + length params;
      },
      rw fits refl,
      record {
        rest = drop (length params) holds.rest;
        slots = rw (holds.slots, holds.count) stored;
        count = omega (arith, holds.count, length-append es params);
        space = length-store params f.module_count f.modules ∙ holds.space;
      },
    )
