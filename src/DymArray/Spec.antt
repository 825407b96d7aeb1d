-- ===== src/DymArray/Spec.antt =====
-- What an array of km-shared/utils-dym-array.c stands for: a sequence of values.
use irpmon.Common.{
  ℕ, zero, suc, ◌≤◌, ◌<◌, ◌≡◌, refl, ap, List, [], ◌∷◌, ◌++◌, Option, none, some, map, arith,
  length, get_or, take, length-take,
}
use irpmon.DymArray.{DymArray}

-- `a` stands for `xs`: its buffer has the allocated length, and its valid cells hold `xs`.
pub record Represents {A : Type 0} (a : DymArray A) (xs : List A) : Type 0 where
  pub buffer : length a.cells ≡ a.allocated_length
  pub fits : a.valid_length ≤ a.allocated_length
  pub valid : take a.valid_length a.cells ≡ map some xs

module _ {A : Type 0} where
  pub length-map-some : (xs : List A) → length (map {B = Option A} some xs) ≡ length xs
  length-map-some [] = refl
  length-map-some (x ∷ xs) = ap suc (length-map-some xs)

  pub map-some-append :
      (xs ys : List A) → map {B = Option A} some (xs ++ ys) ≡ map some xs ++ map some ys
  map-some-append [] ys = refl
  map-some-append (x ∷ xs) ys = ap (◌∷◌ (some x)) (map-some-append xs ys)

  pub get_or-map-some :
      (xs : List A) (i : ℕ) (d : A)
      → i < length xs
      → get_or {A = Option A} (map some xs) i none ≡ some (get_or xs i d)
  get_or-map-some [] i d h = absurd (omega arith)
  get_or-map-some (x ∷ xs) zero d h = refl
  get_or-map-some (x ∷ xs) (suc i) d h = get_or-map-some xs i d (omega arith)

  -- The valid length is the length of the sequence.
  pub Represents-length :
      {a : DymArray A} {xs : List A} → Represents a xs → a.valid_length ≡ length xs
  Represents-length {a} {xs} r = omega (
    arith,
    ap length r.valid,
    length-take a.valid_length a.cells,
    length-map-some xs,
    r.buffer,
    r.fits,
  )
