-- ===== src/Common/Lists.antt =====
-- C arrays as lists with native indices, under the library's names.
use Prim.Native.Nat.{ℕ, zero, suc, ◌+◌, ◌≤◌, ◌<◌, min}
use mathlib.Core.Path.{◌≡◌, refl, ap, sym, ◌∙◌}
use mathlib.Core.List.{List, [], ◌∷◌, ◌++◌}
use native.Mathlib.Omega.{arith}
use irpmon.Common.Tests.{◌==◌, if◌then◌else◌, Bool-cases, ==_iff}
use mathlib.Core.Logic.{◌≢◌, inl, inr}

module _ {ℓ} {A : Type ℓ} where
  abbrev pub length : List A → ℕ
  length [] = 0
  length (x ∷ xs) = suc (length xs)

  abbrev pub get_or : List A → ℕ → A → A
  get_or [] i d = d
  get_or (x ∷ xs) zero d = x
  get_or (x ∷ xs) (suc i) d = get_or xs i d

  -- A write out of bounds changes nothing; the components prove that there is none.
  abbrev pub set : List A → ℕ → A → List A
  set [] i v = []
  set (x ∷ xs) zero v = v ∷ xs
  set (x ∷ xs) (suc i) v = x ∷ set xs i v

  abbrev pub take : ℕ → List A → List A
  take zero xs = []
  take (suc n) [] = []
  take (suc n) (x ∷ xs) = x ∷ take n xs

  abbrev pub drop : ℕ → List A → List A
  drop zero xs = xs
  drop (suc n) [] = []
  drop (suc n) (x ∷ xs) = drop n xs

  abbrev pub replicate : ℕ → A → List A
  replicate zero a = []
  replicate (suc n) a = a ∷ replicate n a

  pub length-append : (xs ys : List A) → length (xs ++ ys) ≡ length xs + length ys
  length-append [] ys = omega arith
  length-append (x ∷ xs) ys = omega (arith, length-append xs ys)

  pub length-set : (xs : List A) (i : ℕ) (v : A) → length (set xs i v) ≡ length xs
  length-set [] i v = refl
  length-set (x ∷ xs) zero v = refl
  length-set (x ∷ xs) (suc i) v = ap suc (length-set xs i v)

  pub length-replicate : (n : ℕ) (a : A) → length (replicate n a) ≡ n
  length-replicate zero a = refl
  length-replicate (suc n) a = ap suc (length-replicate n a)

  pub length-take : (n : ℕ) (xs : List A) → length (take n xs) ≡ min n (length xs)
  length-take zero xs = omega arith
  length-take (suc n) [] = omega arith
  length-take (suc n) (x ∷ xs) = omega (arith, length-take n xs)

  pub get_or-set_self :
      (xs : List A) (i : ℕ) (v d : A) → i < length xs → get_or (set xs i v) i d ≡ v
  get_or-set_self [] i v d h = absurd (omega arith)
  get_or-set_self (x ∷ xs) zero v d h = refl
  get_or-set_self (x ∷ xs) (suc i) v d h = get_or-set_self xs i v d (omega arith)

  pub get_or-set_ne :
      (xs : List A) (i j : ℕ) (v d : A) → i ≢ j → get_or (set xs i v) j d ≡ get_or xs j d
  get_or-set_ne [] i j v d h = refl
  get_or-set_ne (x ∷ xs) zero zero v d h = absurd (h refl)
  get_or-set_ne (x ∷ xs) zero (suc j) v d h = refl
  get_or-set_ne (x ∷ xs) (suc i) zero v d h = refl
  get_or-set_ne (x ∷ xs) (suc i) (suc j) v d h = get_or-set_ne xs i j v d (λ e. h (ap suc e))

  -- Two lists of one length with the same elements are equal.
  pub eq_of_get_or :
      (xs ys : List A) (d : A)
      → length xs ≡ length ys
      → ((i : ℕ) → i < length xs → get_or xs i d ≡ get_or ys i d)
      → xs ≡ ys
  eq_of_get_or [] [] d e h = refl
  eq_of_get_or [] (y ∷ ys) d e h = absurd (omega arith)
  eq_of_get_or (x ∷ xs) [] d e h = absurd (omega arith)
  eq_of_get_or (x ∷ xs) (y ∷ ys) d e h =
      let tails = eq_of_get_or xs ys d (omega arith) (λ i l. h (suc i) (omega arith)) in
      let heads : x ≡ y = h 0 (omega arith) in cc

  pub get_or-take :
      (n : ℕ) (xs : List A) (i : ℕ) (d : A) → i < n → get_or (take n xs) i d ≡ get_or xs i d
  get_or-take zero xs i d h = absurd (omega arith)
  get_or-take (suc n) [] i d h = refl
  get_or-take (suc n) (x ∷ xs) zero d h = refl
  get_or-take (suc n) (x ∷ xs) (suc i) d h = get_or-take n xs i d (omega arith)

  pub get_or-append_left :
      (xs ys : List A) (i : ℕ) (d : A) → i < length xs → get_or (xs ++ ys) i d ≡ get_or xs i d
  get_or-append_left [] ys i d h = absurd (omega arith)
  get_or-append_left (x ∷ xs) ys zero d h = refl
  get_or-append_left (x ∷ xs) ys (suc i) d h = get_or-append_left xs ys i d (omega arith)

  -- Appending one element to a full prefix.
  pub take-set_end :
      (n : ℕ) (xs : List A) (v : A)
      → n < length xs
      → take (suc n) (set xs n v) ≡ take n xs ++ (v ∷ [])
  take-set_end n [] v h = absurd (omega arith)
  take-set_end zero (x ∷ xs) v h = refl
  take-set_end (suc n) (x ∷ xs) v h = ap (◌∷◌ x) (take-set_end n xs v (omega arith))

  pub take-suc :
      (n : ℕ) (xs : List A) (d : A)
      → n < length xs
      → take (suc n) xs ≡ take n xs ++ (get_or xs n d ∷ [])
  take-suc n [] d h = absurd (omega arith)
  take-suc zero (x ∷ xs) d h = refl
  take-suc (suc n) (x ∷ xs) d h = ap (◌∷◌ x) (take-suc n xs d (omega arith))

  pub take-append_le : (n : ℕ) (xs ys : List A) → n ≤ length xs → take n (xs ++ ys) ≡ take n xs
  take-append_le zero xs ys h = refl
  take-append_le (suc n) [] ys h = absurd (omega arith)
  take-append_le (suc n) (x ∷ xs) ys h = ap (◌∷◌ x) (take-append_le n xs ys (omega arith))

  pub take-take_le : (m n : ℕ) (xs : List A) → m ≤ n → take m (take n xs) ≡ take m xs
  take-take_le zero n xs h = refl
  take-take_le (suc m) zero xs h = absurd (omega arith)
  take-take_le (suc m) (suc n) [] h = refl
  take-take_le (suc m) (suc n) (x ∷ xs) h = ap (◌∷◌ x) (take-take_le m n xs (omega arith))

  -- Equal lists with one last element each.
  pub snoc-injective :
      (xs ys : List A) (a b : A)
      → length xs ≡ length ys
      → xs ++ (a ∷ []) ≡ ys ++ (b ∷ [])
      → (xs ≡ ys) × (a ≡ b)
  snoc-injective [] [] a b e h = (refl, cc h)
  snoc-injective [] (y ∷ ys) a b e h = absurd (omega arith)
  snoc-injective (x ∷ xs) [] a b e h = absurd (omega arith)
  snoc-injective (x ∷ xs) (y ∷ ys) a b e h =
      let tails : xs ++ (a ∷ []) ≡ ys ++ (b ∷ []) = cc h in
      let heads : x ≡ y = cc h in
      let (same, last) = snoc-injective xs ys a b (omega arith) tails in (cc, last)

  -- A read after a write inside the bounds.
  pub get_or-set :
      (xs : List A) (i j : ℕ) (v d : A)
      → i < length xs
      → get_or (set xs i v) j d ≡ (if i == j then v else get_or xs j d)
  get_or-set xs i j v d h = elim (Bool-cases (i == j)) [
    | inl e ↦
        let same : i ≡ j = (==_iff i j).0 e in
        rw e (ap (λ k. get_or (set xs i v) k d) (sym same) ∙ get_or-set_self xs i v d h)
    | inr ne ↦ rw ne (get_or-set_ne xs i j v d (λ e. cc ((==_iff i j).1 e, ne)))
  ]

  -- Writing back what was there undoes a write.
  pub set-set_back : (xs : List A) (i : ℕ) (v d : A) → set (set xs i v) i (get_or xs i d) ≡ xs
  set-set_back [] i v d = refl
  set-set_back (x ∷ xs) zero v d = refl
  set-set_back (x ∷ xs) (suc i) v d = ap (◌∷◌ x) (set-set_back xs i v d)

-- A predicate holds of every element.
unfoldable pub All {ℓ ℓ'} : {A : Type ℓ} → (A → Type ℓ') → List A → Type ℓ'
All P [] = Unit
All P (x ∷ xs) = P x × All P xs

pub All-append {ℓ ℓ'} :
    {A : Type ℓ} (P : A → Type ℓ') (xs ys : List A) → All P xs → All P ys → All P (xs ++ ys)
unfolding All
All-append P [] ys h k = k
All-append P (x ∷ xs) ys (hx, h) k = (hx, All-append P xs ys h k)

pub All-map {ℓ ℓ' ℓ''} :
    {A : Type ℓ} (P : A → Type ℓ') (Q : A → Type ℓ'')
    → ((a : A) → P a → Q a)
    → (xs : List A) → All P xs
    → All Q xs
unfolding All
All-map P Q f [] h = tt
All-map P Q f (x ∷ xs) (hx, h) = (f x hx, All-map P Q f xs h)
