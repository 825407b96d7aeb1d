-- ===== src/DymArray/Cells.antt =====
-- What the loops of km-shared/utils-dym-array.c do to the cells of a buffer.
use irpmon.Common.{
  ℕ, zero, suc, ◌+◌, ◌≤◌, ◌<◌, ◌≡◌, refl, ap, sym, ◌∙◌, List, [], ◌∷◌, Option, none, arith, length,
  get_or, set, take, length-take, length-set, get_or-set_self, get_or-set_ne, eq_of_get_or,
  get_or-take,
}
use irpmon.DymArray.{copy_cells, shift_up, shift_down}

module _ {A : Type 0} where
  pub length-copy_cells :
      (n : ℕ) (from to : List (Option A)) → length (copy_cells n from to) ≡ length to
  unfolding copy_cells
  length-copy_cells zero from to = refl
  length-copy_cells (suc n) [] [] = refl
  length-copy_cells (suc n) [] (y ∷ to) = refl
  length-copy_cells (suc n) (x ∷ from) [] = refl
  length-copy_cells (suc n) (x ∷ from) (y ∷ to) = ap suc (length-copy_cells n from to)

  pub take-copy_cells :
      (n : ℕ) (from to : List (Option A))
      → n ≤ length from
      → n ≤ length to
      → take n (copy_cells n from to) ≡ take n from
  unfolding copy_cells
  take-copy_cells zero from to h k = refl
  take-copy_cells (suc n) [] to h k = absurd (omega arith)
  take-copy_cells (suc n) (x ∷ from) [] h k = absurd (omega arith)
  take-copy_cells (suc n) (x ∷ from) (y ∷ to) h k =
      ap (◌∷◌ x) (take-copy_cells n from to (omega arith) (omega arith))

  pub length-shift_up : (n : ℕ) (d : List (Option A)) → length (shift_up n d) ≡ length d
  unfolding shift_up
  length-shift_up zero d = refl
  length-shift_up (suc n) d = length-shift_up n _ ∙ length-set d (suc n) _

  pub length-shift_down : (n i : ℕ) (d : List (Option A)) → length (shift_down n i d) ≡ length d
  unfolding shift_down
  length-shift_down zero i d = refl
  length-shift_down (suc n) i d = length-shift_down n (suc i) _ ∙ length-set d i _

  -- The cells above the range that is shifted stay.
  shift_up_above :
      (n : ℕ) (d : List (Option A)) (j : ℕ) → n < j → get_or (shift_up n d) j none ≡ get_or d j none
  unfolding shift_up
  shift_up_above zero d j h = refl
  shift_up_above (suc n) d j h =
      shift_up_above n _ j (omega arith) ∙ get_or-set_ne d (suc n) j _ none (omega arith)

  pub get_or-shift_up :
      (n : ℕ) (d : List (Option A)) (j : ℕ)
      → n < length d
      → j < n
      → get_or (shift_up n d) (suc j) none ≡ get_or d j none
  unfolding shift_up
  get_or-shift_up (suc n) d j h k =
      let x = get_or d n none in
      ground (
        arith,
        shift_up_above n (set d (suc n) x) (suc j),
        get_or-shift_up n (set d (suc n) x) j,
        length-set d (suc n) x,
        get_or-set_self d (suc n) x none,
        get_or-set_ne d (suc n) j x none,
      )
  get_or-shift_up zero d j h k = absurd (omega arith)

  shift_down_below :
      (n i : ℕ) (d : List (Option A)) (j : ℕ)
      → j < i
      → get_or (shift_down n i d) j none ≡ get_or d j none
  unfolding shift_down
  shift_down_below zero i d j h = refl
  shift_down_below (suc n) i d j h =
      shift_down_below n (suc i) _ j (omega arith) ∙ get_or-set_ne d i j _ none (omega arith)

  pub get_or-shift_down :
      (n i : ℕ) (d : List (Option A)) (j : ℕ)
      → i + n < length d
      → i ≤ j
      → j < i + n
      → get_or (shift_down n i d) j none ≡ get_or d (suc j) none
  unfolding shift_down
  get_or-shift_down zero i d j h k l = absurd (omega arith)
  get_or-shift_down (suc n) i d j h k l =
      let x = get_or d (suc i) none in
      ground (
        arith,
        shift_down_below n (suc i) (set d i x) j,
        get_or-shift_down n (suc i) (set d i x) j,
        length-set d i x,
        get_or-set_self d i x none,
        get_or-set_ne d i (suc j) x none,
      )

  shifted_up_at :
      (n : ℕ) (d : List (Option A)) (v : Option A) (i : ℕ)
      → n < length d
      → i < suc n
      → get_or (take (suc n) (set (shift_up n d) 0 v)) i none
        ≡ get_or {A = Option A} (v ∷ take n d) i none
  shifted_up_at n d v zero h l =
      get_or-take (suc n) (set (shift_up n d) 0 v) 0 none (omega arith)
      ∙ get_or-set_self (shift_up n d) 0 v none (omega (arith, length-shift_up n d))
  shifted_up_at n d v (suc i) h l =
      get_or-take (suc n) (set (shift_up n d) 0 v) (suc i) none l
      ∙ get_or-set_ne (shift_up n d) 0 (suc i) v none (omega arith)
      ∙ get_or-shift_up n d i h (omega arith)
      ∙ sym (get_or-take n d i none (omega arith))

  -- The loop of DymArrayPushFront, and the write of the new first cell.
  pub take-shift_up :
      (n : ℕ) (d : List (Option A)) (v : Option A)
      → n < length d
      → take (suc n) (set (shift_up n d) 0 v) ≡ v ∷ take n d
  take-shift_up n d v h =
      let wide = length-take (suc n) (set (shift_up n d) 0 v) in
      let same = length-set (shift_up n d) 0 v ∙ length-shift_up n d in
      eq_of_get_or _ _ none (omega (arith, wide, same, length-take n d))
        (λ i l. shifted_up_at n d v i h (omega (arith, wide)))

  shifted_down_at :
      (n : ℕ) (d : List (Option A)) (i : ℕ)
      → n < length d
      → i < suc n
      → get_or (take (suc n) d) i none
        ≡ get_or {A = Option A} (get_or d 0 none ∷ take n (shift_down n 0 d)) i none
  shifted_down_at n d zero h l = get_or-take (suc n) d 0 none (omega arith)
  shifted_down_at n d (suc i) h l =
      get_or-take (suc n) d (suc i) none l
      ∙ sym (get_or-shift_down n 0 d i (omega arith) (omega arith) (omega arith))
      ∙ sym (get_or-take n (shift_down n 0 d) i none (omega arith))

  -- The loop of DymArrayPopFront.
  pub take-shift_down :
      (n : ℕ) (d : List (Option A))
      → n < length d
      → take (suc n) d ≡ get_or d 0 none ∷ take n (shift_down n 0 d)
  take-shift_down n d h =
      let wide = length-take (suc n) d in
      let same = length-take n (shift_down n 0 d) in
      eq_of_get_or _ _ none (omega (arith, wide, same, length-shift_down n 0 d))
        (λ i l. shifted_down_at n d i h (omega (arith, wide)))
