-- ===== src/DymArray/Grow.antt =====
-- The routines of km-shared/utils-dym-array.c that move the buffer: DymArrayReserve, and the
-- pushes that call it.
use Prim.Native.Nat.{min}
use irpmon.Common.{
  ℕ, ◌+◌, ◌≤◌, ◌<◌, ◌^◌, ◌%◌, ◌≡◌, refl, ◌∙◌, ◌⊎◌, inl, inr, List, arith, length, length-replicate,
  ◌==◌, Bool-cases,
}
use irpmon.Kernel.{Pool, pool_alloc, pool_free, success, insufficient_resources, bytes}
use irpmon.DymArray.{
  DymArray, Outcome, reserve, retry, make_room, copy_cells, fresh_cells, buffer_bytes, grown_length,
}
use irpmon.DymArray.Cells.{length-copy_cells, take-copy_cells}
use irpmon.DymArray.Spec.{Represents}

length-fresh_cells : (A : Type 0) (n : ℕ) → n < 2 ^ 61 → length (fresh_cells {A = A} n) ≡ n
length-fresh_cells A n h = length-replicate _ _ ∙ omega arith

module _ {A : Type 0} where
  -- A routine that only moved the buffer: the array stands for the same values, and no block is
  -- lost.
  pub record Moved (p : Pool) (xs : List A) (o : Outcome (DymArray A)) : Type 0 where
    pub same : Represents o.result xs
    pub live : o.pool.live ≡ p.live

  copied-Represents :
      (a : DymArray A) {xs : List A} (len : ℕ)
      → Represents a xs
      → a.valid_length ≤ len
      → len < 2 ^ 61
      → Represents
          (record a {
            cells = copy_cells a.valid_length a.cells (fresh_cells len);
            allocated_length = len;
          })
          xs
  copied-Represents a len r h small =
      let wide = length-fresh_cells A len small in
      record {
        buffer = length-copy_cells a.valid_length a.cells (fresh_cells len) ∙ wide;
        fits = h;
        valid =
            take-copy_cells a.valid_length a.cells (fresh_cells len)
              (omega (arith, r.buffer, r.fits)) (omega (arith, wide))
            ∙ r.valid;
      }

  -- DymArrayReserve: with room for the values it moves them to a buffer of the length that was
  -- asked for, and when there is no memory it changes nothing.
  pub reserve-Moved :
      (len : ℕ) (p : Pool) (a : DymArray A) {xs : List A}
      → Represents a xs
      → a.valid_length ≤ len
      → len < 2 ^ 61
      → Moved p xs (reserve len p a)
        × ((reserve len p a).result.valid_length ≡ a.valid_length)
        × (((reserve len p a).status ≡ success) × ((reserve len p a).result.allocated_length ≡ len)
            ⊎ ((reserve len p a).status ≡ insufficient_resources) × ((reserve len p a).result ≡ a))
  unfolding reserve pool_alloc pool_free
  reserve-Moved len p a r h small =
      let e : min a.valid_length len ≡ a.valid_length = omega arith in
      let moved = copied-Represents a len r h small in
      elim (Bool-cases (p.grants p.asked (bytes (buffer_bytes len)))) [
        | inl granted ↦
            rw (granted, e) (record { same = moved; live = omega arith }, refl, inl (refl, refl))
        | inr refused ↦ rw refused (record { same = r; live = refl }, refl, inr (refl, refl))
      ]

  -- The result of a second step on top of a first one.
  Moved-trans :
      {p : Pool} {xs : List A} {o : Outcome (DymArray A)} {q : Outcome (DymArray A)}
      → Moved p xs o
      → Moved o.pool xs q
      → Moved p xs q
  Moved-trans m k = record { same = k.same; live = k.live ∙ m.live }

  -- There is room for one more value, or there is no memory.
  abbrev Roomy : Outcome (DymArray A) → Type 0
  Roomy o =
      (o.status ≡ success) × (o.result.valid_length < o.result.allocated_length)
      ⊎ (o.status ≡ insufficient_resources)

  retry-Moved :
      {p : Pool} {xs : List A} (o : Outcome (DymArray A))
      → Moved p xs o
      → o.result.allocated_length < 2 ^ 60
      → (o.status ≡ success) ⊎ (o.status ≡ insufficient_resources)
      → Moved p xs (retry o) × Roomy (retry o)
  unfolding retry
  retry-Moved o m small told =
      let n = o.result.allocated_length in
      let e : (n + 1) % 2 ^ 64 ≡ n + 1 = omega arith in
      elim (Bool-cases (o.result.valid_length == n)) [
        | inr room ↦ rw room (m, ground (arith, told, m.same.fits))
        | inl full ↦
            rw (full, e)
              (let (moved, kept, said) =
                  reserve-Moved (n + 1) o.pool o.result m.same (omega (arith, m.same.fits))
                    (omega arith) in
                (Moved-trans m moved, ground (arith, kept, said)))
      ]

  -- The head of both pushes: it makes room for one more value, or reports that there is no
  -- memory; the array stands for the same values either way.
  pub make_room-Moved :
      (p : Pool) (a : DymArray A) {xs : List A}
      → Represents a xs
      → a.allocated_length < 2 ^ 56
      → Moved p xs (make_room p a) × Roomy (make_room p a)
  unfolding make_room
  make_room-Moved p a r small =
      let n = a.allocated_length in
      let (moved, kept, told) =
        reserve-Moved (grown_length n) p a r (omega (arith, r.fits)) (omega arith) in
      elim (Bool-cases (a.valid_length == n)) [
        | inr room ↦ rw room (record { same = r; live = refl }, ground (arith, r.fits))
        | inl full ↦ rw full (retry-Moved _ moved (ground (arith, told)) (ground (arith, told)))
      ]
