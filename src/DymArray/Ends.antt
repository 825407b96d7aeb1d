-- ===== src/DymArray/Ends.antt =====
-- The pushes, the pops and the reads of km-shared/utils-dym-array.c, against sequences.
use native.Mathlib.Numerals.{add-one}
use irpmon.Common.{
  ℕ, suc, ◌+◌, ◌-◌, ◌≤◌, ◌<◌, ◌^◌, ◌%◌, ◌≡◌, refl, ap, sym, ◌∙◌, ◌⊎◌, inl, inr, List, [], ◌∷◌, ◌++◌,
  Option, none, some, map, arith, length, get_or, set, take, length-take, length-set, take-set_end,
  ltb, lt→ltb, Bool-cases, true, if◌then◌else◌, take-suc, get_or-take, length-append,
  snoc-injective, ltb→lt,
}
use mathlib.Core.List.{append_assoc, append-nil}
use irpmon.Kernel.{done, bug_check, Pool, success, insufficient_resources}
use irpmon.DymArray.{
  DymArray, Outcome, reserve, push_back, push_back_no_alloc, push_array_no_alloc, push_array,
  push_front, pop_back, pop_front, item, to_static_array, shift_up, shift_down,
}
use irpmon.DymArray.Cells.{take-shift_up, length-shift_up, take-shift_down, length-shift_down}
use irpmon.DymArray.Spec.{
  Represents, Represents-length, map-some-append, get_or-map-some, length-map-some,
}
use irpmon.DymArray.Grow.{make_room-Moved, reserve-Moved}

module _ {A : Type 0} where
  -- The write of one more value behind the valid ones.
  stored_back-Represents :
      (b : DymArray A) {xs : List A} (v : A)
      → Represents b xs
      → b.valid_length < b.allocated_length
      → Represents
          (record b {
            cells = set b.cells b.valid_length (some v);
            valid_length = b.valid_length + 1;
          })
          (xs ++ v ∷ [])
  stored_back-Represents b v r room = record {
    buffer = length-set b.cells b.valid_length (some v) ∙ r.buffer;
    fits = omega arith;
    valid =
        rw (add-one, map-some-append)
          (take-set_end b.valid_length b.cells (some v) (omega (arith, r.buffer))
            ∙ ap (λ t. t ++ (some v ∷ [])) r.valid);
  }

  stored_front-Represents :
      (b : DymArray A) {xs : List A} (v : A)
      → Represents b xs
      → b.valid_length < b.allocated_length
      → Represents
          (record b {
            cells = set (shift_up b.valid_length b.cells) 0 (some v);
            valid_length = b.valid_length + 1;
          })
          (v ∷ xs)
  stored_front-Represents b v r room = record {
    buffer =
        length-set (shift_up b.valid_length b.cells) 0 (some v)
        ∙ length-shift_up b.valid_length b.cells
        ∙ r.buffer;
    fits = omega arith;
    valid = rw add-one (
        take-shift_up b.valid_length b.cells (some v) (omega (arith, r.buffer))
        ∙ ap (◌∷◌ (some v)) r.valid);
  }

  -- What a push leaves: the longer sequence under success, the old one where there is no memory.
  -- The number of live blocks does not change.
  pub record Pushed (p : Pool) (old new : List A) (o : Outcome (DymArray A)) : Type 0 where
    pub live : o.pool.live ≡ p.live
    pub pushed :
        (o.status ≡ success) × Represents o.result new
        ⊎ (o.status ≡ insufficient_resources) × Represents o.result old

  -- DymArrayPushBack appends the value, or runs out of memory and keeps the sequence.
  pub push_back-Pushed :
      (v : A) (p : Pool) (a : DymArray A) {xs : List A}
      → Represents a xs
      → a.allocated_length < 2 ^ 56
      → Pushed p xs (xs ++ v ∷ []) (push_back v p a)
  unfolding push_back
  push_back-Pushed v p a r small =
      let (moved, roomy) = make_room-Moved p a r small in
      elim roomy [
        | inl (ok, room) ↦ rw ok (record {
          live = moved.live;
          pushed = inl (refl, stored_back-Represents _ v moved.same room);
        })
        | inr no_memory ↦
            rw no_memory (record { live = moved.live; pushed = inr (refl, moved.same) })
      ]

  -- DymArrayPushFront puts the value in front of all others, or runs out of memory and keeps the
  -- sequence.
  pub push_front-Pushed :
      (v : A) (p : Pool) (a : DymArray A) {xs : List A}
      → Represents a xs
      → a.allocated_length < 2 ^ 56
      → Pushed p xs (v ∷ xs) (push_front v p a)
  unfolding push_front
  push_front-Pushed v p a r small =
      let (moved, roomy) = make_room-Moved p a r small in
      elim roomy [
        | inl (ok, room) ↦ rw ok (record {
          live = moved.live;
          pushed = inl (refl, stored_front-Represents _ v moved.same room);
        })
        | inr no_memory ↦
            rw no_memory (record { live = moved.live; pushed = inr (refl, moved.same) })
      ]

  nonempty :
      {a : DymArray A} {x : A} {xs : List A} → Represents a (x ∷ xs) → ltb 0 a.valid_length ≡ true
  nonempty r = lt→ltb _ _ (omega (arith, Represents-length r))

  -- DymArrayPopFront returns the first value and leaves the rest.
  pub pop_front-Represents :
      (a : DymArray A) (x : A) {xs : List A}
      → Represents a (x ∷ xs)
      → (b : DymArray A) × (pop_front a ≡ done (some x, b)) × Represents b xs
  unfolding pop_front
  pop_front-Represents a x {xs} r =
      let n = a.valid_length - 1 in
      let e : a.valid_length ≡ suc n = omega (arith, Represents-length r) in
      let whole : take (suc n) a.cells ≡ some x ∷ map some xs =
        ap (λ k. take k a.cells) (sym e) ∙ r.valid in
      let split : get_or a.cells 0 none ∷ take n (shift_down n 0 a.cells) ≡ some x ∷ map some xs =
        sym (take-shift_down n a.cells (omega (arith, r.buffer, r.fits, e))) ∙ whole in
      let first : get_or a.cells 0 none ≡ some x = cc split in
      (
        record a { cells = shift_down n 0 a.cells; valid_length = n },
        rw (nonempty r) (
            ap (λ v. done (v, record a { cells = shift_down n 0 a.cells; valid_length = n }))
              first),
        record {
          buffer = length-shift_down n 0 a.cells ∙ r.buffer;
          fits = omega (arith, r.fits);
          valid = cc split;
        },
      )

  -- DymArrayPopBack returns the last value and leaves the ones before it.
  pub pop_back-Represents :
      (a : DymArray A) (xs : List A) (x : A)
      → Represents a (xs ++ x ∷ [])
      → (b : DymArray A) × (pop_back a ≡ done (some x, b)) × Represents b xs
  unfolding pop_back
  pop_back-Represents a xs x r =
      let n = a.valid_length - 1 in
      let e : a.valid_length ≡ suc n =
        omega (arith, Represents-length r, length-append xs (x ∷ [])) in
      let wide : length (take n a.cells) ≡ length (map {B = Option A} some xs) = omega (
        arith,
        length-take n a.cells,
        length-map-some xs,
        Represents-length r,
        length-append xs (x ∷ []),
        r.buffer,
        r.fits,
      ) in
      let split : take n a.cells ++ (get_or a.cells n none ∷ []) ≡ map some xs ++ (some x ∷ []) =
        sym (take-suc n a.cells none (omega (arith, r.buffer, r.fits, e)))
        ∙ ap (λ k. take k a.cells) (sym e)
        ∙ r.valid
        ∙ map-some-append xs (x ∷ []) in
      let (front, last) = snoc-injective _ _ _ _ wide split in
      (
        record a { valid_length = n },
        rw (lt→ltb 0 a.valid_length (omega (arith, e)))
            (ap (λ v. done (v, record a { valid_length = n })) last),
        record { buffer = r.buffer; fits = omega (arith, r.fits); valid = front },
      )

  -- DymArrayItem reads the value at an index below the length; any other index is a bug check.
  pub item-Represents :
      (a : DymArray A) (xs : List A) (i : ℕ) (d : A)
      → Represents a xs
      → item a i ≡ (if ltb i (length xs) then done (some (get_or xs i d)) else bug_check)
  unfolding item
  item-Represents a xs i d r =
      let n = Represents-length r in
      elim (Bool-cases (ltb i (length xs))) [
        | inr out ↦ rw (n, out)
        | inl within ↦
            let below : i < length xs = ltb→lt i (length xs) within in
            rw (n, within)
              (ap done (
                sym (get_or-take a.valid_length a.cells i none (omega (arith, n)))
                ∙ ap (λ l. get_or l i none) r.valid
                ∙ get_or-map-some xs i d below))
      ]

  -- DymArrayToStaticArray copies exactly the values.
  pub to_static_array-Represents :
      (a : DymArray A) {xs : List A} → Represents a xs → to_static_array a ≡ map some xs
  unfolding to_static_array
  to_static_array-Represents a r = r.valid

  push_array_no_alloc-Represents :
      (vs : List A) (a : DymArray A) {xs : List A}
      → Represents a xs
      → a.valid_length + length vs ≤ a.allocated_length
      → (b : DymArray A) × (push_array_no_alloc vs a ≡ done b) × Represents b (xs ++ vs)
  unfolding push_array_no_alloc push_back_no_alloc
  push_array_no_alloc-Represents [] a {xs} r h = (a, refl, rw append-nil r)
  push_array_no_alloc-Represents (v ∷ vs) a {xs} r h =
      let next = stored_back-Represents a v r (omega arith) in
      let (b, run, s) = push_array_no_alloc-Represents vs _ next (omega arith) in
      (
        b,
        rw
            (
              push_array_no_alloc,
              push_back_no_alloc,
              lt→ltb a.valid_length a.allocated_length (omega arith),
            )
            run,
        rw append_assoc at s,
      )

  -- DymArrayPushArray never stops in a bug check: it appends all the values, or runs out of memory
  -- and keeps the sequence; no block is lost.
  pub push_array-Pushed :
      (vs : List A) (p : Pool) (a : DymArray A) {xs : List A}
      → Represents a xs
      → length xs + length vs < 2 ^ 61
      → (o : Outcome (DymArray A)) × (push_array vs p a ≡ done o) × Pushed p xs (xs ++ vs) o
  unfolding push_array
  push_array-Pushed vs p a {xs} r small =
      let n = (a.valid_length + length vs) % 2 ^ 64 in
      let e : n ≡ a.valid_length + length vs = omega (arith, Represents-length r) in
      let (moved, kept, told) =
        reserve-Moved n p a r (omega (arith, e)) (omega (arith, e, Represents-length r)) in
      elim told [
        | inl (ok, room) ↦
            let (b, run, s) =
              push_array_no_alloc-Represents vs _ moved.same (omega (arith, kept, room, e)) in
            (
              record (reserve n p a) { result = b },
              simp (ok, run),
              record { live = moved.live; pushed = inl (ok, s) },
            )
        | inr (no_memory, _) ↦ (
          reserve n p a,
          rw no_memory,
          record { live = moved.live; pushed = inr (no_memory, moved.same) },
        )
      ]
