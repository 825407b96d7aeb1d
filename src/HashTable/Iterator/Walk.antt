-- ===== src/HashTable/Iterator/Walk.antt =====
-- An iterator walks through all the items of a table of km-shared/hash_table.c, and holds the lock
-- of exactly the bucket that it stands in.
use mathlib.Core.List.{flatten}
use irpmon.Common.{
  ℕ, zero, suc, ◌+◌, ◌-◌, ◌≤◌, ◌<◌, ◌≡◌, refl, ap, ◌∙◌, ◌⊎◌, inl, inr, List, [], ◌∷◌, ◌++◌, Option,
  none, some, Bool, true, false, ==_iff, if◌then◌else◌, get_or, drop, length, arith,
}
use irpmon.HashTable.{HashTable}
use irpmon.HashTable.Lookup.{IsValid}
use irpmon.HashTable.Iterator.{
  Iterator, Position, unlock, seek, get_first, advance, next_item, get_next, iterator_finit,
  iterator_get_data,
}

unlock_self : (i : ℕ) (locked : List ℕ) → unlock i (i ∷ locked) ≡ locked
unfolding unlock
unlock_self i locked = rw ((==_iff i i).1 refl)

module _ {I : Type 0} where
  drop-step :
      (bs : List (List I)) (i : ℕ)
      → i < length bs
      → flatten (drop i bs) ≡ get_or bs i [] ++ flatten (drop (suc i) bs)
  unfolding flatten
  drop-step [] i h = absurd (omega arith)
  drop-step (b ∷ bs) zero h = refl
  drop-step (b ∷ bs) (suc i) h = drop-step bs i (omega arith)

  drop-all : (bs : List (List I)) (i : ℕ) → length bs ≤ i → flatten (drop i bs) ≡ []
  unfolding flatten
  drop-all [] zero h = refl
  drop-all [] (suc i) h = refl
  drop-all (b ∷ bs) zero h = absurd (omega arith)
  drop-all (b ∷ bs) (suc i) h = drop-all bs i (omega arith)

  -- The items that an iterator has still to represent, its own one first.
  abbrev pub remaining : HashTable I → Iterator I → List I
  remaining t it = it.chain ++ flatten (drop (suc it.current_index) t.buckets)

  -- What a step finds of the items `rest`: nothing, with no lock kept, or the first of them, with
  -- the lock of its bucket on top of the others.
  pub data Finds (t : HashTable I) (locked : List ℕ) (rest : List I) (p : Position I) : Type 0 where
    at_end : p.found ≡ false → rest ≡ [] → p.locked ≡ locked → Finds t locked rest p
    at_item :
        (x : I) (behind : List I)
        → p.found ≡ true
        → p.iterator.chain ≡ x ∷ behind
        → p.iterator.current_index < t.size
        → remaining t p.iterator ≡ rest
        → p.locked ≡ p.iterator.current_index ∷ locked
        → Finds t locked rest p

  seek_split :
      (t : HashTable I) (rounds i : ℕ) (it : Iterator I) (locked : List ℕ) (b : List I)
      → get_or t.buckets i [] ≡ b
      → IsValid t
      → i + suc rounds ≡ t.size
      → ((it : Iterator I)
          → Finds t locked (flatten (drop (suc i) t.buckets)) (seek t rounds (suc i) it locked))
      → Finds t locked (b ++ flatten (drop (suc i) t.buckets)) (seek t (suc rounds) i it locked)
  unfolding seek
  seek_split t rounds i it locked [] e v h later =
      rw (e, seek, unlock_self i locked) (later (record it { current_index = i; chain = [] }))
  seek_split t rounds i it locked (x ∷ behind) e v h later =
      rw (e, seek) (at_item x behind refl refl (omega arith) refl refl)

  seek-Finds :
      (t : HashTable I) (rounds i : ℕ) (it : Iterator I) (locked : List ℕ)
      → IsValid t
      → i + rounds ≡ t.size
      → Finds t locked (flatten (drop i t.buckets)) (seek t rounds i it locked)
  unfolding seek
  seek-Finds t zero i it locked v h =
      rw (drop-all t.buckets i (omega (arith, v.wide)), seek) (at_end refl refl refl)
  seek-Finds t (suc rounds) i it locked v h = rw (drop-step t.buckets i (omega (arith, v.wide))) (
      seek_split t rounds i it locked _ refl v h
        (λ it'. seek-Finds t rounds (suc i) it' locked v (omega arith)))

  -- HashTableGetFirst finds the first of all the items, or answers FALSE exactly when there is
  -- none; only the bucket of the item that it found stays locked.
  pub get_first-Finds :
      (t : HashTable I) (locked : List ℕ)
      → IsValid t
      → (get_first t locked ≡ none) × (flatten t.buckets ≡ [])
        ⊎ ((p : Position I) × (get_first t locked ≡ some p)
            × (p.found ≡ true)
            × Finds t locked (flatten t.buckets) p)
  unfolding get_first
  get_first-Finds t locked v =
      let start : Iterator I = record { current_index = 0; chain = []; points_to_end = false } in
      let p = seek t t.size 0 start locked in
      go p (seek-Finds t t.size 0 start locked v (omega arith))
    where
      go :
          (p : Position I)
          → Finds t locked (flatten t.buckets) p
          → ((if p.found then some p else none) ≡ none) × (flatten t.buckets ≡ [])
            ⊎ ((q : Position I) × ((if p.found then some p else none) ≡ some q)
                × (q.found ≡ true)
                × Finds t locked (flatten t.buckets) q)
      go p (at_end no_item none_left same) =
          inl (ap (λ b. if b then some p else none) no_item, none_left)
      go p (at_item x behind hit chain inside all lock) = inr (
        p,
        ap (λ b. if b then some p else none) hit,
        hit,
        at_item x behind hit chain inside all lock,
      )

  marked-Finds :
      (t : HashTable I) (locked : List ℕ) (rest : List I) (p : Position I) (b : Bool)
      → Finds t locked rest p
      → Finds t locked rest (record p { iterator = record p.iterator { points_to_end = b } })
  marked-Finds t locked rest p b (at_end no_item none_left same) = at_end no_item none_left same
  marked-Finds t locked rest p b (at_item x behind hit chain inside all lock) =
      at_item x behind hit chain inside all lock

  advance-Finds :
      (t : HashTable I) (it : Iterator I) (behind : List I) (locked : List ℕ)
      → IsValid t
      → it.current_index < t.size
      → Finds t locked
          (behind ++ flatten (drop (suc it.current_index) t.buckets))
          (advance t it (it.current_index ∷ locked) behind)
  unfolding advance
  advance-Finds t it [] locked v h =
      rw (unlock_self it.current_index locked) (
        seek-Finds t (t.size - it.current_index - 1) (suc it.current_index) _ locked v
          (omega arith))
  advance-Finds t it (x ∷ rest) locked v h = at_item x rest refl refl h refl refl

  next_item-append :
      (c rest : List I) (x : I) (behind : List I)
      → (elim c as (λ l. Option I) [ [] ↦ none | y ∷ l ↦ some y ]) ≡ some x
      → c ++ rest ≡ x ∷ behind
      → next_item c ++ rest ≡ behind
  unfolding next_item
  next_item-append [] rest x behind h e = cc
  next_item-append (y ∷ c) rest x behind h e = cc e

  finit-Finds :
      (t : HashTable I) (locked : List ℕ) (rest : List I) (p : Position I)
      → Finds t locked rest p
      → p.iterator.points_to_end ≡ (if p.found then false else true)
      → iterator_finit p.iterator p.locked ≡ locked
  unfolding iterator_finit
  finit-Finds t locked rest p (at_end no_item none_left same) e =
      let last : p.iterator.points_to_end ≡ true =
        e ∙ ap (λ b. if b then false else true) no_item in
      rw last same
  finit-Finds t locked rest p (at_item x behind hit chain inside all lock) e =
      let inner : p.iterator.points_to_end ≡ false = e ∙ ap (λ b. if b then false else true) hit in
      rw (inner, lock) (unlock_self p.iterator.current_index locked)

  -- HashTableGetNext goes from an item to the one behind it, in the order of the buckets, and answers
  -- FALSE exactly behind the last one. It moves the lock along, and keeps none at the end; and
  -- HashTableIteratorFinit gives up whatever lock the iterator then holds.
  pub get_next-Finds :
      (t : HashTable I) (it : Iterator I) (x : I) (behind : List I) (locked : List ℕ)
      → IsValid t
      → it.current_index < t.size
      → remaining t it ≡ x ∷ behind
      → iterator_get_data it ≡ some x
      → Finds t locked behind (get_next t it (it.current_index ∷ locked))
        × (iterator_finit
              (get_next t it (it.current_index ∷ locked)).iterator
              (get_next t it (it.current_index ∷ locked)).locked
            ≡ locked)
  unfolding get_next iterator_get_data
  get_next-Finds t it x behind locked v h all here =
      let left = next_item-append it.chain _ x behind here all in
      let step = advance-Finds t it (next_item it.chain) locked v h in
      let moved = advance t it (it.current_index ∷ locked) (next_item it.chain) in
      let found =
        marked-Finds t locked behind moved (if moved.found then false else true)
          (rw left at step) in
      (found, finit-Finds t locked behind _ found refl)
