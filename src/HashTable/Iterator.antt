-- ===== src/HashTable/Iterator.antt =====
-- The iterators of km-shared/hash_table.c, with the shared locks that they hold.
pub mod Walk
use irpmon.Common.{
  ℕ, zero, suc, ◌+◌, ◌-◌, List, [], ◌∷◌, Option, none, some, Bool, true, false, ◌==◌, if◌then◌else◌,
  get_or,
}
use irpmon.HashTable.{HashTable}

-- HASH_TABLE_ITERATOR: `chain` is CurrentItem with the items that are linked behind it.
pub record Iterator (I : Type 0) : Type 0 where
  pub current_index : ℕ
  pub chain : List I
  pub points_to_end : Bool

-- An iterator, whether it represents an item, and the buckets that the thread has locked for
-- shared access.
pub record Position (I : Type 0) : Type 0 where
  pub found : Bool
  pub iterator : Iterator I
  pub locked : List ℕ

-- HashTableUnlock of one bucket.
unfoldable pub unlock : ℕ → List ℕ → List ℕ
unlock i [] = []
unlock i (j ∷ locked) = if i == j then locked else j ∷ unlock i locked

module _ {I : Type 0} where
  -- The loops of HashTableGetFirst and HashTableGetNext over the buckets from `i` on, with so many
  -- rounds left. Each bucket is locked, and unlocked again if it is empty.
  unfoldable pub seek : HashTable I → ℕ → ℕ → Iterator I → List ℕ → Position I
  seek t zero i it locked = record { found = false; iterator = it; locked = locked }
  seek t (suc rounds) i it locked = elim (get_or t.buckets i []) [
    | [] ↦
        seek t rounds (suc i) (record it { current_index = i; chain = [] }) (unlock i (i ∷ locked))
    | x ∷ rest ↦ record {
      found = true;
      iterator = record it { current_index = i; chain = x ∷ rest };
      locked = i ∷ locked;
    }
  ]

  -- HashTableGetFirst. It does not write the iterator if the table is empty.
  unfoldable pub get_first : HashTable I → List ℕ → Option (Position I)
  get_first t locked =
      let p =
        seek t t.size 0 (record { current_index = 0; chain = []; points_to_end = false }) locked in
      if p.found then some p else none

  -- The first round of HashTableGetNext stays in the bucket.
  unfoldable pub advance : HashTable I → Iterator I → List ℕ → List I → Position I
  advance t it locked [] =
      seek t (t.size - it.current_index - 1) (suc it.current_index) (record it { chain = [] })
        (unlock it.current_index locked)
  advance t it locked (x ∷ rest) = record {
    found = true;
    iterator = record it { chain = x ∷ rest };
    locked = locked;
  }

  -- CurrentItem->Next
  unfoldable pub next_item : List I → List I
  next_item [] = []
  next_item (x ∷ rest) = rest

  unfoldable pub get_next : HashTable I → Iterator I → List ℕ → Position I
  get_next t it locked =
      let p = advance t it locked (next_item it.chain) in
      record p { iterator = record p.iterator { points_to_end = if p.found then false else true } }

  unfoldable pub iterator_finit : Iterator I → List ℕ → List ℕ
  iterator_finit it locked = if it.points_to_end then locked else unlock it.current_index locked

  unfoldable pub iterator_get_data : Iterator I → Option I
  iterator_get_data it = elim it.chain [ [] ↦ none | x ∷ rest ↦ some x ]
