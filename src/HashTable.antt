-- ===== src/HashTable.antt =====
-- km-shared/hash_table.c: the general hash table. A bucket is the list of the items that are
-- linked through HASH_ITEM.Next. The hash, compare and free functions are the caller's.
-- Each routine runs as one step: the locks of the buckets are modelled where they outlive a call,
-- in the iterators (Iterator.antt).
pub mod Setup
pub mod Iterator
pub mod Lookup
pub mod Count
pub mod Traverse
mod Tests
use irpmon.Common.{
  ℕ, zero, suc, ◌+◌, ◌-◌, ◌%◌, ◌^◌, List, [], ◌∷◌, Option, none, some, Bool, true, false, not,
  if◌then◌else◌, get_or, set, map,
}

-- EHashTableType, and any other value.
pub data TableType : Type 0 where
  passive_level dispatch_level no_synchronization : TableType
  other_type : ℕ → TableType

-- HASH_FUNCTION and COMPARE_FUNCTION.
pub record HashOps (I K : Type 0) : Type 0 where
  pub hash : K → ℕ
  pub compare : I → K → Bool

-- HASH_TABLE
pub record HashTable (I : Type 0) : Type 0 where
  pub size : ℕ
  pub type : TableType
  pub number_of_items : ℕ
  pub buckets : List (List I)

module _ {I K : Type 0} (ops : HashOps I K) where
  -- The bucket of a key in a table of so many buckets.
  unfoldable pub index : ℕ → K → ℕ
  index size key = ops.hash key % size

  abbrev pub bucket : HashTable I → K → List I
  bucket t key = get_or t.buckets (index t.size key) []

  unfoldable pub insert : I → K → HashTable I → HashTable I
  insert object key t = record t {
    buckets = set t.buckets (index t.size key) (object ∷ bucket t key);
    number_of_items = (t.number_of_items + 1) % 2 ^ 32;
  }

  -- The loop of HashTableDelete: the first item that compares equal, and the chain without it.
  unfoldable pub unlink : K → List I → Option I × List I
  unlink key [] = (none, [])
  unlink key (akt ∷ rest) =
      let (found, left) = unlink key rest in
      if ops.compare akt key then (some akt, rest) else (found, akt ∷ left)

  -- The state after the loop of HashTableDelete.
  unfoldable pub unlinked : HashTable I → K → Option I × List I → Option I × HashTable I
  unlinked t key (none, chain) = (none, t)
  unlinked t key (some item, chain) = (
    some item,
    record t {
      buckets = set t.buckets (index t.size key) chain;
      number_of_items = (t.number_of_items + 2 ^ 32 - 1) % 2 ^ 32;
    },
  )

  unfoldable pub delete : K → HashTable I → Option I × HashTable I
  delete key t = unlinked t key (unlink key (bucket t key))

  -- The loop of HashTableGet.
  unfoldable pub find : K → List I → Option I
  find key [] = none
  find key (akt ∷ rest) = if ops.compare akt key then some akt else find key rest

  unfoldable pub get : K → HashTable I → Option I
  get key t = find key (bucket t key)

-- The traversals; `S` is what the callback acts on.
module _ {I S : Type 0} where
  -- The loop over one chain in HashTablePerform.
  pub perform_chain : (S → I → S) → List I → S → S
  perform_chain callback [] s = s
  perform_chain callback (old ∷ tmp) s = perform_chain callback tmp (callback s old)

  pub perform_buckets : (S → I → S) → List (List I) → S → S
  perform_buckets callback [] s = s
  perform_buckets callback (b ∷ bs) s = perform_buckets callback bs (perform_chain callback b s)

  pub perform : (S → I → S) → HashTable I → S → S
  perform callback t s = perform_buckets callback t.buckets s

  -- The loop over one chain in HashTablePerformWithFeedback: the state, and whether a callback
  -- cancelled the traversal.
  pub feedback_chain : (S → I → S × Bool) → List I → S → S × Bool
  feedback_chain callback [] s = (s, false)
  feedback_chain callback (old ∷ tmp) s =
      let (s', more) = callback s old in
      elim more [ true ↦ feedback_chain callback tmp s' | false ↦ (s', true) ]

  pub feedback_buckets : (S → I → S × Bool) → List (List I) → S → S
  feedback_buckets callback [] s = s
  feedback_buckets callback (b ∷ bs) s =
      let (s', cancelled) = feedback_chain callback b s in
      elim cancelled [ true ↦ s' | false ↦ feedback_buckets callback bs s' ]

  pub perform_with_feedback : (S → I → S × Bool) → HashTable I → S → S
  perform_with_feedback callback t s = feedback_buckets callback t.buckets s

  -- The loop of HashTableClear over the buckets; there may be no free function.
  pub clear_buckets : Bool → Option (S → I → S) → List (List I) → S → S
  clear_buckets call_free none bs s = s
  clear_buckets call_free (some free) [] s = s
  clear_buckets call_free (some free) (b ∷ bs) s =
      clear_buckets call_free (some free) bs (if call_free then perform_chain free b s else s)

  pub clear : Bool → Option (S → I → S) → HashTable I → S → HashTable I × S
  clear call_free free t s = (
    record t { buckets = map (λ b. []) t.buckets; number_of_items = 0 },
    clear_buckets call_free free t.buckets s,
  )

pub get_item_count : {I : Type 0} → HashTable I → ℕ
get_item_count t = t.number_of_items
