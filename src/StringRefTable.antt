-- ===== src/StringRefTable.antt =====
-- km-shared/string-ref-table.c: a hash table of reference-counted objects under their strings.
-- A bucket is the list of its items, and an item stands for the object that it is embedded in.
-- RtlHashUnicodeString and RtlEqualUnicodeString are the kernel's; the reference routines are the
-- owner's, or do nothing.
pub mod Lookup
mod Tests
use irpmon.Common.{
  ℕ, ◌%◌, List, [], ◌∷◌, Option, none, some, Bool, true, false, not, ◌&&◌, ◌||◌, ◌==◌,
  if◌then◌else◌, get_or, set, replicate,
}
use irpmon.Kernel.{
  Status, success, insufficient_resources, nt_success, Pool, pool_alloc, pool_free, array, pointer,
}

-- RtlHashUnicodeString and RtlEqualUnicodeString, both without regard to case.
pub record Strings (Str : Type 0) : Type 0 where
  pub hash : Str → Status × ℕ
  pub equal : Str → Str → Bool

-- STRING_REF_REFERENCE and STRING_REF_DEREFERENCE on an object, for a state of the owner.
pub record Owner (S : Type 0) : Type 0 where
  pub reference : ℕ → S → S
  pub dereference : ℕ → S → S

-- STRING_REF_KEY
pub record Key (Str : Type 0) : Type 0 where
  pub string : Str
  pub hash : ℕ

-- STRING_REF_ITEM, in its object.
pub record Item (Str : Type 0) : Type 0 where
  pub object : ℕ
  pub key : Key Str

-- STRING_REF_TABLE without the owner's routines.
pub record Table (Str : Type 0) : Type 0 where
  pub bucket_count : ℕ
  pub buckets : List (List (Item Str))

-- _NOPRoutine stands in for a routine that is NULL.
pub nop_routine : {S : Type 0} → ℕ → S → S
nop_routine object s = s

pub or_nop : {S : Type 0} → Option (ℕ → S → S) → ℕ → S → S
or_nop none = nop_routine
or_nop (some routine) = routine

pub record Initialized (Str S : Type 0) : Type 0 where
  pub status : Status
  pub pool : Pool
  pub owner : Owner S
  pub table : Table Str

-- StringRefTableInit; without memory there are no buckets.
pub init : {Str S : Type 0} → ℕ → Option (ℕ → S → S) → Option (ℕ → S → S) → Pool → Initialized Str S
init count reference dereference p =
    let (granted, p') = pool_alloc (array count pointer) p in
    record {
      status = if granted then success else insufficient_resources;
      pool = p';
      owner = record { reference = or_nop reference; dereference = or_nop dereference };
      table = record { bucket_count = count; buckets = if granted then replicate count [] else [] };
    }

-- What a call answers: the object, if any, the table and the owner's state.
pub record Answer (Str S : Type 0) : Type 0 where
  pub object : Option ℕ
  pub table : Table Str
  pub state : S

-- The last match of a chain replaces an earlier one.
pub later : {A : Type 0} → Option A → A → Option A
later none c = some c
later (some d) c = some d

module _ {Str : Type 0} (strs : Strings Str) where
  pub keys_equal : Key Str → Key Str → Bool
  keys_equal k₁ k₂ = k₁.hash == k₂.hash || strs.equal k₁.string k₂.string

  -- _ChainWalk: its answer and the chain. `gone` says that the item before has been unlinked; a
  -- match behind it is not unlinked, since the walk then writes into the unlinked item.
  pub chain_walk : Bool → Bool → Key Str → List (Item Str) → Option (Item Str) × List (Item Str)
  chain_walk delete gone key [] = (none, [])
  chain_walk delete gone key (c ∷ cs) =
      let unlinked = chain_walk delete true key cs in
      let kept = chain_walk delete false key cs in
      if keys_equal c.key key
      then (if delete && not gone
          then (later unlinked.0 c, unlinked.1)
          else (later kept.0 c, c ∷ kept.1))
      else (kept.0, c ∷ kept.1)

  abbrev pub bucket : ℕ → Table Str → List (Item Str)
  bucket hash t = get_or t.buckets (hash % t.bucket_count) []

  pub put : ℕ → List (Item Str) → Table Str → Table Str
  put hash chain t = record t { buckets = set t.buckets (hash % t.bucket_count) chain }

module _ {Str S : Type 0} (strs : Strings Str) (owner : Owner S) where
  -- StringRefTableClear: the items stay linked.
  pub clear_chain : List (Item Str) → S → S
  clear_chain [] s = s
  clear_chain (old ∷ item) s = clear_chain item (owner.dereference old.object s)

  pub clear_buckets : List (List (Item Str)) → S → S
  clear_buckets [] s = s
  clear_buckets (b ∷ bs) s = clear_buckets bs (clear_chain b s)

  pub clear : Table Str → S → S
  clear t s = clear_buckets t.buckets s

  pub destroy : Table Str → Pool → S → Pool × S
  destroy t p s = (pool_free p, clear t s)

  -- StringRefTableInsert with what _ChainWalk found.
  pub insert_found : Option (Item Str) → Item Str → Table Str → S → Answer Str S
  insert_found none item t s = record {
    object = some item.object;
    table = put strs item.key.hash (item ∷ bucket strs item.key.hash t) t;
    state = owner.reference item.object s;
  }
  insert_found (some x) item t s = record {
    object = some x.object;
    table = t;
    state = owner.reference x.object s;
  }

  -- StringRefTableInsert with what RtlHashUnicodeString answered.
  pub insert_hashed : Status × ℕ → ℕ → Str → Table Str → S → Answer Str S
  insert_hashed hashed object string t s =
      let key : Key Str = record { string = string; hash = hashed.1 } in
      if nt_success hashed.0
      then insert_found (chain_walk strs false false key (bucket strs hashed.1 t)).0
          (record { object = object; key = key }) t s
      else record { object = some object; table = t; state = s }

  pub insert : ℕ → Str → Table Str → S → Answer Str S
  insert object string t s = insert_hashed (strs.hash string) object string t s

  pub delete_hashed : Status × ℕ → Str → Table Str → S → Answer Str S
  delete_hashed hashed string t s =
      let key : Key Str = record { string = string; hash = hashed.1 } in
      let walked = chain_walk strs true false key (bucket strs hashed.1 t) in
      if nt_success hashed.0
      then record {
        object = elim walked.0 [ none ↦ none | some x ↦ some x.object ];
        table = put strs hashed.1 walked.1 t;
        state = s;
      }
      else record { object = none; table = t; state = s }

  pub delete : Str → Table Str → S → Answer Str S
  delete string t s = delete_hashed (strs.hash string) string t s

  pub drop_object : Option ℕ → S → S
  drop_object none s = s
  drop_object (some object) s = owner.dereference object s

  pub delete_dereference : Str → Table Str → S → Answer Str S
  delete_dereference string t s =
      let gone = delete string t s in record gone { state = drop_object gone.object gone.state }

  -- StringRefTableGet with what _ChainWalk found.
  pub get_found : Option (Item Str) → Table Str → S → Answer Str S
  get_found none t s = record { object = none; table = t; state = s }
  get_found (some x) t s = record {
    object = some x.object;
    table = t;
    state = owner.reference x.object s;
  }

  pub get_hashed : Status × ℕ → Str → Table Str → S → Answer Str S
  get_hashed hashed string t s =
      let key : Key Str = record { string = string; hash = hashed.1 } in
      if nt_success hashed.0
      then get_found (chain_walk strs false false key (bucket strs hashed.1 t)).0 t s
      else record { object = none; table = t; state = s }

  pub get : Str → Table Str → S → Answer Str S
  get string t s = get_hashed (strs.hash string) string t s
