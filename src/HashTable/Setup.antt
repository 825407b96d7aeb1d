-- ===== src/HashTable/Setup.antt =====
-- HashTableCreate and HashTableDestroy of km-shared/hash_table.c, with the blocks and the executive
-- resources that they take and give back.
pub mod Balance
pub mod Release
use irpmon.Common.{
  ℕ, zero, suc, ◌+◌, ◌-◌, ◌*◌, ◌^◌, ◌<◌, ◌≤◌, ◌≡◌, refl, ap, sym, ◌∙◌, ◌⊎◌, inl, inr, List, [], ◌∷◌,
  Option, none, some, Bool, true, false, ◌&&◌, not, if◌then◌else◌, replicate, arith, Bool-cases,
  ltb, ◌==◌, length, length-replicate, take,
}
use irpmon.Kernel.{
  Status, success, unsuccessful, insufficient_resources, invalid_parameter, invalid_parameter_1,
  invalid_parameter_2, invalid_parameter_3, invalid_parameter_4, nt_success, Pool, pool_alloc,
  pool_free, pool_alloc_cases, live-pool_free, one, with_tail, array, eresource, boolean, spin_lock,
  hash_table,
}
use irpmon.HashTable.{
  TableType, passive_level, dispatch_level, no_synchronization, other_type, HashTable,
  perform_buckets,
}
use irpmon.HashTable.Lookup.{IsValid, total}

-- What creation and destruction act on: the pool, and the number of initialised resources.
pub record Services : Type 0 where
  pub pool : Pool
  pub resources : ℕ

-- LONG i < (LONG)Size: no round where the size is negative as a LONG.
abbrev pub rounds : ℕ → ℕ
rounds size = if ltb size (2 ^ 31) then size else 0

-- ExInitializeResourceLite answers `answer i` for the i-th lock. The loop of
-- _HashTableSynchronizationAlloc deletes the locks before a failing one and breaks; the release of
-- the lock array stands behind that break, where the status is a success.
unfoldable pub init_resources : (ℕ → Status) → ℕ → ℕ → Status × Services → Status × Services
init_resources answer zero i (status, s) = (status, s)
init_resources answer (suc n) i (status, s) =
    let here = answer i in
    let taken = record s { resources = s.resources + 1 } in
    let released =
      if nt_success here then taken else record taken { pool = pool_free taken.pool } in
    let rest = init_resources answer n (i + 1) (here, released) in
    if nt_success here then rest else (here, record s { resources = s.resources - i })

unfoldable pub sync_alloc : (ℕ → Status) → TableType → ℕ → Services → Status × Services
sync_alloc answer passive_level size s =
    let (granted, p) = pool_alloc (array size eresource) s.pool in
    let start = record s { pool = p } in
    if granted
    then init_resources answer (rounds size) 0 (unsuccessful, start)
    else (insufficient_resources, start)
sync_alloc answer dispatch_level size s =
    let (granted, p₁) = pool_alloc (array size boolean) s.pool in
    let (granted_locks, p₂) = pool_alloc (array size spin_lock) p₁ in
    if granted
    then (if granted_locks
        then (success, record s { pool = p₂ })
        else (insufficient_resources, record s { pool = pool_free p₂ }))
    else (insufficient_resources, record s { pool = p₁ })
sync_alloc answer no_synchronization size s = (success, s)
sync_alloc answer (other_type n) size s = (unsuccessful, s)

unfoldable pub sync_free : TableType → ℕ → Services → Services
sync_free passive_level size s = record {
  pool = pool_free s.pool;
  resources = s.resources - rounds size;
}
sync_free dispatch_level size s = record s { pool = pool_free (pool_free s.pool) }
sync_free no_synchronization size s = s
sync_free (other_type n) size s = s

unfoldable pub is_known : TableType → Bool
is_known (other_type n) = false
is_known _ = true

-- The error of HashTableCreate, by the first argument that is wrong.
unfoldable pub argument_error : TableType → ℕ → Bool → Bool → Status
argument_error type size has_hash has_compare =
    if not (is_known type)
    then invalid_parameter_1
    else if size == 0
    then invalid_parameter_2
    else if not has_hash
    then invalid_parameter_3
    else if not has_compare
    then invalid_parameter_4
    else invalid_parameter

pub record Creation (I : Type 0) : Type 0 where
  pub status : Status
  pub services : Services
  pub table : Option (HashTable I)

module _ {I : Type 0} where
  -- RtlZeroMemory makes all the buckets empty.
  abbrev pub empty_table : TableType → ℕ → HashTable I
  empty_table type size = record {
    size = size;
    type = type;
    number_of_items = 0;
    buckets = replicate size [];
  }

  -- The end of HashTableCreate, from what _HashTableSynchronizationAlloc answered.
  unfoldable pub finish_create : TableType → ℕ → Status × Services → Creation I
  finish_create type size (status, s) =
      if nt_success status
      then record { status = status; services = s; table = some (empty_table type size) }
      else record { status = status; services = record s { pool = pool_free s.pool }; table = none }

  -- `answer` is what ExInitializeResourceLite says of each lock; the function arguments are
  -- represented by whether they are not NULL.
  unfoldable pub create : (ℕ → Status) → TableType → ℕ → Bool → Bool → Services → Creation I
  create answer type size has_hash has_compare s =
      if is_known type && ltb 0 size && has_hash && has_compare
      then (let (granted, p) = pool_alloc (with_tail hash_table (size * 8)) s.pool in
          if granted
          then finish_create type size (sync_alloc answer type size (record s { pool = p }))
          else record {
            status = insufficient_resources;
            services = record s { pool = p };
            table = none;
          })
      else record {
        status = argument_error type size has_hash has_compare;
        services = s;
        table = none;
      }

  -- HashTableDestroy: the locks, then every item in the buckets that the LONG counter reaches, then
  -- the table's own block.
  unfoldable pub destroy :
      {S : Type 0} → Option (S → I → S) → HashTable I → Services → S → Services × S
  destroy none t s x =
      let freed = sync_free t.type t.size s in (record freed { pool = pool_free freed.pool }, x)
  destroy (some free) t s x =
      let freed = sync_free t.type t.size s in
      (
        record freed { pool = pool_free freed.pool },
        perform_buckets free (take (rounds t.size) t.buckets) x,
      )
