-- ===== src/HandleTable.antt =====
-- km-shared/handle-table.c: handles for objects, over the hash table of km-shared/hash_table.c.
-- Objects and tables are their addresses. The table's lock surrounds each access to the hash table,
-- so each routine runs as one step. HANDLE is 64 bits wide.
pub mod Handles
mod Tests
use irpmon.Common.{
  ℕ, suc, ◌+◌, ◌-◌, ◌%◌, ◌^◌, Option, none, some, Bool, true, false, if◌then◌else◌, ltb, ◌==◌,
}
use irpmon.Kernel.{
  Status, success, unsuccessful, insufficient_resources, invalid_handle, not_supported, nt_success,
  PoolType, paged_pool, nonpaged_pool, Pool, pool_alloc, pool_free, one, handle_table,
  handle_mapping,
}
use irpmon.HashTable.{
  TableType, passive_level, dispatch_level, no_synchronization, other_type, HashOps, HashTable,
  insert, delete, get, clear as table_clear,
}
use irpmon.HashTable.Setup.{Services, Creation, create as table_create, destroy as table_destroy}

-- CHANDLE_TABLE_MAPPING
pub record Mapping : Type 0 where
  pub handle_value : ℕ
  pub object : ℕ
  pub table : ℕ

-- CHANDLE_TABLE, at its address.
pub record HandleTable : Type 0 where
  pub address : ℕ
  pub hash_table : HashTable Mapping
  pub next_free_handle : ℕ
  pub table_type : TableType
  pub pool_type : PoolType

-- The procedures of the table's owner get a table, which may be NULL, an object and a handle.
pub record Procedures (S : Type 0) : Type 0 where
  pub created : Option ℕ → ℕ → ℕ → S → S
  pub deleted : Option ℕ → ℕ → ℕ → S → S
  pub translated : Option ℕ → ℕ → ℕ → S → S

-- _HashFunction is PtrToUlong; _CompareFunction compares the handles.
abbrev pub handle_ops : HashOps Mapping ℕ
handle_ops = record {
  hash = λ key. key % 2 ^ 32;
  compare = λ mapping key. mapping.handle_value == key;
}

-- A LONG as a HANDLE: the sign is extended.
abbrev pub as_handle : ℕ → ℕ
as_handle n = if ltb n (2 ^ 31) then n else n + (2 ^ 64 - 2 ^ 32)

abbrev pub increment : ℕ → ℕ
increment n = (n + 1) % 2 ^ 32

pub record Outcome (S : Type 0) : Type 0 where
  pub status : Status
  pub handle : Option ℕ
  pub pool : Pool
  pub table : HandleTable
  pub state : S

-- What HandleTableCreate answers.
pub record Created : Type 0 where
  pub status : Status
  pub services : Services
  pub table : Option HandleTable

-- The switch on the type in HandleTableCreate; `answer` is that of ExInitializeResourceLite.
unfoldable pub init_lock : Status → TableType → Services → Status × Services
init_lock answer passive_level s =
    (answer, if nt_success answer then record s { resources = s.resources + 1 } else s)
init_lock answer dispatch_level s = (success, s)
init_lock answer no_synchronization s = (success, s)
init_lock answer (other_type n) s = (not_supported, s)

unfoldable pub delete_lock : TableType → Services → Services
delete_lock passive_level s = record s { resources = s.resources - 1 }
delete_lock _ s = s

unfoldable pub pool_of : TableType → PoolType
pool_of passive_level = paged_pool
pool_of _ = nonpaged_pool

unfoldable pub free_block : Services → Services
free_block s = record s { pool = pool_free s.pool }

-- HeapMemoryFree of so many live blocks.
unfoldable pub free_many : ℕ → Pool → Pool
free_many n p = record p { live = p.live - n }

-- The end of HandleTableCreate, from what HashTableCreate answered.
unfoldable pub keep_table : ℕ → TableType → Status → Option (HashTable Mapping) → Services → Created
keep_table address type status none s = record {
  status = status;
  services = free_block (delete_lock type s);
  table = none;
}
keep_table address type status (some h) s = record {
  status = status;
  services = s;
  table = some (record {
    address = address;
    hash_table = h;
    next_free_handle = 1;
    table_type = type;
    pool_type = pool_of type;
  });
}

-- HandleTableCreate after the lock.
unfoldable pub create_hash : ℕ → TableType → Status × Services → Created
create_hash address type locked =
    let made = table_create (λ i. success) no_synchronization 37 true true locked.1 in
    if nt_success locked.0
    then keep_table address type made.status made.table made.services
    else record { status = locked.0; services = free_block locked.1; table = none }

unfoldable pub create : ℕ → Status → TableType → Services → Created
create address answer type s =
    let (granted, p) = pool_alloc (one handle_table) s.pool in
    if granted
    then create_hash address type (init_lock answer type (record s { pool = p }))
    else record { status = insufficient_resources; services = record s { pool = p }; table = none }

module _ {S : Type 0} (procs : Procedures S) where
  -- _FreeFunction frees the mapping, which is counted, and then calls the owner with the table.
  unfoldable pub free_mapping : ℕ × S → Mapping → ℕ × S
  free_mapping (freed, s) mapping =
      (suc freed, procs.deleted (some mapping.table) mapping.object mapping.handle_value s)

  unfoldable pub clear : HandleTable → Pool → S → HandleTable × Pool × S
  clear t p s =
      let cleared = table_clear true (some free_mapping) t.hash_table (0, s) in
      (record t { hash_table = cleared.0 }, free_many cleared.1.0 p, cleared.1.1)

  -- HandleTableDestroy: the hash table with its mappings, the lock and the table's block.
  unfoldable pub destroy : HandleTable → Services → S → Services × S
  destroy t s x =
      let gone = table_destroy (some free_mapping) t.hash_table s (0, x) in
      let unmapped = record gone.0 { pool = free_many gone.1.0 gone.0.pool } in
      (free_block (delete_lock t.table_type unmapped), gone.1.1)

  -- A mapping with the next handle goes into the table.
  unfoldable pub add_mapping : ℕ → HandleTable → HandleTable
  add_mapping object t =
      let value = as_handle (increment t.next_free_handle) in
      let mapping : Mapping = record { handle_value = value; object = object; table = t.address } in
      record t {
        next_free_handle = increment t.next_free_handle;
        hash_table = insert handle_ops mapping value t.hash_table;
      }

  unfoldable pub handle_create : ℕ → Pool → HandleTable → S → Outcome S
  handle_create object p t s =
      let (granted, p') = pool_alloc (one handle_mapping) p in
      let value = as_handle (increment t.next_free_handle) in
      if granted
      then record {
        status = success;
        handle = some value;
        pool = p';
        table = add_mapping object t;
        state = procs.created (some t.address) object value s;
      }
      else record {
        status = insufficient_resources;
        handle = none;
        pool = p';
        table = t;
        state = s;
      }

  -- What HandleTablehandleTranslate does with what HashTableGet found.
  unfoldable pub translated : Option Mapping → S → Status × Option ℕ × S
  translated none s = (invalid_handle, none, s)
  translated (some m) s =
      (success, some m.object, procs.translated (some m.table) m.object m.handle_value s)

  unfoldable pub translate : ℕ → HandleTable → S → Status × Option ℕ × S
  translate handle t s = translated (get handle_ops handle t.hash_table) s

  -- HandleTableHandleDuplicate after its allocation, with what the translation answered.
  unfoldable pub finish_duplicate : Status → Option ℕ → S → Pool → HandleTable → Outcome S
  finish_duplicate status none s p t = record {
    status = status;
    handle = none;
    pool = pool_free p;
    table = t;
    state = s;
  }
  finish_duplicate status (some object) s p t = record {
    status = status;
    handle = some (as_handle (increment t.next_free_handle));
    pool = p;
    table = add_mapping object t;
    state = s;
  }

  unfoldable pub duplicate : ℕ → Pool → HandleTable → S → Outcome S
  duplicate handle p t s =
      let (granted, p') = pool_alloc (one handle_mapping) p in
      let found = translate handle t s in
      if granted then finish_duplicate found.0 found.1 found.2 p' t else record {
        status = insufficient_resources;
        handle = none;
        pool = p';
        table = t;
        state = s;
      }

  -- HandleTableHandleClose with what HashTableDelete answered. The variable that the owner's
  -- procedure gets as its table is still NULL, and the status is that of the declaration.
  unfoldable pub closed : Option Mapping → HashTable Mapping → Pool → HandleTable → S → Outcome S
  closed none h p t s = record {
    status = invalid_handle;
    handle = none;
    pool = p;
    table = t;
    state = s;
  }
  closed (some m) h p t s = record {
    status = unsuccessful;
    handle = none;
    pool = pool_free p;
    table = record t { hash_table = h };
    state = procs.deleted none m.object m.handle_value s;
  }

  unfoldable pub close : ℕ → Pool → HandleTable → S → Outcome S
  close handle p t s =
      let deleted = delete handle_ops handle t.hash_table in closed deleted.0 deleted.1 p t s
