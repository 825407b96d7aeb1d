-- ===== src/DymArray.antt =====
-- km-shared/utils-dym-array.c: a growing array of pointers.
-- A cell of the data buffer that was never written is `none`. The lock that an array carries is
-- modelled as the block that it occupies; DymArrayLock and DymArrayUnlock are not modelled.
pub mod Cells
pub mod Spec
pub mod Grow
pub mod Ends
pub mod Memory
mod Tests
use Prim.Native.Nat.{min}
use irpmon.Common.{
  ℕ, zero, suc, ◌+◌, ◌-◌, ◌*◌, ◌/◌, ◌%◌, ◌^◌, List, [], ◌∷◌, Option, none, some, Bool, ltb, ◌==◌,
  if◌then◌else◌, get_or, length, set, take, replicate,
}
use irpmon.Kernel.{
  Status, success, unsuccessful, insufficient_resources, not_supported, nt_success, PoolType,
  paged_pool, nonpaged_pool, other_pool, Pool, pool_alloc, pool_free, Run, done, bug_check, one,
  bytes, fast_mutex, spin_lock, dym_array,
}

-- UTILS_DYM_ARRAY
pub record DymArray (A : Type 0) : Type 0 where
  pub pool_type : PoolType
  pub valid_length : ℕ
  pub allocated_length : ℕ
  pub cells : List (Option A)

abbrev pub initial_alloc_length : ℕ
initial_alloc_length = 16

abbrev pub increase_per_cents : ℕ
increase_per_cents = 20

-- What a routine that may allocate leaves behind.
pub record Outcome (A : Type 0) : Type 0 where
  pub status : Status
  pub pool : Pool
  pub result : A

pub sync_alloc : PoolType → Pool → Status × Pool
sync_alloc paged_pool p =
    let (granted, p') = pool_alloc (one fast_mutex) p in
    (if granted then success else insufficient_resources, p')
sync_alloc nonpaged_pool p =
    let (granted, p') = pool_alloc (one spin_lock) p in
    (if granted then success else insufficient_resources, p')
sync_alloc (other_pool n) p = (not_supported, p)

pub sync_free : PoolType → Pool → Run Pool
sync_free paged_pool p = done (pool_free p)
sync_free nonpaged_pool p = done (pool_free p)
sync_free (other_pool n) p = bug_check

-- The bytes that a buffer for `n` pointers is asked for, in 64-bit arithmetic.
abbrev pub buffer_bytes : ℕ → ℕ
buffer_bytes n = (n * 8) % 2 ^ 64

-- AllocatedLength * (100 + DYM_ARRAY_INCREASE_PER_CENTS) / 100, in 64-bit arithmetic
abbrev pub grown_length : ℕ → ℕ
grown_length n = (n * (100 + increase_per_cents)) % 2 ^ 64 / 100

module _ {A : Type 0} where
  -- RtlCopyMemory of the first `n` cells
  pub copy_cells : ℕ → List (Option A) → List (Option A) → List (Option A)
  copy_cells zero from to = to
  copy_cells (suc n) (x ∷ from) (y ∷ to) = x ∷ copy_cells n from to
  copy_cells (suc n) from to = to

  -- A fresh buffer: it holds as many cells as its bytes have room for.
  abbrev pub fresh_cells : ℕ → List (Option A)
  fresh_cells n = replicate (buffer_bytes n / 8) none

  pub create_data : PoolType → Pool → Outcome (Option (DymArray A))
  create_data t p =
      let (granted, p') = pool_alloc (bytes (buffer_bytes initial_alloc_length)) p in
      if granted
      then record {
        status = success;
        pool = p';
        result = some (record {
          pool_type = t;
          valid_length = 0;
          allocated_length = initial_alloc_length;
          cells = fresh_cells initial_alloc_length;
        });
      }
      else record { status = insufficient_resources; pool = pool_free p'; result = none }

  -- DymArrayCreate: the array's own block, its lock, then the data buffer.
  pub create : PoolType → Pool → Outcome (Option (DymArray A))
  create t p =
      let (granted, p₁) = pool_alloc (one dym_array) p in
      if granted
      then (let (locked, p₂) = sync_alloc t p₁ in
          if nt_success locked
          then (let made = create_data t p₂ in
              if nt_success made.status then made else record made { pool = pool_free made.pool })
          else record { status = locked; pool = pool_free p₂; result = none })
      else record { status = insufficient_resources; pool = p₁; result = none }

  pub destroy : DymArray A → Pool → Run Pool
  destroy a p = elim (sync_free a.pool_type (pool_free p)) [
    | done p' ↦ done (pool_free p')
    | bug_check ↦ bug_check
  ]

  pub reserve : ℕ → Pool → DymArray A → Outcome (DymArray A)
  reserve len p a =
      let (granted, p') = pool_alloc (bytes (buffer_bytes len)) p in
      let min_length = min a.valid_length len in
      if granted
      then record {
        status = success;
        pool = pool_free p';
        result = record a {
          cells = copy_cells min_length a.cells (fresh_cells len);
          allocated_length = len;
          valid_length = min_length;
        };
      }
      else record { status = insufficient_resources; pool = p'; result = a }

  -- The second attempt, with one more cell, where the first one left the array full.
  pub retry : Outcome (DymArray A) → Outcome (DymArray A)
  retry grown =
      let b = grown.result in
      if b.valid_length == b.allocated_length
      then reserve ((b.allocated_length + 1) % 2 ^ 64) grown.pool b
      else grown

  -- The head of DymArrayPushBack and DymArrayPushFront.
  pub make_room : Pool → DymArray A → Outcome (DymArray A)
  make_room p a =
      if a.valid_length == a.allocated_length
      then retry (reserve (grown_length a.allocated_length) p a)
      else record { status = success; pool = p; result = a }

  pub push_back_no_alloc : A → DymArray A → Run (DymArray A)
  push_back_no_alloc v a =
      if ltb a.valid_length a.allocated_length
      then done (record a {
        cells = set a.cells a.valid_length (some v);
        valid_length = a.valid_length + 1;
      })
      else bug_check

  pub push_back : A → Pool → DymArray A → Outcome (DymArray A)
  push_back v p a =
      let room = make_room p a in
      let b = room.result in
      if nt_success room.status
      then record room {
        result = record b {
          cells = set b.cells b.valid_length (some v);
          valid_length = b.valid_length + 1;
        };
      }
      else room

  pub pop_back : DymArray A → Run (Option A × DymArray A)
  pop_back a =
      if ltb 0 a.valid_length
      then done
          (get_or a.cells (a.valid_length - 1) none, record a { valid_length = a.valid_length - 1 })
      else bug_check

  -- for (i = ValidLength; i > 0; i--) Data[i] = Data[i - 1]
  pub shift_up : ℕ → List (Option A) → List (Option A)
  shift_up zero d = d
  shift_up (suc i) d = shift_up i (set d (suc i) (get_or d i none))

  pub push_front : A → Pool → DymArray A → Outcome (DymArray A)
  push_front v p a =
      let room = make_room p a in
      let b = room.result in
      if nt_success room.status
      then record room {
        result = record b {
          cells = set (shift_up b.valid_length b.cells) 0 (some v);
          valid_length = b.valid_length + 1;
        };
      }
      else room

  -- for (i = from; i < from + rounds; i++) Data[i] = Data[i + 1]
  pub shift_down : ℕ → ℕ → List (Option A) → List (Option A)
  shift_down zero i d = d
  shift_down (suc rounds) i d = shift_down rounds (suc i) (set d i (get_or d (suc i) none))

  pub pop_front : DymArray A → Run (Option A × DymArray A)
  pop_front a =
      if ltb 0 a.valid_length
      then done (
        get_or a.cells 0 none,
        record a {
          cells = shift_down (a.valid_length - 1) 0 a.cells;
          valid_length = a.valid_length - 1;
        },
      )
      else bug_check

  pub item : DymArray A → ℕ → Run (Option A)
  item a index = if ltb index a.valid_length then done (get_or a.cells index none) else bug_check

  -- The copy goes to a buffer of the caller, with room for at least ValidLength pointers.
  pub to_static_array : DymArray A → List (Option A)
  to_static_array a = take a.valid_length a.cells

  pub to_static_array_alloc : Pool → DymArray A → Outcome (Option (List (Option A)))
  to_static_array_alloc p a =
      let (granted, p') = pool_alloc (bytes (buffer_bytes a.valid_length)) p in
      if granted
      then record { status = success; pool = p'; result = some (to_static_array a) }
      else record { status = insufficient_resources; pool = p'; result = none }

  pub clear : DymArray A → DymArray A
  clear a = record a { valid_length = 0 }

  pub push_array_no_alloc : List A → DymArray A → Run (DymArray A)
  push_array_no_alloc [] a = done a
  push_array_no_alloc (v ∷ vs) a = elim (push_back_no_alloc v a) [
    | done b ↦ push_array_no_alloc vs b
    | bug_check ↦ bug_check
  ]

  pub push_array : List A → Pool → DymArray A → Run (Outcome (DymArray A))
  push_array vs p a =
      let room = reserve ((a.valid_length + length vs) % 2 ^ 64) p a in
      if nt_success room.status
      then elim (push_array_no_alloc vs room.result) [
        | done b ↦ done (record room { result = b })
        | bug_check ↦ bug_check
      ]
      else done room
