-- ===== src/Kernel.antt =====
-- The kernel's services that the components call: status codes, pool memory, bug checks.
-- The services themselves are no code of the repository. What a call of one answers is an
-- input of the model: `Pool.grants` says which allocations succeed.
use irpmon.Common.{ℕ, ◌+◌, ◌-◌, ◌≡◌, refl, ◌⊎◌, Bool, true, false, if◌then◌else◌, arith}

-- NTSTATUS by the names that the code uses. `other_success` and `other_error` are the codes
-- that come from outside (an initialisation routine, a resource), with the side of `NT_SUCCESS`
-- that they stand on.
pub data Status : Type 0 where
  success unsuccessful insufficient_resources invalid_parameter : Status
  invalid_parameter_1 invalid_parameter_2 invalid_parameter_3 invalid_parameter_4 : Status
  not_supported invalid_handle connection_disconnected buffer_too_small : Status
  no_more_entries already_registered delete_pending : Status
  device_not_ready not_found object_name_collision object_type_mismatch : Status
  other_success other_error : ℕ → Status

-- NT_SUCCESS
abbrev pub nt_success : Status → Bool
nt_success success = true
nt_success (other_success n) = true
nt_success _ = false

-- POOL_TYPE: the two pools that the code asks for, and any other value.
pub data PoolType : Type 0 where
  paged_pool nonpaged_pool : PoolType
  other_pool : ℕ → PoolType

-- The C types whose size an allocation asks for.
pub data CType : Type 0 where
  fast_mutex spin_lock eresource boolean pointer wchar : CType
  dym_array hash_table handle_table handle_mapping string_hash_item : CType
  callback_record driver_detected device_detected : CType
  hooked_driver_uminfo hooked_device_uminfo irpmon_driver_info irpmon_device_info : CType

-- The size of an allocation: of one value, of a value with a tail of so many bytes, of an array
-- of values, or a count of bytes.
pub data Block : Type 0 where
  one : CType → Block
  with_tail : CType → ℕ → Block
  array : ℕ → CType → Block
  bytes : ℕ → Block

-- The pool: `grants n b` is the answer to the n-th request, and `live` counts the blocks
-- that are allocated and not yet freed.
pub record Pool : Type 0 where
  pub grants : ℕ → Block → Bool
  pub asked : ℕ
  pub live : ℕ

-- HeapMemoryAlloc: whether the block was granted.
unfoldable pub pool_alloc : Block → Pool → Bool × Pool
pool_alloc b p =
    let granted = p.grants p.asked b in
    (granted, record p { asked = p.asked + 1; live = if granted then p.live + 1 else p.live })

-- HeapMemoryFree of a live block.
unfoldable pub pool_free : Pool → Pool
pool_free p = record p { live = p.live - 1 }

-- KeBugCheck and __debugbreak end the run.
pub data Run {ℓ} (A : Type ℓ) : Type ℓ where
  done : A → Run A
  bug_check : Run A

-- An allocation adds one live block, or none.
pub pool_alloc_cases :
    (b : Block) (p : Pool)
    → ((pool_alloc b p).0 ≡ true) × ((pool_alloc b p).1.live ≡ p.live + 1)
      ⊎ ((pool_alloc b p).0 ≡ false) × ((pool_alloc b p).1.live ≡ p.live)
unfolding pool_alloc
pool_alloc_cases b p = ground arith

pub live-pool_free : (p : Pool) → (pool_free p).live ≡ p.live - 1
unfolding pool_free
live-pool_free p = refl

-- Going on after a routine that did not end the run.
unfoldable pub and_then {ℓ ℓ'} : {A : Type ℓ} {B : Type ℓ'} → Run A → (A → Run B) → Run B
and_then (done a) f = f a
and_then bug_check f = bug_check
