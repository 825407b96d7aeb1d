-- ===== src/Request.antt =====
-- The requests of include/general-types.h, and their sizes by RequestGetSize of shared/request.cpp.
-- The sizes of the C structures are the compiler's: `Sizes` has them.
use irpmon.Common.{
  ℕ, ◌+◌, ◌*◌, ◌/◌, ◌%◌, ◌^◌, ◌≡◌, refl, Bool, true, false, not, ◌==◌, if◌then◌else◌, arith,
}

-- The types of requests, with the lengths, in bytes, of the data that follow the structure.
pub data Body : Type 0 where
  undefined add_device driver_unload file_object_name_deleted process_exitted : Body
  irp irp_completion fast_io start_io : ℕ → Body
  driver_detected device_detected file_object_name_assigned image_load : ℕ → Body
  process_created : ℕ → ℕ → Body

-- The fields of REQUEST_HEADER that say what a request is about and where it is stored. Its type is
-- that of `body`; time, IRQL and results are left out, which the queue does not read.
pub record Request : Type 0 where
  pub id : ℕ
  pub flags : ℕ
  pub driver : ℕ
  pub device : ℕ
  pub process_id : ℕ
  pub thread_id : ℕ
  pub body : Body

-- sizeof of the structures and of a pointer, and the width of SIZE_T in bits.
pub record Sizes : Type 0 where
  pub irp_size : ℕ
  pub irp_completion_size : ℕ
  pub fast_io_size : ℕ
  pub add_device_size : ℕ
  pub unload_size : ℕ
  pub start_io_size : ℕ
  pub driver_size : ℕ
  pub device_size : ℕ
  pub name_assigned_size : ℕ
  pub name_deleted_size : ℕ
  pub process_created_size : ℕ
  pub process_exitted_size : ℕ
  pub image_load_size : ℕ
  pub pointer_size : ℕ
  pub word : ℕ

abbrev pub next_available : ℕ
next_available = 32

abbrev pub paged : ℕ
paged = 128

abbrev pub nonpaged : ℕ
nonpaged = 256

abbrev pub stacktrace : ℕ
stacktrace = 512

abbrev pub stacktrace_size : ℕ
stacktrace_size = 32

-- `(flags & bit) != 0` for a power of two.
unfoldable pub has_flag : ℕ → ℕ → Bool
has_flag bit flags = not (flags / bit % 2 == 0)

-- `flags |= bit` for a power of two.
unfoldable pub set_flag : ℕ → ℕ → ℕ
set_flag bit flags = if has_flag bit flags then flags else flags + bit

-- The switch of RequestGetSize.
unfoldable pub body_size : Sizes → Body → ℕ
body_size z undefined = 0
body_size z add_device = z.add_device_size
body_size z driver_unload = z.unload_size
body_size z file_object_name_deleted = z.name_deleted_size
body_size z process_exitted = z.process_exitted_size
body_size z (irp n) = z.irp_size + n
body_size z (irp_completion n) = z.irp_completion_size + n
body_size z (fast_io n) = z.fast_io_size + n
body_size z (start_io n) = z.start_io_size + n
body_size z (driver_detected n) = z.driver_size + n
body_size z (device_detected n) = z.device_size + n
body_size z (file_object_name_assigned n) = z.name_assigned_size + n
body_size z (image_load n) = z.image_load_size + n
body_size z (process_created m n) = z.process_created_size + m + n

unfoldable pub get_size : Sizes → Request → ℕ
get_size z r =
    (body_size z r.body
      + (if has_flag stacktrace r.flags then stacktrace_size * z.pointer_size else 0))
    % 2 ^ z.word

-- Setting a flag leaves the other flags of the header as they are.
pub has_flag-set_next : (flags : ℕ) → has_flag next_available (set_flag next_available flags) ≡ true
unfolding has_flag set_flag
has_flag-set_next flags = ground arith

pub paged-set_next :
    (flags : ℕ) → has_flag paged (set_flag next_available flags) ≡ has_flag paged flags
unfolding has_flag set_flag
paged-set_next flags = ground arith

stacktrace-set_next :
    (flags : ℕ) → has_flag stacktrace (set_flag next_available flags) ≡ has_flag stacktrace flags
unfolding has_flag set_flag
stacktrace-set_next flags = ground arith

-- The mark of a waiting request takes no room.
pub get_size-set_next :
    (z : Sizes) (r : Request) (next : Bool)
    → get_size z (record r { flags = if next then set_flag next_available r.flags else r.flags })
      ≡ get_size z r
unfolding get_size
get_size-set_next z r true = rw (stacktrace-set_next r.flags) refl
get_size-set_next z r false = refl
