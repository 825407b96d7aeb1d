-- ===== src/UmServices/Snapshot.antt =====
-- The buffer that UMEnumDriversDevices of irpmndrv/um-services.c fills with all drivers and devices
-- of the system, once it has their names. What is copied into it is a sequence of fields.
-- A name is its UTF-16 code units, and its length in bytes is a USHORT.
use irpmon.Common.{
  ℕ, ◌+◌, ◌*◌, ◌%◌, ◌^◌, ◌≤◌, ◌<◌, ◌≡◌, refl, ◌∙◌, List, [], ◌∷◌, ◌++◌, Option, none, some,
  if◌then◌else◌, length, leb, leb→le, Bool-cases, inl, inr, arith,
}
use irpmon.Kernel.{Status, success, buffer_too_small}

-- UM_DEVICE_INFO and UM_DRIVER_INFO
pub record DeviceEntry : Type 0 where
  pub device_object : ℕ
  pub attached_device : ℕ
  pub device_name : List ℕ

pub record DriverEntry : Type 0 where
  pub driver_object : ℕ
  pub driver_name : List ℕ
  pub devices : List DeviceEntry

-- What one memcpy writes: a pointer, a ULONG, or a name without terminator.
pub data Field : Type 0 where
  pointer ulong : ℕ → Field
  text : List ℕ → Field

-- The bytes of a field, for the size of a pointer.
abbrev pub field_bytes : ℕ → Field → ℕ
field_bytes w (pointer n) = w
field_bytes w (ulong n) = 4
field_bytes w (text n) = 2 * length n

unfoldable pub write_devices : List DeviceEntry → List Field
write_devices [] = []
write_devices (d ∷ ds) =
    pointer d.device_object
    ∷ pointer d.attached_device
    ∷ ulong (2 * length d.device_name)
    ∷ text d.device_name
    ∷ write_devices ds

unfoldable pub write_drivers : List DriverEntry → List Field
write_drivers [] = []
write_drivers (r ∷ rs) =
    pointer r.driver_object
    ∷ ulong (length r.devices % 2 ^ 32)
    ∷ ulong (2 * length r.driver_name)
    ∷ text r.driver_name
    ∷ (write_devices r.devices ++ write_drivers rs)

-- requiredLength, a ULONG, is added up while the names are collected.
pub add_devices : ℕ → ℕ → List DeviceEntry → ℕ
add_devices w acc [] = acc
add_devices w acc (d ∷ ds) =
    add_devices w ((acc + (w + w + 4 + 2 * length d.device_name)) % 2 ^ 32) ds

pub add_drivers : ℕ → ℕ → List DriverEntry → ℕ
add_drivers w acc [] = acc
add_drivers w acc (r ∷ rs) =
    add_drivers w
      (add_devices w ((acc + (w + 4 + 2 * length r.driver_name + 4)) % 2 ^ 32) r.devices) rs

-- The status, *ReturnLength and the buffer.
unfoldable pub enum_drivers_devices : ℕ → ℕ → List DriverEntry → Status × ℕ × Option (List Field)
enum_drivers_devices w buffer_length rs =
    let required = add_drivers w 4 rs in
    if leb required buffer_length
    then (success, required, some (ulong (length rs % 2 ^ 32) ∷ write_drivers rs))
    else (buffer_too_small, 0, none)

-- The bytes of some fields.
unfoldable pub bytes_of : ℕ → List Field → ℕ
bytes_of w [] = 0
bytes_of w (f ∷ fs) = field_bytes w f + bytes_of w fs

pub bytes_of-append :
    (w : ℕ) (fs gs : List Field) → bytes_of w (fs ++ gs) ≡ bytes_of w fs + bytes_of w gs
unfolding bytes_of
bytes_of-append w [] gs = omega arith
bytes_of-append w (f ∷ fs) gs = omega (arith, bytes_of-append w fs gs)

add_devices-bytes :
    (w acc : ℕ) (ds : List DeviceEntry)
    → acc + bytes_of w (write_devices ds) < 2 ^ 32
    → add_devices w acc ds ≡ acc + bytes_of w (write_devices ds)
unfolding add_devices write_devices bytes_of
add_devices-bytes w acc [] h = omega arith
add_devices-bytes w acc (d ∷ ds) h =
    let here = acc + (w + w + 4 + 2 * length d.device_name) in
    let small : here % 2 ^ 32 ≡ here = omega arith in
    rw small (add_devices-bytes w here ds (omega arith) ∙ omega arith)

pub add_drivers-bytes :
    (w acc : ℕ) (rs : List DriverEntry)
    → acc + bytes_of w (write_drivers rs) < 2 ^ 32
    → add_drivers w acc rs ≡ acc + bytes_of w (write_drivers rs)
unfolding add_drivers write_drivers bytes_of
add_drivers-bytes w acc [] h = omega arith
add_drivers-bytes w acc (r ∷ rs) h =
    let here = acc + (w + 4 + 2 * length r.driver_name + 4) in
    let devices = bytes_of w (write_devices r.devices) in
    let both = bytes_of-append w (write_devices r.devices) (write_drivers rs) in
    let small : here % 2 ^ 32 ≡ here = omega arith in
    let mid : add_devices w here r.devices ≡ here + devices =
      add_devices-bytes w here r.devices (omega arith) in
    rw (small, mid) (add_drivers-bytes w (here + devices) rs (omega arith) ∙ omega arith)

-- A buffer that is filled has the fields of all drivers behind their count, which are as long as
-- the answer says and within the buffer; a buffer that is refused is shorter than these fields.
pub Snapped : ℕ → ℕ → List DriverEntry → Status × ℕ × Option (List Field) → Type 0
Snapped w len rs (status, returned, some fs) =
    (status ≡ success)
    × (fs ≡ ulong (length rs) ∷ write_drivers rs)
    × (bytes_of w fs ≡ returned)
    × (returned ≤ len)
Snapped w len rs (status, returned, none) =
    (status ≡ buffer_too_small) × (returned ≡ 0) × (len < 4 + bytes_of w (write_drivers rs))

pub length-write_drivers :
    (w : ℕ) (rs : List DriverEntry) → length rs ≤ bytes_of w (write_drivers rs)
unfolding write_drivers bytes_of
length-write_drivers w [] = omega arith
length-write_drivers w (r ∷ rs) = omega (
  arith,
  length-write_drivers w rs,
  bytes_of-append w (write_devices r.devices) (write_drivers rs),
)

-- When the fields of all drivers and devices take less than 4 GiB, UMEnumDriversDevices writes
-- the count of the drivers and all fields into a buffer that they fit in, and returns how many
-- bytes these are; it refuses a shorter buffer as too small, without any field.
pub enum_drivers_devices-Snapped :
    (w len : ℕ) (rs : List DriverEntry)
    → 4 + bytes_of w (write_drivers rs) < 2 ^ 32
    → Snapped w len rs (enum_drivers_devices w len rs)
unfolding enum_drivers_devices Snapped bytes_of
enum_drivers_devices-Snapped w len rs h =
    let exact = add_drivers-bytes w 4 rs h in
    let few = length-write_drivers w rs in
    let count : length rs % 2 ^ 32 ≡ length rs = omega arith in
    rw (exact, count)
      (elim (Bool-cases (leb (4 + bytes_of w (write_drivers rs)) len)) [
        | inl e ↦ rw e (refl, refl, refl, leb→le _ _ e)
        | inr e ↦ rw e (refl, refl, ground arith)
      ])
