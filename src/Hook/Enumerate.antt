-- ===== src/Hook/Enumerate.antt =====
-- HookObjectsEnumerate of kbase/hook.c: the list of hooked drivers and devices in one buffer.
-- The tables are lists of addresses and records in the order in which their iterators go. The
-- buffer is the sequence of the records written to it, each at its offset from the start: of two
-- records at one offset, the later is what is there afterwards. The sizes of the structures
-- depend on the build, and are a parameter.
pub mod Bounds
pub mod Layout
pub mod Overwritten
pub mod Tests
use irpmon.Common.{
  ℕ, zero, suc, ◌+◌, ◌*◌, ◌%◌, ◌^◌, List, [], ◌∷◌, ◌++◌, Option, none, some, Bool, true, false,
  if◌then◌else◌, length, leb, ◌==◌,
}
use irpmon.Kernel.{Status, success, buffer_too_small}
use irpmon.Hook.{MonitorSettings, DriverHook, get_info, CreateReason, is_user_request, DeviceHook}

-- sizeof of HOOKED_OBJECTS_INFO, HOOKED_DRIVER_INFO and HOOKED_DEVICE_INFO
pub record InfoSizes : Type 0 where
  pub objects_info : ℕ
  pub driver_info : ℕ
  pub device_info : ℕ

-- A DRIVER_HOOK_RECORD in _driverTable: its address, driver, names and SelectedDevices.
pub record ListedDriver : Type 0 where
  pub object_id : ℕ
  pub driver_object : ℕ
  pub driver_name : List ℕ
  pub hook : DriverHook
  pub selected_devices : List (ℕ × DeviceHook)

-- HOOKED_DRIVER_INFO
pub record DriverInfo : Type 0 where
  pub entry_size : ℕ
  pub object_id : ℕ
  pub driver_object : ℕ
  pub monitoring_enabled : Bool
  pub device_extension_hooks : Bool
  pub monitor_settings : MonitorSettings
  pub number_of_hooked_devices : ℕ
  pub driver_name_len : ℕ
  pub driver_name : List ℕ

-- HOOKED_DEVICE_INFO
pub record DeviceInfo : Type 0 where
  pub entry_size : ℕ
  pub object_id : ℕ
  pub device_object : ℕ
  pub fast_io_settings : List ℕ
  pub irp_settings : List ℕ
  pub monitoring_enabled : Bool
  pub device_name_len : ℕ
  pub device_name : List ℕ

pub data Entry : Type 0 where
  driver_entry : DriverInfo → Entry
  device_entry : DeviceInfo → Entry

-- A write of `bytes` bytes at the offset `at`.
pub record Write : Type 0 where
  pub at : ℕ
  pub bytes : ℕ
  pub entry : Entry

-- HOOKED_OBJECTS_INFO and what follows it
pub record Output : Type 0 where
  pub number_of_hooked_drivers : ℕ
  pub number_of_hooked_devices : ℕ
  pub writes : List Write

abbrev pub wrap32 : ℕ → ℕ
wrap32 n = n % 2 ^ 32

-- The bytes of a name and its terminator.
abbrev pub name_bytes : List ℕ → ℕ
name_bytes name = 2 * length name + 2

abbrev pub device_bytes : InfoSizes → DeviceHook → ℕ
device_bytes z d = z.device_info + name_bytes d.device_name

abbrev pub driver_bytes : InfoSizes → ListedDriver → ℕ
driver_bytes z r = z.driver_info + name_bytes r.driver_name

-- The first pass adds up the required length, a ULONG.
pub required_devices : InfoSizes → ℕ → List (ℕ × DeviceHook) → ℕ
required_devices z acc [] = acc
required_devices z acc (d ∷ ds) =
    required_devices z
      (if is_user_request d.1.create_reason then wrap32 (acc + device_bytes z d.1) else acc) ds

pub required_drivers : InfoSizes → ℕ → List ListedDriver → ℕ
required_drivers z acc [] = acc
required_drivers z acc (r ∷ rs) =
    required_drivers z (required_devices z (wrap32 (acc + driver_bytes z r)) r.selected_devices) rs

unfoldable pub device_info_of : InfoSizes → ℕ × DeviceHook → DeviceInfo
device_info_of z d = record {
  entry_size = wrap32 (device_bytes z d.1);
  object_id = d.0;
  device_object = d.1.device_object;
  fast_io_settings = d.1.fast_io_monitor_settings;
  irp_settings = d.1.irp_monitor_settings;
  monitoring_enabled = d.1.monitoring_enabled;
  device_name_len = name_bytes d.1.device_name;
  device_name = d.1.device_name;
}

-- The devices of a driver that are listed.
unfoldable pub requested : List (ℕ × DeviceHook) → List (ℕ × DeviceHook)
requested [] = []
requested (d ∷ ds) =
    let rest = requested ds in if is_user_request d.1.create_reason then d ∷ rest else rest

unfoldable pub driver_info_of : InfoSizes → ListedDriver → DriverInfo
driver_info_of z r = record {
  entry_size = wrap32 (driver_bytes z r);
  object_id = r.object_id;
  driver_object = r.driver_object;
  monitoring_enabled = (get_info r.hook).1;
  device_extension_hooks = r.hook.device_extension_hook;
  monitor_settings = (get_info r.hook).0;
  number_of_hooked_devices = wrap32 (length (requested r.selected_devices));
  driver_name_len = name_bytes r.driver_name;
  driver_name = r.driver_name;
}

-- The loop over SelectedDevices of the second pass, from deviceInfo on: what it writes, and
-- deviceInfo at its end.
pub fill_devices : InfoSizes → ℕ → List (ℕ × DeviceHook) → List Write × ℕ
fill_devices z at [] = ([], at)
fill_devices z at (d ∷ ds) =
    let listed = is_user_request d.1.create_reason in
    let info = device_info_of z d in
    let rest = fill_devices z (if listed then at + info.entry_size else at) ds in
    (
      if listed
          then record { at = at; bytes = device_bytes z d.1; entry = device_entry info } ∷ rest.0
          else rest.0,
      rest.1,
    )

-- driverInfo moves only if HashTableGetFirst finds a device record, listed or not.
pub next_driver_info : ℕ → List (ℕ × DeviceHook) → ℕ → ℕ
next_driver_info at [] end = at
next_driver_info at (d ∷ ds) end = end

pub fill_drivers : InfoSizes → ℕ → List ListedDriver → List Write
fill_drivers z at [] = []
fill_drivers z at (r ∷ rs) =
    let info = driver_info_of z r in
    let devices = fill_devices z (at + info.entry_size) r.selected_devices in
    record { at = at; bytes = driver_bytes z r; entry = driver_entry info }
    ∷ (devices.0 ++ fill_drivers z (next_driver_info at r.selected_devices devices.1) rs)

pub count_devices : List ListedDriver → ℕ
count_devices [] = 0
count_devices (r ∷ rs) = length (requested r.selected_devices) + count_devices rs

-- HookObjectsEnumerate: the status, *ReturnLength, and the buffer when it is filled.
pub enumerate : InfoSizes → List ListedDriver → ℕ → Status × ℕ × Option Output
enumerate z rs buffer_length =
    let required = required_drivers z z.objects_info rs in
    if leb required buffer_length
    then (
      success,
      required,
      some record {
        number_of_hooked_drivers = wrap32 (length rs);
        number_of_hooked_devices = wrap32 (count_devices rs);
        writes = fill_drivers z z.objects_info rs;
      },
    )
    else (buffer_too_small, required, none)

-- What is at an offset after the writes.
pub load : List Write → ℕ → Option Entry
load [] at = none
load (w ∷ ws) at = elim (load ws at) [
  | some e ↦ some e
  | none ↦ if w.at == at then some w.entry else none
]
