-- ===== src/DriverCom.antt =====
-- irpmondll/driver-com.cpp: the list of hooked drivers and devices as an application gets it.
-- The process heap is a `Pool`. HeapAlloc does not set the last error: `last` is what it is before
-- the call, and so what GetLastError answers after a refused allocation. When this is
-- ERROR_SUCCESS, the routine goes on with the NULL pointer: the run is `astray`. A read at an offset where no entry was written
-- gives bytes that the model does not have: the run is `garbled`.
pub mod Blocks
pub mod Memory
pub mod Snapshot
pub mod Retrieve
mod Tests
use irpmon.Common.{
  ℕ, zero, suc, ◌+◌, ◌-◌, ◌%◌, ◌^◌, List, [], ◌∷◌, Option, none, some, Bool, if◌then◌else◌, length,
  ◌==◌,
}
use irpmon.Kernel.{
  Pool, Block, bytes, array, hooked_driver_uminfo, hooked_device_uminfo, pool_alloc, pool_free,
}
use irpmon.Hook.{MonitorSettings}
use irpmon.Hook.Enumerate.{DriverInfo, DeviceInfo, Entry, driver_entry, device_entry, Output, load}

-- HOOKED_DEVICE_UMINFO
pub record UserDevice : Type 0 where
  pub object_id : ℕ
  pub device_object : ℕ
  pub fast_io_settings : List ℕ
  pub irp_settings : List ℕ
  pub monitoring_enabled : Bool
  pub device_name_len : ℕ
  pub device_name : List ℕ

-- HOOKED_DRIVER_UMINFO; NumberOfHookedDevices is the length of the list of devices.
pub record UserDriver : Type 0 where
  pub object_id : ℕ
  pub driver_object : ℕ
  pub device_extension_hooks : Bool
  pub monitoring_enabled : Bool
  pub monitor_settings : MonitorSettings
  pub driver_name_len : ℕ
  pub driver_name : List ℕ
  pub hooked_devices : List UserDevice

-- The ways in which a part of the routine ends.
pub data Read {ℓ} (A : Type ℓ) : Type ℓ where
  parsed : A → Pool → Read A
  failed : Pool → Read A
  garbled : Read A
  astray : Read A

pub read_then {ℓ ℓ'} : {A : Type ℓ} {B : Type ℓ'} → Read A → (A → Pool → Read B) → Read B
read_then (parsed a p) f = f a p
read_then (failed p) f = failed p
read_then garbled f = garbled
read_then astray f = astray

-- What is undone when a later part fails.
pub on_failure {ℓ} : {A : Type ℓ} → (Pool → Pool) → Read A → Read A
on_failure undo (parsed a p) = parsed a p
on_failure undo (failed p) = failed (undo p)
on_failure undo garbled = garbled
on_failure undo astray = astray

-- HeapAlloc and the test of its result, with an error code of its own
pub allocate : Block → Pool → Read (Unit {0})
allocate b p = let r = pool_alloc b p in if r.0 then parsed tt r.1 else failed r.1

-- HeapAlloc and the test of its result, with the code of GetLastError; 0 is ERROR_SUCCESS.
pub allocate_last : ℕ → Block → Pool → Read (Unit {0})
allocate_last last b p =
    let r = pool_alloc b p in
    if r.0 then parsed tt r.1 else if last == 0 then astray else failed r.1

pub driver_at : Option Entry → Pool → Read DriverInfo
driver_at (some (driver_entry i)) p = parsed i p
driver_at (some (device_entry i)) p = garbled
driver_at none p = garbled

pub device_at : Option Entry → Pool → Read DeviceInfo
device_at (some (device_entry i)) p = parsed i p
device_at (some (driver_entry i)) p = garbled
device_at none p = garbled

-- A length in bytes, a ULONG, without the terminator.
abbrev pub without_terminator : ℕ → ℕ
without_terminator n = (n + 2 ^ 32 - 2) % 2 ^ 32

pub user_device : DeviceInfo → UserDevice
user_device e = record {
  object_id = e.object_id;
  device_object = e.device_object;
  fast_io_settings = e.fast_io_settings;
  irp_settings = e.irp_settings;
  monitoring_enabled = e.monitoring_enabled;
  device_name_len = without_terminator e.device_name_len;
  device_name = e.device_name;
}

pub user_driver : DriverInfo → List UserDevice → UserDriver
user_driver e ds = record {
  object_id = e.object_id;
  driver_object = e.driver_object;
  device_extension_hooks = e.device_extension_hooks;
  monitoring_enabled = e.monitoring_enabled;
  monitor_settings = e.monitor_settings;
  driver_name_len = without_terminator e.driver_name_len;
  driver_name = e.driver_name;
  hooked_devices = ds;
}

-- The loop over the devices of a driver: they, and deviceEntry behind them. A failure frees the
-- names of the devices before.
pub parse_devices : ℕ → (ℕ → Option Entry) → ℕ → ℕ → Pool → Read (List UserDevice × ℕ)
parse_devices last memory zero at p = parsed ([], at) p
parse_devices last memory (suc n) at p = read_then (device_at (memory at) p) (λ e p1.
    read_then (allocate_last last (bytes e.device_name_len) p1) (λ u p2. on_failure pool_free (
      read_then (parse_devices last memory n (at + e.entry_size) p2)
        (λ rest p3. parsed (user_device e ∷ rest.0, rest.1) p3))))

-- The array of devices, NULL if there are none.
pub allocate_devices : ℕ → ℕ → Pool → Read (Unit {0})
allocate_devices last n p =
    if n == 0 then parsed tt p else allocate_last last (array n hooked_device_uminfo) p

pub free_devices_array : ℕ → Pool → Pool
free_devices_array n p = if n == 0 then p else pool_free p

-- One round of the loop over the drivers.
pub parse_driver : ℕ → (ℕ → Option Entry) → ℕ → Pool → Read (UserDriver × ℕ)
parse_driver last memory at p = read_then (driver_at (memory at) p) (λ e p1.
    let n = e.number_of_hooked_devices in
    read_then (allocate_last last (bytes e.driver_name_len) p1) (λ u p2. on_failure pool_free (
      read_then (allocate_devices last n p2) (λ u' p3. on_failure (free_devices_array n) (
        read_then (parse_devices last memory n (at + e.entry_size) p3)
          (λ ds p4. parsed (user_driver e ds.0, ds.1) p4))))))

pub free_device_names : List UserDevice → Pool → Pool
free_device_names [] p = p
free_device_names (d ∷ ds) p = free_device_names ds (pool_free p)

-- The blocks of one driver.
pub free_driver : UserDriver → Pool → Pool
free_driver u p =
    pool_free (free_devices_array (length u.hooked_devices) (free_device_names u.hooked_devices p))

pub parse_drivers : ℕ → (ℕ → Option Entry) → ℕ → ℕ → Pool → Read (List UserDriver)
parse_drivers last memory zero at p = parsed [] p
parse_drivers last memory (suc n) at p = read_then (parse_driver last memory at p) (λ d p1.
    on_failure (free_driver d.0)
      (read_then (parse_drivers last memory n d.1 p1) (λ rest p2. parsed (d.0 ∷ rest) p2)))

-- HeapFree of the block with the driver's answer, however the routine ends.
pub free_objects : {A : Type 0} → Read A → Read A
free_objects (parsed a p) = parsed a (pool_free p)
free_objects (failed p) = failed (pool_free p)
free_objects garbled = garbled
free_objects astray = astray

-- DriverComHookedObjectsEnumerate, after the call of the driver: it failed, or hookedObjects is a
-- block with what the driver wrote. `header` is sizeof(HOOKED_OBJECTS_INFO).
pub hooked_objects_enumerate : ℕ → ℕ → Option Output → Pool → Read (List UserDriver)
hooked_objects_enumerate last header none p = failed p
hooked_objects_enumerate last header (some out) p =
    let n = out.number_of_hooked_drivers in
    free_objects (
      if n == 0
      then parsed [] p
      else read_then (allocate_last last (array n hooked_driver_uminfo) p)
          (λ u p1. on_failure pool_free (parse_drivers last (load out.writes) n header p1)))

pub free_drivers : List UserDriver → Pool → Pool
free_drivers [] p = p
free_drivers (u ∷ us) p = free_drivers us (free_driver u p)

-- DriverComHookedObjectsFree
pub hooked_objects_free : List UserDriver → Pool → Pool
hooked_objects_free us p = if length us == 0 then p else pool_free (free_drivers us p)
