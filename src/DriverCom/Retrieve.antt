-- ===== src/DriverCom/Retrieve.antt =====
-- DriverComSnapshotRetrieve of irpmondll/driver-com.cpp: all drivers and devices of the system, from
-- the fields that UMEnumDriversDevices wrote. A read that meets another field is `garbled`.
pub mod Leak
pub mod Freed
pub mod Whole
mod Tests
use irpmon.Common.{
  ℕ, zero, suc, ◌+◌, ◌*◌, List, [], ◌∷◌, Option, none, some, length, if◌then◌else◌, ◌==◌,
}
use irpmon.Kernel as Kernel
use irpmon.Kernel.{Pool, array, with_tail, irpmon_driver_info, irpmon_device_info, pool_free}
use irpmon.UmServices.Snapshot.{Field, pointer, ulong, text}
use irpmon.DriverCom.{
  Read, parsed, failed, garbled, read_then, on_failure, allocate, allocate_last, free_objects,
}

-- IRPMON_DEVICE_INFO and IRPMON_DRIVER_INFO
pub record FoundDevice : Type 0 where
  pub device_object : ℕ
  pub attached_device : ℕ
  pub name : List ℕ

pub record FoundDriver : Type 0 where
  pub driver_object : ℕ
  pub driver_name : List ℕ
  pub devices : List FoundDevice

-- Reading a field at tmpBuffer, which then points behind it.
pub take_pointer : List Field → Pool → Read (ℕ × List Field)
take_pointer (pointer n ∷ fs) p = parsed (n, fs) p
take_pointer _ p = garbled

pub take_ulong : List Field → Pool → Read (ℕ × List Field)
take_ulong (ulong n ∷ fs) p = parsed (n, fs) p
take_ulong _ p = garbled

pub take_text : ℕ → List Field → Pool → Read (List ℕ × List Field)
take_text n (text t ∷ fs) p = if 2 * length t == n then parsed (t, fs) p else garbled
take_text n _ p = garbled

-- One round of the loop over devices, with _DeviceInfoAlloc.
pub retrieve_device : List Field → Pool → Read (FoundDevice × List Field)
retrieve_device fs p = read_then (take_pointer fs p) (λ object p1.
    read_then (take_pointer object.1 p1) (λ attached p2.
      read_then (take_ulong attached.1 p2) (λ name_len p3.
        read_then (take_text name_len.0 name_len.1 p3) (λ name p4.
          read_then (allocate (with_tail irpmon_device_info (name_len.0 + 2)) p4) (λ u p5.
            parsed
              (
                record { device_object = object.0; attached_device = attached.0; name = name.0 },
                name.1,
              )
              p5)))))

-- The loop over the devices of a driver. A failure frees the devices before.
pub retrieve_devices : ℕ → List Field → Pool → Read (List FoundDevice × List Field)
retrieve_devices zero fs p = parsed ([], fs) p
retrieve_devices (suc n) fs p = read_then (retrieve_device fs p) (λ d p1.
    on_failure pool_free
      (read_then (retrieve_devices n d.1 p1) (λ rest p2. parsed (d.0 ∷ rest.0, rest.1) p2)))

-- One round of the loop over drivers, with _DriverInfoAlloc, for the size of a pointer. A failure
-- with one of the devices does not free the driver's block.
pub retrieve_driver : ℕ → List Field → Pool → Read (FoundDriver × List Field)
retrieve_driver w fs p = read_then (take_pointer fs p) (λ object p1.
    read_then (take_ulong object.1 p1) (λ count p2.
      read_then (take_ulong count.1 p2) (λ name_len p3.
        read_then (take_text name_len.0 name_len.1 p3) (λ name p4.
          read_then (allocate (with_tail irpmon_driver_info (name_len.0 + 2 + count.0 * w)) p4)
            (λ u p5. read_then (retrieve_devices count.0 name.1 p5) (λ ds p6.
              parsed
                (record { driver_object = object.0; driver_name = name.0; devices = ds.0 }, ds.1)
                p6))))))

pub free_found_devices : List FoundDevice → Pool → Pool
free_found_devices [] p = p
free_found_devices (d ∷ ds) p = free_found_devices ds (pool_free p)

-- The devices and the block of one driver.
pub free_found_driver : FoundDriver → Pool → Pool
free_found_driver d p = pool_free (free_found_devices d.devices p)

-- The loop over the drivers. A failure frees the drivers before.
pub retrieve_drivers : ℕ → ℕ → List Field → Pool → Read (List FoundDriver)
retrieve_drivers w zero fs p = parsed [] p
retrieve_drivers w (suc n) fs p = read_then (retrieve_driver w fs p) (λ d p1.
    on_failure (free_found_driver d.0)
      (read_then (retrieve_drivers w n d.1 p1) (λ rest p2. parsed (d.0 ∷ rest) p2)))

-- DriverComSnapshotRetrieve, after the call of the driver: it failed, or outputBuffer is a block
-- with these fields. When the array of drivers is refused, the code is that of GetLastError.
pub snapshot_retrieve : ℕ → ℕ → Option (List Field) → Pool → Read (List FoundDriver)
snapshot_retrieve last w none p = failed p
snapshot_retrieve last w (some fs) p = free_objects (
    read_then (take_ulong fs p) (λ count p1.
      read_then (allocate_last last (array count.0 Kernel.pointer) p1)
        (λ u p2. on_failure pool_free (retrieve_drivers w count.0 count.1 p2))))

pub free_found_drivers : List FoundDriver → Pool → Pool
free_found_drivers [] p = p
free_found_drivers (d ∷ ds) p = free_found_drivers ds (free_found_driver d p)

-- DriverComSnapshotFree
pub snapshot_free : List FoundDriver → Pool → Pool
snapshot_free ds p = pool_free (free_found_drivers ds p)
