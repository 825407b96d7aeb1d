-- ===== src/DriverCom/Retrieve/Whole.antt =====
-- DriverComSnapshotRetrieve gets what UMEnumDriversDevices found.
use irpmon.Common.{
  ℕ, ◌+◌, ◌*◌, ◌%◌, ◌^◌, ◌≤◌, ◌<◌, ◌≡◌, refl, List, [], ◌∷◌, ◌++◌, map, Bool, length, ==_iff, arith,
  le→leb,
}
use irpmon.Kernel as Kernel
use irpmon.Kernel.{Pool, Block, array, with_tail, irpmon_driver_info, irpmon_device_info, pool_free}
use irpmon.UmServices.Snapshot.{
  DeviceEntry, DriverEntry, Field, pointer, ulong, text, write_devices, write_drivers, bytes_of,
  bytes_of-append, enum_drivers_devices, add_drivers-bytes, length-write_drivers,
}
use irpmon.DriverCom.Snapshot.{
  Gives, read_then-Gives, on_failure-Gives, parsed-Gives, allocate-Gives, allocate_last-Gives,
  free_objects-Gives,
}
use irpmon.DriverCom.Retrieve.{
  FoundDevice, FoundDriver, take_pointer, take_ulong, take_text, retrieve_device, retrieve_devices,
  retrieve_driver, free_found_driver, retrieve_drivers, snapshot_retrieve,
}

-- What an application is to see of a device and of a driver.
pub found_device : DeviceEntry → FoundDevice
found_device d = record {
  device_object = d.device_object;
  attached_device = d.attached_device;
  name = d.device_name;
}

pub found_driver : DriverEntry → FoundDriver
found_driver r = record {
  driver_object = r.driver_object;
  driver_name = r.driver_name;
  devices = map found_device r.devices;
}

pointer-Gives :
    (g : ℕ → Block → Bool) (n : ℕ) (fs : List Field) (p : Pool)
    → p.grants ≡ g
    → Gives g (n, fs) (take_pointer (pointer n ∷ fs) p)
unfolding take_pointer
pointer-Gives g n fs p h = parsed-Gives g (n, fs) (n, fs) p refl h

ulong-Gives :
    (g : ℕ → Block → Bool) (n : ℕ) (fs : List Field) (p : Pool)
    → p.grants ≡ g
    → Gives g (n, fs) (take_ulong (ulong n ∷ fs) p)
unfolding take_ulong
ulong-Gives g n fs p h = parsed-Gives g (n, fs) (n, fs) p refl h

text-Gives :
    (g : ℕ → Block → Bool) (t : List ℕ) (fs : List Field) (p : Pool)
    → p.grants ≡ g
    → Gives g (t, fs) (take_text (2 * length t) (text t ∷ fs) p)
unfolding take_text
text-Gives g t fs p h =
    rw ((==_iff (2 * length t) (2 * length t)).1 refl) (parsed-Gives g (t, fs) (t, fs) p refl h)

retrieve_device-Gives :
    (g : ℕ → Block → Bool) (d : DeviceEntry) (fs : List Field) (p : Pool)
    → p.grants ≡ g
    → Gives g
        (found_device d, fs)
        (retrieve_device
          (pointer d.device_object
            ∷ pointer d.attached_device
            ∷ ulong (2 * length d.device_name)
            ∷ text d.device_name
            ∷ fs)
          p)
unfolding retrieve_device found_device
retrieve_device-Gives g d fs p h =
    let whole : FoundDevice × List Field = (found_device d, fs) in
    let n = 2 * length d.device_name in
    read_then-Gives g _ whole _ _ (pointer-Gives g d.device_object _ p h) (λ p1 h1.
      read_then-Gives g _ whole _ _ (pointer-Gives g d.attached_device _ p1 h1) (λ p2 h2.
        read_then-Gives g _ whole _ _ (ulong-Gives g n _ p2 h2) (λ p3 h3.
          read_then-Gives g _ whole _ _ (text-Gives g d.device_name fs p3 h3) (λ p4 h4.
            read_then-Gives g tt whole _ _
              (allocate-Gives g (with_tail irpmon_device_info (n + 2)) p4 h4)
              (λ p5 h5. parsed-Gives g whole whole p5 refl h5)))))

retrieve_devices-Gives :
    (g : ℕ → Block → Bool) (ds : List DeviceEntry) (fs : List Field) (p : Pool)
    → p.grants ≡ g
    → Gives g (map found_device ds, fs) (retrieve_devices (length ds) (write_devices ds ++ fs) p)
unfolding retrieve_devices write_devices
retrieve_devices-Gives g [] fs p h = parsed-Gives g ([], fs) ([], fs) p refl h
retrieve_devices-Gives g (d ∷ ds) fs p h =
    let whole : List FoundDevice × List Field = (map found_device (d ∷ ds), fs) in
    read_then-Gives g _ whole _ _ (retrieve_device-Gives g d (write_devices ds ++ fs) p h) (λ p1 h1.
      on_failure-Gives g whole pool_free _ (
        read_then-Gives g (map found_device ds, fs) whole _ _ (retrieve_devices-Gives g ds fs p1 h1)
          (λ p2 h2. parsed-Gives g whole whole p2 refl h2)))

length-devices : (w : ℕ) (ds : List DeviceEntry) → length ds ≤ bytes_of w (write_devices ds)
unfolding write_devices bytes_of
length-devices w [] = omega arith
length-devices w (d ∷ ds) = omega (arith, length-devices w ds)

retrieve_drivers-Gives :
    (g : ℕ → Block → Bool) (w : ℕ) (rs : List DriverEntry) (p : Pool)
    → bytes_of w (write_drivers rs) < 2 ^ 32
    → p.grants ≡ g
    → Gives g (map found_driver rs) (retrieve_drivers w (length rs) (write_drivers rs) p)
unfolding retrieve_drivers retrieve_driver write_drivers bytes_of found_driver
retrieve_drivers-Gives g w [] p fits h = parsed-Gives g [] [] p refl h
retrieve_drivers-Gives g w (r ∷ rs) p fits h =
    let rest = write_drivers rs in
    let both = bytes_of-append w (write_devices r.devices) rest in
    let few = length-devices w r.devices in
    let count : length r.devices % 2 ^ 32 ≡ length r.devices = omega arith in
    let n = 2 * length r.driver_name in
    let first : FoundDriver × List Field = (found_driver r, rest) in
    let whole = map found_driver (r ∷ rs) in
    rw count (
      read_then-Gives g first whole _ _
        (read_then-Gives g _ first _ _ (pointer-Gives g r.driver_object _ p h) (λ p1 h1.
          read_then-Gives g _ first _ _ (ulong-Gives g (length r.devices) _ p1 h1) (λ p2 h2.
            read_then-Gives g _ first _ _ (ulong-Gives g n _ p2 h2) (λ p3 h3.
              read_then-Gives g _ first _ _ (text-Gives g r.driver_name _ p3 h3) (λ p4 h4.
                read_then-Gives g tt first _ _
                  (allocate-Gives g (with_tail irpmon_driver_info (n + 2 + length r.devices * w)) p4
                    h4)
                  (λ p5 h5.
                    read_then-Gives g (map found_device r.devices, rest) first _ _
                      (retrieve_devices-Gives g r.devices rest p5 h5)
                      (λ p6 h6. parsed-Gives g first first p6 refl h6)))))))
        (λ p1 h1. on_failure-Gives g whole (free_found_driver (found_driver r)) _ (
          read_then-Gives g (map found_driver rs) whole _ _
            (retrieve_drivers-Gives g w rs p1 (omega arith) h1)
            (λ p2 h2. parsed-Gives g whole whole p2 refl h2))))

-- An application that asks for a snapshot with a buffer that is long enough sees every driver and
-- every device that the driver found, with their names, in the same order, unless its heap
-- refuses an allocation. The fields take less than 4 GiB.
pub snapshot_retrieve-Gives :
    (last w len : ℕ) (rs : List DriverEntry) (p : Pool)
    → 4 + bytes_of w (write_drivers rs) < 2 ^ 32
    → 4 + bytes_of w (write_drivers rs) ≤ len
    → Gives p.grants
        (map found_driver rs)
        (snapshot_retrieve last w (enum_drivers_devices w len rs).2 p)
unfolding enum_drivers_devices snapshot_retrieve
snapshot_retrieve-Gives last w len rs p fits enough =
    let whole = map found_driver rs in
    let few = length-write_drivers w rs in
    let count : length rs % 2 ^ 32 ≡ length rs = omega arith in
    rw (add_drivers-bytes w 4 rs fits, le→leb _ len enough, count)
      (free_objects-Gives p.grants whole _ (
        read_then-Gives p.grants (length rs, write_drivers rs) whole _ _
          (ulong-Gives p.grants (length rs) (write_drivers rs) p refl)
          (λ p1 h1.
            read_then-Gives p.grants tt whole _ _
              (allocate_last-Gives p.grants last (array (length rs) Kernel.pointer) p1 h1)
              (λ p2 h2.
                on_failure-Gives p.grants whole pool_free _
                  (retrieve_drivers-Gives p.grants w rs p2 (omega arith) h2)))))
