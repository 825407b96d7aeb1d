-- ===== src/DriverCom/Retrieve/Tests.antt =====
-- A run of DriverComSnapshotRetrieve that leaves a block, and the theorems at small snapshots.
use irpmon.Common.{◌≡◌, refl, List, [], ◌∷◌, some, map, arith, not, ◌==◌}
use irpmon.Kernel.{Pool, pool_alloc, pool_free}
use irpmon.UmServices.Snapshot.{
  DriverEntry, Field, ulong, write_devices, write_drivers, bytes_of, enum_drivers_devices,
}
use irpmon.DriverCom.{read_then, on_failure, allocate, allocate_last, free_objects, failed}
use irpmon.DriverCom.Snapshot.{Gives}
use irpmon.DriverCom.Retrieve.{
  take_pointer, take_ulong, take_text, retrieve_device, retrieve_devices, retrieve_driver,
  free_found_devices, free_found_driver, retrieve_drivers, snapshot_retrieve,
}
use irpmon.DriverCom.Retrieve.Whole.{found_driver, snapshot_retrieve-Gives}
use irpmon.DriverCom.Retrieve.Freed.{NearlyFreed, snapshot_retrieve-NearlyFreed}

abbrev port : DriverEntry
port = record {
  driver_object = 10;
  driver_name = 65 ∷ 66 ∷ [];
  devices = record { device_object = 11; attached_device = 0; device_name = 67 ∷ [] } ∷ [];
}

-- A heap that refuses the third request, and has the block of the driver's answer.
abbrev heap : Pool
heap = record { grants = λ n b. not (n == 2); asked = 0; live = 1 }

abbrev fields : List Field
fields = ulong 1 ∷ write_drivers (port ∷ [])

-- The array and the driver's block are granted, that of its device is not: one block stays.
leaks_driver :
    snapshot_retrieve 8 8 (some fields) heap
    ≡ failed (record { grants = λ n b. not (n == 2); asked = 3; live = 1 })
unfolding snapshot_retrieve retrieve_drivers retrieve_driver retrieve_devices retrieve_device
    take_pointer take_ulong take_text free_found_devices free_found_driver write_drivers
    write_devices pool_alloc pool_free free_objects read_then allocate allocate_last on_failure
leaks_driver = refl

snapshot_retrieve-NearlyFreed_example :
    NearlyFreed 0 (snapshot_retrieve 8 8 (enum_drivers_devices 8 512 (port ∷ [])).2 heap)
unfolding bytes_of write_drivers write_devices
snapshot_retrieve-NearlyFreed_example =
    snapshot_retrieve-NearlyFreed 8 8 512 (port ∷ []) heap (λ e. absurd (omega arith)) (omega arith)
      (omega arith) (omega arith)

snapshot_retrieve-Gives_example :
    Gives heap.grants
      (map found_driver (port ∷ port ∷ []))
      (snapshot_retrieve 8 8 (enum_drivers_devices 8 512 (port ∷ port ∷ [])).2 heap)
unfolding bytes_of write_drivers write_devices
snapshot_retrieve-Gives_example =
    snapshot_retrieve-Gives 8 8 512 (port ∷ port ∷ []) heap (omega arith) (omega arith)
