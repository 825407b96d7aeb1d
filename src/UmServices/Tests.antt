-- ===== src/UmServices/Tests.antt =====
-- Runs of UMGetRequestRecord on a small queue, and the theorem at it.
use irpmon.Common.{[], ◌∷◌, arith}
use irpmon.UmServices.Snapshot.{
  DriverEntry, write_devices, write_drivers, bytes_of, enum_drivers_devices, Snapped,
  enum_drivers_devices-Snapped,
}

abbrev port : DriverEntry
port = record {
  driver_object = 10;
  driver_name = 65 ∷ 66 ∷ [];
  devices = record { device_object = 11; attached_device = 0; device_name = 67 ∷ [] } ∷ [];
}

enum_drivers_devices-Snapped_example :
    Snapped 8 100 (port ∷ []) (enum_drivers_devices 8 100 (port ∷ []))
unfolding bytes_of write_drivers write_devices
enum_drivers_devices-Snapped_example = enum_drivers_devices-Snapped 8 100 (port ∷ []) (omega arith)
