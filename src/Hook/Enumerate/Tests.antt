-- ===== src/Hook/Enumerate/Tests.antt =====
-- Runs of HookObjectsEnumerate on small tables, and the theorems at them.
use irpmon.Common.{ℕ, ◌≡◌, refl, List, [], ◌∷◌, none, some, false, All, arith, map}
use irpmon.Kernel.{buffer_too_small}
use irpmon.Hook.{driver_hooked, user_request, DeviceHook, get_info}
use irpmon.Hook.Tests.{fresh}
use irpmon.Hook.Enumerate.{
  InfoSizes, ListedDriver, required_devices, required_drivers, device_info_of, requested,
  driver_info_of, fill_devices, next_driver_info, fill_drivers, count_devices, enumerate, load,
  driver_entry,
}
use irpmon.Hook.Enumerate.Bounds.{devices_total, drivers_total, Answered, enumerate-Answered}
use irpmon.Hook.Enumerate.Layout.{HaveDevices}
use irpmon.Hook.Enumerate.Overwritten.{fill_drivers-overwrites}

program : Unit {0}
unfolding get_info required_devices required_drivers device_info_of requested driver_info_of
    fill_devices next_driver_info fill_drivers count_devices enumerate load
program = tt

abbrev pub sizes : InfoSizes
sizes = record { objects_info = 8; driver_info = 96; device_info = 72 }

abbrev hooked_device : DeviceHook
hooked_device = record {
  reference_count = 1;
  device_object = 40;
  device_name = 65 ∷ [];
  create_reason = driver_hooked;
  monitoring_enabled = false;
  irp_monitor_settings = [];
  fast_io_monitor_settings = [];
  proxy_device = none;
}

abbrev listed_device : DeviceHook
listed_device = record hooked_device {
  device_object = 41;
  create_reason = user_request;
  device_name = 65 ∷ 66 ∷ [];
}

abbrev pub listed_driver : List (ℕ × DeviceHook) → ListedDriver
listed_driver ds = record {
  object_id = 50;
  driver_object = 51;
  driver_name = 67 ∷ [];
  hook = fresh;
  selected_devices = ds;
}

abbrev pub two : List (ℕ × DeviceHook)
two = (60, hooked_device) ∷ (61, listed_device) ∷ []

-- 8 bytes of header, 100 of the driver and 78 of its one listed device
required_186 : (enumerate sizes (listed_driver two ∷ []) 185).0 ≡ buffer_too_small
unfolding program
required_186 = refl

offsets :
    map (λ w. w.at) (fill_drivers sizes 8 (listed_driver two ∷ listed_driver two ∷ []))
    ≡ 8 ∷ 108 ∷ 186 ∷ 286 ∷ []
unfolding program
offsets = refl

enumerate-Answered_example :
    Answered sizes (listed_driver two ∷ []) 200 (enumerate sizes (listed_driver two ∷ []) 200)
unfolding drivers_total devices_total
enumerate-Answered_example = enumerate-Answered sizes (listed_driver two ∷ []) 200 (omega arith)

abbrev other_driver : ListedDriver
other_driver = record (listed_driver two) { object_id = 70; driver_object = 71 }

fill_drivers-overwrites_example :
    load (fill_drivers sizes 8 (listed_driver [] ∷ other_driver ∷ [])) 8
    ≡ some (driver_entry (driver_info_of sizes other_driver))
unfolding drivers_total devices_total HaveDevices All
fill_drivers-overwrites_example =
    fill_drivers-overwrites sizes 8 (listed_driver []) other_driver [] refl (omega arith, tt)
      (omega arith)
