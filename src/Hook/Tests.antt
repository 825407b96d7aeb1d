-- ===== src/Hook/Tests.antt =====
-- Runs of the hooking routines on small drivers, and the theorems at them.
use irpmon.Common.{◌+◌, ◌≡◌, refl, [], ◌∷◌, none, some, true, false, replicate}
use irpmon.Kernel.{success, device_not_ready}
use irpmon.Hook.{
  MonitorSettings, DriverObject, DriverHook, Handlers, exchange, hook_fast_io_routines,
  unhook_fast_io_routines, hook_fast_io, unhook_fast_io, hook_driver_object, unhook_driver_object,
  enable, set_info, get_info,
}
use irpmon.Hook.Dispatch.{disable-enable, set_infos}

program : Unit {0}
unfolding exchange hook_fast_io_routines unhook_fast_io_routines hook_fast_io unhook_fast_io
    hook_driver_object unhook_driver_object enable set_info get_info
program = tt

abbrev handlers : Handlers
handlers = record {
  irp_dispatch = 100;
  add_device_dispatch = 101;
  driver_unload_dispatch = 102;
  start_io_dispatch = 103;
  fast_io_handler = λ i. 200 + i;
}

abbrev settings : MonitorSettings
settings = record {
  monitor_new_devices = true;
  monitor_start_io = true;
  monitor_add_device = true;
  monitor_unload = false;
  monitor_irp = true;
  monitor_irp_completion = true;
  monitor_data = true;
  monitor_fast_io = true;
  monitor_stack_trace = false;
  irp_settings = 1 ∷ [];
  fast_io_settings = 0 ∷ [];
}

abbrev quiet : MonitorSettings
quiet = record settings { monitor_irp = false; monitor_data = false; monitor_fast_io = false }

abbrev disk : DriverObject
disk = record {
  major_function = 1 ∷ 2 ∷ 3 ∷ [];
  add_device = some 4;
  driver_unload = some 5;
  driver_start_io = none;
  fast_io = some (some 6 ∷ none ∷ []);
}

abbrev pub fresh : DriverHook
fresh = record {
  settings = settings;
  device_extension_hook = false;
  monitoring_enabled = false;
  old_major_function = replicate 3 0;
  old_add_device = none;
  old_driver_unload = none;
  old_start_io = none;
  old_fast_io = none ∷ none ∷ [];
  add_device_present = false;
  driver_unload_present = false;
  start_io_present = false;
  fast_io_present = false;
}

hooked_disk : (hook_driver_object handlers disk fresh).0 ≡ record {
  major_function = 100 ∷ 100 ∷ 100 ∷ [];
  add_device = some 101;
  driver_unload = some 5;
  driver_start_io = none;
  fast_io = some (some 200 ∷ none ∷ []);
}
unfolding program
hooked_disk = refl

enabled_twice : (enable handlers true disk (enable handlers true disk fresh).2).0 ≡ device_not_ready
unfolding program
enabled_twice = refl

disable-enable_example :
    ((enable handlers true disk fresh).0 ≡ success)
    × ((enable handlers false
          (enable handlers true disk fresh).1
          (set_infos (quiet ∷ []) (enable handlers true disk fresh).2)).0
        ≡ success)
    × ((enable handlers false
          (enable handlers true disk fresh).1
          (set_infos (quiet ∷ []) (enable handlers true disk fresh).2)).1
        ≡ disk)
disable-enable_example = disable-enable handlers disk fresh (quiet ∷ []) refl
