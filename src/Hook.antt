-- ===== src/Hook.antt =====
-- kbase/hook.c: hooking the routines of a driver object, and the records that remember them.
-- A routine is its address and NULL is `none`; the routines of the fast I/O table are listed in
-- the order in which the code handles them (SizeOfFastIoDispatch is no routine, and left out).
-- The addresses of the hook handlers are `Handlers`.
pub mod Dispatch
pub mod Enumerate
pub mod Devices
pub mod Tests
use irpmon.Common.{
  ℕ, zero, suc, List, [], ◌∷◌, Option, none, some, Bool, true, false, not, ◌&&◌, if◌then◌else◌, map,
}
use irpmon.Kernel.{Status, success, device_not_ready}

-- DRIVER_MONITOR_SETTINGS
pub record MonitorSettings : Type 0 where
  pub monitor_new_devices : Bool
  pub monitor_start_io : Bool
  pub monitor_add_device : Bool
  pub monitor_unload : Bool
  pub monitor_irp : Bool
  pub monitor_irp_completion : Bool
  pub monitor_data : Bool
  pub monitor_fast_io : Bool
  pub monitor_stack_trace : Bool
  pub irp_settings : List ℕ
  pub fast_io_settings : List ℕ

-- The routines of DRIVER_OBJECT and DRIVER_EXTENSION; there may be no fast I/O table.
pub record DriverObject : Type 0 where
  pub major_function : List ℕ
  pub add_device : Option ℕ
  pub driver_unload : Option ℕ
  pub driver_start_io : Option ℕ
  pub fast_io : Option (List (Option ℕ))

-- The fields of DRIVER_HOOK_RECORD that say what is hooked. `settings` has its Monitor fields and
-- the two arrays of settings.
pub record DriverHook : Type 0 where
  pub settings : MonitorSettings
  pub device_extension_hook : Bool
  pub monitoring_enabled : Bool
  pub old_major_function : List ℕ
  pub old_add_device : Option ℕ
  pub old_driver_unload : Option ℕ
  pub old_start_io : Option ℕ
  pub old_fast_io : List (Option ℕ)
  pub add_device_present : Bool
  pub driver_unload_present : Bool
  pub start_io_present : Bool
  pub fast_io_present : Bool

-- The hook handlers; that of a fast I/O routine by the routine's place in the table.
pub record Handlers : Type 0 where
  pub irp_dispatch : ℕ
  pub add_device_dispatch : ℕ
  pub driver_unload_dispatch : ℕ
  pub start_io_dispatch : ℕ
  pub fast_io_handler : ℕ → ℕ

abbrev pub is_some {ℓ} : {A : Type ℓ} → Option A → Bool
is_some none = false
is_some (some a) = true

-- The tests on a routine that is present: the driver's routine and the record's copy after the
-- exchange, if it is monitored.
pub exchange : Bool → ℕ → Option ℕ → Option ℕ → Option ℕ × Option ℕ
exchange monitored handler none old = (none, old)
exchange monitored handler (some routine) old =
    if monitored then (some handler, some routine) else (some routine, old)

-- _HookFastIoRoutine on each routine of the table, from the place `i` on.
pub hook_fast_io_routines :
    (ℕ → ℕ) → ℕ → List (Option ℕ) → List (Option ℕ) → List (Option ℕ) × List (Option ℕ)
hook_fast_io_routines handler i [] olds = ([], olds)
hook_fast_io_routines handler i (r ∷ rs) [] = (r ∷ rs, [])
hook_fast_io_routines handler i (r ∷ rs) (old ∷ olds) =
    let here = exchange true (handler i) r old in
    let rest = hook_fast_io_routines handler (suc i) rs olds in (here.0 ∷ rest.0, here.1 ∷ rest.1)

-- _UnhookFastIoRoutine on each routine of the table.
pub unhook_fast_io_routines : List (Option ℕ) → List (Option ℕ) → List (Option ℕ)
unhook_fast_io_routines [] olds = []
unhook_fast_io_routines (r ∷ rs) [] = r ∷ rs
unhook_fast_io_routines (r ∷ rs) (old ∷ olds) =
    (if is_some r then old else r) ∷ unhook_fast_io_routines rs olds

-- The part of _HookDriverObject on the table, which may be NULL.
pub hook_fast_io :
    Bool
    → (ℕ → ℕ)
    → Option (List (Option ℕ))
    → List (Option ℕ)
    → Option (List (Option ℕ)) × List (Option ℕ)
hook_fast_io monitored handler none olds = (none, olds)
hook_fast_io monitored handler (some rs) olds =
    let hooked = hook_fast_io_routines handler 0 rs olds in
    if monitored then (some hooked.0, hooked.1) else (some rs, olds)

pub unhook_fast_io : Bool → Option (List (Option ℕ)) → List (Option ℕ) → Option (List (Option ℕ))
unhook_fast_io monitored none olds = none
unhook_fast_io monitored (some rs) olds =
    if monitored then some (unhook_fast_io_routines rs olds) else some rs

-- The routines are hooked through the driver object, and not through the device extension.
abbrev pub hooks_irp : DriverHook → Bool
hooks_irp r = r.settings.monitor_irp && not r.device_extension_hook

abbrev pub hooks_fast_io : DriverHook → Bool
hooks_fast_io r = not r.device_extension_hook && r.settings.monitor_fast_io

pub hook_driver_object : Handlers → DriverObject → DriverHook → DriverObject × DriverHook
hook_driver_object h d r =
    let add_device =
      exchange r.settings.monitor_add_device h.add_device_dispatch d.add_device r.old_add_device in
    let unload =
      exchange r.settings.monitor_unload h.driver_unload_dispatch d.driver_unload
        r.old_driver_unload in
    let start_io =
      exchange r.settings.monitor_start_io h.start_io_dispatch d.driver_start_io r.old_start_io in
    let fast_io = hook_fast_io (hooks_fast_io r) h.fast_io_handler d.fast_io r.old_fast_io in
    (
      record {
        major_function =
            if hooks_irp r
            then map (λ (f : ℕ). h.irp_dispatch) d.major_function
            else d.major_function;
        add_device = add_device.0;
        driver_unload = unload.0;
        driver_start_io = start_io.0;
        fast_io = fast_io.0;
      },
      record r {
        old_major_function = if hooks_irp r then d.major_function else r.old_major_function;
        old_add_device = add_device.1;
        add_device_present = is_some d.add_device;
        old_driver_unload = unload.1;
        driver_unload_present = is_some d.driver_unload;
        old_start_io = start_io.1;
        start_io_present = is_some d.driver_start_io;
        old_fast_io = fast_io.1;
        fast_io_present = is_some d.fast_io;
      },
    )

pub unhook_driver_object : DriverHook → DriverObject → DriverObject
unhook_driver_object r d = record {
  major_function = if hooks_irp r then r.old_major_function else d.major_function;
  add_device =
      if r.add_device_present && r.settings.monitor_add_device
      then r.old_add_device
      else d.add_device;
  driver_unload =
      if r.driver_unload_present && r.settings.monitor_unload
      then r.old_driver_unload
      else d.driver_unload;
  driver_start_io =
      if r.start_io_present && r.settings.monitor_start_io
      then r.old_start_io
      else d.driver_start_io;
  fast_io = unhook_fast_io (r.fast_io_present && hooks_fast_io r) d.fast_io r.old_fast_io;
}

-- DriverHookRecordEnable: the status, the driver object and the record.
pub enable : Handlers → Bool → DriverObject → DriverHook → Status × DriverObject × DriverHook
enable h true d r =
    if r.monitoring_enabled
    then (device_not_ready, d, r)
    else let hooked = hook_driver_object h d (record r { monitoring_enabled = true }) in
      (success, hooked.0, hooked.1)
enable h false d r =
    if r.monitoring_enabled
    then (
      success,
      unhook_driver_object (record r { monitoring_enabled = false }) d,
      record r { monitoring_enabled = false },
    )
    else (device_not_ready, d, r)

-- DriverHookRecordSetInfo; what decides which routines are hooked stays while they are.
pub set_info : MonitorSettings → DriverHook → DriverHook
set_info s r = record r {
  settings =
      if r.monitoring_enabled
      then record r.settings {
        monitor_new_devices = s.monitor_new_devices;
        monitor_irp_completion = s.monitor_irp_completion;
        monitor_data = s.monitor_data;
        monitor_stack_trace = s.monitor_stack_trace;
      }
      else s;
}

-- DriverHookRecordGetInfo: the settings, and whether monitoring is enabled.
unfoldable pub get_info : DriverHook → MonitorSettings × Bool
get_info r = (r.settings, r.monitoring_enabled)

-- EDeviceRecordCreateReason: made on a request from user mode, or as the driver was hooked.
pub data CreateReason : Type 0 where
  unknown_reason user_request driver_hooked : CreateReason

abbrev pub is_user_request : CreateReason → Bool
is_user_request user_request = true
is_user_request _ = false

abbrev pub is_driver_hooked : CreateReason → Bool
is_driver_hooked driver_hooked = true
is_driver_hooked _ = false

-- DEVICE_HOOK_RECORD without the links of the tables it is in. A name is its UTF-16 code units.
pub record DeviceHook : Type 0 where
  pub reference_count : ℕ
  pub device_object : ℕ
  pub device_name : List ℕ
  pub create_reason : CreateReason
  pub monitoring_enabled : Bool
  pub irp_monitor_settings : List ℕ
  pub fast_io_monitor_settings : List ℕ
  pub proxy_device : Option ℕ
