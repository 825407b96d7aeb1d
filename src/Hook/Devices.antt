-- ===== src/Hook/Devices.antt =====
-- The device records of one hooked driver in kbase/hook.c: creating, finding, releasing them.
-- A record is known by its address, and `records` has the live ones; an address is used once.
-- SelectedDevices is the list of its device objects and the addresses of their records, and the
-- validation table the set of addresses in it. A reference count is kept in ℕ, as each
-- reference has a holder in memory. What the kernel answers to the calls is an input.
pub mod Counts
pub mod Changes
pub mod Owned
pub mod Calls
pub mod Returns
pub mod Existing
pub mod Machine
mod Tests
use irpmon.Common.{
  ℕ, suc, ◌+◌, ◌-◌, List, [], ◌∷◌, ◌++◌, Option, none, some, Bool, true, false, if◌then◌else◌, ◌==◌,
  length, replicate,
}
use irpmon.Kernel.{
  Status, success, insufficient_resources, not_found, object_name_collision, nt_success,
}
use irpmon.Hook.{
  CreateReason, driver_hooked, user_request, is_user_request, is_driver_hooked, DeviceHook,
}

-- The state: the driver record's fields that matter to its devices, and the records.
pub record Devices : Type 0 where
  pub driver_references : ℕ
  pub device_extension_hook : Bool
  pub irp_settings : List ℕ
  pub fast_io_settings : List ℕ
  pub records : ℕ → Option DeviceHook
  pub next : ℕ
  pub selected : List (ℕ × ℕ)
  pub valid : ℕ → Bool

-- What a call gets from the kernel: whether the record is allocated, the statuses of
-- IoAcquireRemoveLock, _GetObjectName and ProxyDeviceCreate, the name and the proxy device.
pub record Answers : Type 0 where
  pub allocated : Bool
  pub locked : Status
  pub named : Status
  pub name : List ℕ
  pub proxied : Status
  pub proxy : ℕ

pub set_record : ℕ → Option DeviceHook → Devices → Devices
set_record a r s = record s { records = λ x. if x == a then r else s.records x }

pub set_valid : ℕ → Bool → Devices → Devices
set_valid a b s = record s { valid = λ x. if x == a then b else s.valid x }

-- _DeviceHookRecordFree
pub free : ℕ → Devices → Devices
free a s =
    let s1 = set_valid a false s in
    set_record a none (record s1 { driver_references = s1.driver_references - 1 })

-- DeviceHookRecordReference and DeviceHookRecordDereference of a record; an address
-- that is not live is left alone.
pub reference_record : ℕ → Option DeviceHook → Devices → Devices
reference_record a none s = s
reference_record a (some d) s =
    set_record a (some (record d { reference_count = d.reference_count + 1 })) s

pub dereference_record : ℕ → Option DeviceHook → Devices → Devices
dereference_record a none s = s
dereference_record a (some d) s =
    if d.reference_count == 1
    then free a s
    else set_record a (some (record d { reference_count = d.reference_count - 1 })) s

abbrev pub reference : ℕ → Devices → Devices
reference a s = reference_record a (s.records a) s

abbrev pub dereference : ℕ → Devices → Devices
dereference a s = dereference_record a (s.records a) s

-- The settings that a caller passes, or others where it passes NULL.
abbrev pub given : Option (List ℕ) → List ℕ → List ℕ
given none other = other
given (some settings) other = settings

-- _DeviceHookRecordCreate: the status, the record's address and the state.
pub create :
    Answers
    → Option (List ℕ)
    → Option (List ℕ)
    → Bool
    → CreateReason
    → ℕ
    → Devices
    → Status × ℕ × Devices
create ans irp fast_io enabled reason object s =
    let made : DeviceHook = record {
      reference_count = 1;
      device_object = object;
      device_name = ans.name;
      create_reason = reason;
      monitoring_enabled = enabled;
      irp_monitor_settings = given irp s.irp_settings;
      fast_io_monitor_settings = given fast_io s.fast_io_settings;
      proxy_device = none;
    } in
    if ans.allocated
    then if nt_success ans.locked
      then if nt_success ans.named
        then (
          ans.named,
          s.next,
          set_record s.next (some made)
              (record s { driver_references = s.driver_references + 1; next = s.next + 1 }),
        )
        else (ans.named, s.next, s)
      else (ans.locked, s.next, s)
    else (insufficient_resources, s.next, s)

-- HashTableGet and HashTableDelete on SelectedDevices
pub find : ℕ → List (ℕ × ℕ) → Option ℕ
find object [] = none
find object (e ∷ es) = let rest = find object es in if e.0 == object then some e.1 else rest

pub unlink : ℕ → List (ℕ × ℕ) → List (ℕ × ℕ)
unlink object [] = []
unlink object (e ∷ es) = let rest = unlink object es in if e.0 == object then es else e ∷ rest

-- ProxyDeviceCreate for a driver that is hooked through the device extension.
abbrev pub proxy_status : Answers → Status → Devices → Status
proxy_status ans status s = if s.device_extension_hook then ans.proxied else status

abbrev pub with_proxy : Answers → Devices → DeviceHook → DeviceHook
with_proxy ans s d = record d {
  proxy_device = if s.device_extension_hook then some ans.proxy else d.proxy_device;
}

pub update : ℕ → (DeviceHook → DeviceHook) → Option DeviceHook → Devices → Devices
update a f none s = s
update a f (some d) s = set_record a (some (f d)) s

-- DriverHookRecordAddDevice where the device has no record yet: the new one goes into the table.
pub add_new : Answers → Status → ℕ → ℕ → Devices → Status × Option ℕ × Devices
add_new ans status object a s =
    let s1 = reference a s in
    let s2 = record s1 { selected = (object, a) ∷ s1.selected } in
    let proxied = proxy_status ans status s2 in
    if nt_success proxied
    then (let s3 = set_valid a true (update a (with_proxy ans s2) (s2.records a) s2) in
        (proxied, some a, dereference a (reference a s3)))
    else (let s3 = record s2 { selected = unlink object s2.selected } in
        (proxied, none, dereference a (dereference a s3)))

-- The record of a device that was there when the driver was hooked becomes a requested one.
pub adopt : Option (List ℕ) → Option (List ℕ) → Bool → DeviceHook → DeviceHook
adopt irp fast_io enabled d = record d {
  irp_monitor_settings = given irp (replicate (length d.irp_monitor_settings) 1);
  fast_io_monitor_settings = given fast_io (replicate (length d.fast_io_monitor_settings) 1);
  create_reason = user_request;
  monitoring_enabled = enabled;
}

-- The same where it has the record `existing`, and `a` is the new one, which is not needed.
pub add_existing :
    Answers
    → Status
    → Option (List ℕ)
    → Option (List ℕ)
    → Bool
    → ℕ
    → ℕ
    → Option DeviceHook
    → Devices
    → Status × Option ℕ × Devices
add_existing ans status irp fast_io enabled a existing none s =
    (object_name_collision, none, dereference a s)
add_existing ans status irp fast_io enabled a existing (some d) s =
    let s1 = reference existing s in
    let proxied = proxy_status ans status s1 in
    let s2 =
      update existing (λ e. adopt irp fast_io enabled (with_proxy ans s1 e)) (s1.records existing)
        s1 in
    let s3 = reference existing (set_valid existing true s2) in
    if is_driver_hooked d.create_reason
    then if nt_success proxied
      then (proxied, some existing, dereference a (dereference existing s3))
      else (proxied, none, dereference a (dereference existing s1))
    else (object_name_collision, none, dereference a (dereference existing s1))

pub add_found :
    Answers
    → Status
    → Option (List ℕ)
    → Option (List ℕ)
    → Bool
    → ℕ
    → ℕ
    → Option ℕ
    → Devices
    → Status × Option ℕ × Devices
add_found ans status irp fast_io enabled object a none s = add_new ans status object a s
add_found ans status irp fast_io enabled object a (some existing) s =
    add_existing ans status irp fast_io enabled a existing (s.records existing) s

-- DriverHookRecordAddDevice
pub add_device :
    Answers → ℕ → Option (List ℕ) → Option (List ℕ) → Bool → Devices → Status × Option ℕ × Devices
add_device ans object irp fast_io enabled s =
    let made = create ans irp fast_io enabled user_request object s in
    if nt_success made.0
    then add_found ans made.0 irp fast_io enabled object made.1 (find object made.2.selected) made.2
    else (made.0, none, made.2)

-- What DriverHookRecordDeleteDevice does to the record of a requested device.
pub withdraw : DeviceHook → DeviceHook
withdraw d = record d {
  proxy_device = none;
  create_reason = driver_hooked;
  monitoring_enabled = false;
}

pub delete_record : ℕ → Option DeviceHook → Devices → Status × Devices
delete_record a none s = (not_found, s)
delete_record a (some d) s =
    let s1 = reference a s in
    if is_user_request d.create_reason
    then (success, dereference a (set_valid a false (update a withdraw (s1.records a) s1)))
    else (not_found, dereference a s1)

-- The ASSERT for a missing record stops only a checked build.
pub delete_found : Option ℕ → Devices → Status × Devices
delete_found none s = (not_found, s)
delete_found (some a) s = delete_record a (s.records a) s

-- DriverHookRecordDeleteDevice of the record of this device object
abbrev pub delete_device : ℕ → Devices → Status × Devices
delete_device object s = delete_found (find object s.selected) s

pub get_found : Option ℕ → Devices → Option ℕ × Devices
get_found none s = (none, s)
get_found (some a) s = (some a, reference a s)

-- DriverHookRecordGetDevice
abbrev pub get_device : ℕ → Devices → Option ℕ × Devices
get_device object s = get_found (find object s.selected) s

-- DeviceHookRecordValid
pub device_valid : ℕ → Devices → Bool × Devices
device_valid a s = if s.valid a then (true, reference a s) else (false, s)

-- HashTableClear of SelectedDevices, which dereferences the records in it.
pub dereference_all : List (ℕ × ℕ) → Devices → Devices
dereference_all [] s = s
dereference_all (e ∷ es) s = dereference_all es (dereference e.1 s)

pub clear : Devices → Devices
clear s = dereference_all s.selected (record s { selected = [] })

-- The loop of _CreateRecordsForExistingDevices over the driver's device objects, with the records
-- that are there already. A failure dereferences them.
pub create_all : List (Answers × ℕ) → List (ℕ × ℕ) → Devices → Status × List (ℕ × ℕ) × Devices
create_all [] done s = (success, done, s)
create_all (q ∷ qs) done s =
    let made = create q.0 none none false driver_hooked q.1 s in
    let rest = create_all qs (done ++ ((q.1, made.1) ∷ [])) made.2 in
    if nt_success made.0 then rest else (made.0, [], dereference_all done made.2)

-- The loop of HookDriverObject that puts the records into SelectedDevices.
pub select_all : List (ℕ × ℕ) → Devices → Devices
select_all [] s = s
select_all (e ∷ es) s =
    let s1 = reference e.1 s in select_all es (record s1 { selected = e ∷ s1.selected })

-- HookDriverObject on the devices that the driver has, and _FreeDeviceHookRecordArray. `taken` says
-- whether _driverTable has another record of the driver object.
pub hook_devices : Bool → List (Answers × ℕ) → Devices → Status × Devices
hook_devices taken qs s =
    let made = create_all qs [] s in
    let left = if taken then made.2 else select_all made.1 made.2 in
    let status = if taken then object_name_collision else made.0 in
    if nt_success made.0 then (status, dereference_all made.1 left) else (made.0, made.2)

-- DeviceHookRecordSetInfo and DeviceHookRecordGetInfo
pub set_device_info : Option (List ℕ) → Option (List ℕ) → Bool → DeviceHook → DeviceHook
set_device_info irp fast_io enabled d = record d {
  irp_monitor_settings = given irp d.irp_monitor_settings;
  fast_io_monitor_settings = given fast_io d.fast_io_monitor_settings;
  monitoring_enabled = enabled;
}

pub get_device_info : DeviceHook → List ℕ × List ℕ × Bool
get_device_info d = (d.irp_monitor_settings, d.fast_io_monitor_settings, d.monitoring_enabled)
