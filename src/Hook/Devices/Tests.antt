-- ===== src/Hook/Devices/Tests.antt =====
-- Runs of the calls on device records, and the theorems at them.
use irpmon.Common.{ℕ, ◌≡◌, ◌≤◌, refl, [], ◌∷◌, none, some, true, false}
use irpmon.Kernel.{success, object_name_collision, not_found, unsuccessful}
use irpmon.Hook.{is_some}
use irpmon.Hook.Devices.{
  Devices, Answers, set_record, set_valid, free, reference_record, dereference_record, dereference,
  create, find, unlink, update, add_new, adopt, add_existing, add_found, add_device, withdraw,
  delete_record, delete_found, delete_device, get_found, device_valid, dereference_all, clear,
  create_all, select_all, hook_devices,
}
use irpmon.Hook.Devices.Owned.{held_count}
use irpmon.Hook.Devices.Machine.{
  empty, Reachable, starts, hooks, adds, releases, Reachable-live, clear-frees_devices,
}

program : Unit {0}
unfolding set_record set_valid free reference_record dereference_record create find unlink update
    add_new adopt add_existing add_found add_device withdraw delete_record delete_found get_found
    device_valid dereference_all clear create_all select_all hook_devices
program = tt

abbrev granted : Answers
granted = record {
  allocated = true;
  locked = success;
  named = success;
  name = 65 ∷ [];
  proxied = success;
  proxy = 9;
}

-- A driver record with one reference of its own, hooked through the device extension.
abbrev start : Devices
start = empty 1 true (1 ∷ 1 ∷ []) (1 ∷ []) 100

abbrev one_device : Devices
one_device = (hook_devices false ((granted, 7) ∷ []) start).1

abbrev requested : Devices
requested = (add_device granted 7 none none true one_device).2

hooked_devices : (one_device.selected ≡ (7, 100) ∷ []) × (one_device.driver_references ≡ 2)
unfolding program
hooked_devices = (refl, refl)

adopted :
    ((add_device granted 7 none none true one_device).0 ≡ success)
    × ((add_device granted 7 none none true one_device).1 ≡ some 100)
    × (requested.driver_references ≡ 2)
unfolding program
adopted = (refl, refl, refl)

requested_twice : (add_device granted 7 none none true requested).0 ≡ object_name_collision
unfolding program
requested_twice = refl

abbrev refused : Devices
refused = (add_device (record granted { proxied = unsuccessful }) 8 none none true start).2

without_proxy : (refused.selected ≡ []) × (refused.driver_references ≡ 1)
unfolding program
without_proxy = (refl, refl)

deleted_twice : (delete_device 7 (delete_device 7 requested).1).0 ≡ not_found
unfolding program
deleted_twice = refl

reached : Reachable 1 (100 ∷ []) requested
unfolding program
reached =
    adds [] one_device granted 7 none none true success 100 requested
      (hooks [] start false ((granted, 7) ∷ []) (starts true (1 ∷ 1 ∷ []) (1 ∷ []) 100)) refl

Reachable-live_example :
    ((a : ℕ) → 1 ≤ held_count a (100 ∷ []) → is_some (requested.records a) ≡ true)
    × ((object a : ℕ)
        → find object requested.selected ≡ some a
        → is_some (requested.records a) ≡ true)
    × ((a : ℕ) → requested.valid a ≡ true → is_some (requested.records a) ≡ true)
Reachable-live_example = Reachable-live 1 (100 ∷ []) requested reached

clear-frees_devices_example :
    ((a : ℕ) → (clear (dereference 100 requested)).records a ≡ none)
    × ((a : ℕ) → (clear (dereference 100 requested)).valid a ≡ false)
    × ((clear (dereference 100 requested)).driver_references ≡ 1)
clear-frees_devices_example =
    clear-frees_devices 1 (dereference 100 requested) (releases [] 100 [] requested reached)
