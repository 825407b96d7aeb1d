-- ===== src/Hook/Dispatch.antt =====
-- What kbase/hook.c makes of a driver's routines, and how it gives them back.
use irpmon.Common.{
  ℕ, suc, ◌≡◌, refl, ap, map, ◌∙◌, ◌⊎◌, inl, inr, List, [], ◌∷◌, Option, none, some, Bool, true,
  false, ◌&&◌, if◌then◌else◌, if_true, if_false,
}
use irpmon.Kernel.{Status, success}
use irpmon.Hook.{
  MonitorSettings, DriverObject, DriverHook, Handlers, is_some, exchange, hook_fast_io_routines,
  unhook_fast_io_routines, hook_fast_io, unhook_fast_io, hooks_irp, hooks_fast_io,
  hook_driver_object, unhook_driver_object, enable, set_info,
}

exchange-restores :
    (monitored : Bool) (handler : ℕ) (routine old : Option ℕ)
    → (if is_some routine && monitored
        then (exchange monitored handler routine old).1
        else (exchange monitored handler routine old).0)
      ≡ routine
unfolding exchange
exchange-restores true handler none old = refl
exchange-restores false handler none old = refl
exchange-restores true handler (some r) old = refl
exchange-restores false handler (some r) old = refl

fast_io_routines-restores :
    (handler : ℕ → ℕ) (i : ℕ) (rs olds : List (Option ℕ))
    → unhook_fast_io_routines
        (hook_fast_io_routines handler i rs olds).0
        (hook_fast_io_routines handler i rs olds).1
      ≡ rs
unfolding unhook_fast_io_routines hook_fast_io_routines exchange
fast_io_routines-restores handler i [] olds = refl
fast_io_routines-restores handler i (r ∷ rs) [] = refl
fast_io_routines-restores handler i (none ∷ rs) (old ∷ olds) =
    ap (◌∷◌ none) (fast_io_routines-restores handler (suc i) rs olds)
fast_io_routines-restores handler i (some r ∷ rs) (old ∷ olds) =
    ap (◌∷◌ (some r)) (fast_io_routines-restores handler (suc i) rs olds)

fast_io-restores :
    (monitored : Bool) (handler : ℕ → ℕ) (table : Option (List (Option ℕ))) (olds : List (Option ℕ))
    → unhook_fast_io
        (is_some table && monitored)
        (hook_fast_io monitored handler table olds).0
        (hook_fast_io monitored handler table olds).1
      ≡ table
unfolding unhook_fast_io hook_fast_io
fast_io-restores monitored handler none olds = refl
fast_io-restores true handler (some rs) olds = ap some (fast_io_routines-restores handler 0 rs olds)
fast_io-restores false handler (some rs) olds = refl

major-restores :
    (b : Bool) (hooked olds whole : List ℕ)
    → (if b then (if b then whole else olds) else (if b then hooked else whole)) ≡ whole
major-restores true hooked olds whole = refl
major-restores false hooked olds whole = refl

-- _UnhookDriverObject after _HookDriverObject gives back every routine of the driver: the IRP
-- dispatch table, AddDevice, DriverUnload, StartIo and the fast I/O table, whatever is monitored
-- and whatever of it is NULL.
pub unhook-hook :
    (h : Handlers) (d : DriverObject) (r : DriverHook)
    → unhook_driver_object (hook_driver_object h d r).1 (hook_driver_object h d r).0 ≡ d
unfolding unhook_driver_object hook_driver_object
unhook-hook h d r = λ i. record {
  major_function =
      major-restores (hooks_irp r) (map (λ (f : ℕ). h.irp_dispatch) d.major_function)
        r.old_major_function d.major_function i;
  add_device =
      exchange-restores r.settings.monitor_add_device h.add_device_dispatch d.add_device
        r.old_add_device i;
  driver_unload =
      exchange-restores r.settings.monitor_unload h.driver_unload_dispatch d.driver_unload
        r.old_driver_unload i;
  driver_start_io =
      exchange-restores r.settings.monitor_start_io h.start_io_dispatch d.driver_start_io
        r.old_start_io i;
  fast_io = fast_io-restores (hooks_fast_io r) h.fast_io_handler d.fast_io r.old_fast_io i;
}

-- A routine that is there to be called, or the handler with the routine kept in the record.
pub Kept : ℕ → Option ℕ → Option ℕ × Option ℕ → Type 0
Kept handler routine after = (after.0 ≡ routine) ⊎ ((after.0 ≡ some handler) × (after.1 ≡ routine))

exchange-Kept :
    (monitored : Bool) (handler : ℕ) (routine old : Option ℕ)
    → Kept handler routine (exchange monitored handler routine old)
unfolding exchange Kept
exchange-Kept monitored handler none old = inl refl
exchange-Kept true handler (some r) old = inr (refl, refl)
exchange-Kept false handler (some r) old = inl refl

-- Setting the settings of the record any number of times.
pub set_infos : List MonitorSettings → DriverHook → DriverHook
set_infos [] r = r
set_infos (s ∷ ss) r = set_infos ss (set_info s r)

set_info-enabled :
    (s : MonitorSettings) (r : DriverHook)
    → r.monitoring_enabled ≡ true
    → set_info s r ≡ record r {
      settings = record r.settings {
        monitor_new_devices = s.monitor_new_devices;
        monitor_irp_completion = s.monitor_irp_completion;
        monitor_data = s.monitor_data;
        monitor_stack_trace = s.monitor_stack_trace;
      };
    }
unfolding set_info
set_info-enabled s r e = ap (λ t. record r { settings = t }) (if_true _ _ e)

-- A record whose driver is hooked is unhooked as before, whatever the settings were set to.
unhook-set_infos :
    (ss : List MonitorSettings) (r : DriverHook) (d : DriverObject)
    → r.monitoring_enabled ≡ true
    → (unhook_driver_object (set_infos ss r) d ≡ unhook_driver_object r d)
      × ((set_infos ss r).monitoring_enabled ≡ true)
unfolding set_infos unhook_driver_object
unhook-set_infos [] r d e = (refl, e)
unhook-set_infos (s ∷ ss) r d e =
    let kept = set_info-enabled s r e in
    let (same, on) =
      unhook-set_infos ss (set_info s r) d (ap (λ x. x.monitoring_enabled) kept ∙ e) in
    (same ∙ ap (λ x. unhook_driver_object x d) kept, on)

disable-unhooks :
    (h : Handlers) (d : DriverObject) (r : DriverHook)
    → r.monitoring_enabled ≡ true
    → ((enable h false d r).0 ≡ success) × ((enable h false d r).1 ≡ unhook_driver_object r d)
unfolding enable unhook_driver_object
disable-unhooks h d r e = (
  ap {A = Status × DriverObject × DriverHook} (λ x. x.0) (if_true _ _ e),
  ap {A = Status × DriverObject × DriverHook} (λ x. x.1) (if_true _ _ e),
)

enable-hooks :
    (h : Handlers) (d : DriverObject) (r : DriverHook)
    → r.monitoring_enabled ≡ false
    → enable h true d r ≡ (
      success,
      (hook_driver_object h d (record r { monitoring_enabled = true })).0,
      (hook_driver_object h d (record r { monitoring_enabled = true })).1,
    )
unfolding enable
enable-hooks h d r e = if_false _ _ e

enabled :
    (h : Handlers) (d : DriverObject) (r : DriverHook)
    → (hook_driver_object h d (record r { monitoring_enabled = true })).1.monitoring_enabled ≡ true
unfolding hook_driver_object
enabled h d r = refl

-- Monitoring is enabled, the settings are changed any number of times, and monitoring is disabled:
-- both changes succeed, and the driver has all its own routines again.
pub disable-enable :
    (h : Handlers) (d : DriverObject) (r : DriverHook) (ss : List MonitorSettings)
    → r.monitoring_enabled ≡ false
    → ((enable h true d r).0 ≡ success)
      × ((enable h false (enable h true d r).1 (set_infos ss (enable h true d r).2)).0 ≡ success)
      × ((enable h false (enable h true d r).1 (set_infos ss (enable h true d r).2)).1 ≡ d)
disable-enable h d r ss e =
    let r' = record r { monitoring_enabled = true } in
    let hooked = hook_driver_object h d r' in
    let (same, on) = unhook-set_infos ss hooked.1 hooked.0 (enabled h d r) in
    let (ok, back) = disable-unhooks h hooked.0 (set_infos ss hooked.1) on in
    rw (enable-hooks h d r e) (refl, ok, back ∙ (same ∙ unhook-hook h d r'))
