-- ===== src/DriverCom/Snapshot.antt =====
-- What DriverComHookedObjectsEnumerate makes of the buffer that HookObjectsEnumerate filled.
use irpmon.Common.{
  ℕ, suc, ◌+◌, ◌*◌, ◌^◌, ◌≤◌, ◌<◌, ◌≡◌, refl, sym, ap, subst, List, [], ◌∷◌, ◌++◌, map, Option,
  some, Bool, false, if◌then◌else◌, if_false, if_intro, length, ◌==◌, Bool-cases, inl, inr, All,
  arith,
}
use irpmon.Kernel.{
  Pool, Block, bytes, array, hooked_driver_uminfo, hooked_device_uminfo, pool_alloc, pool_free,
}
use irpmon.Hook.{is_user_request, DeviceHook, get_info}
use irpmon.Hook.Enumerate.{
  InfoSizes, ListedDriver, DriverInfo, DeviceInfo, Entry, driver_entry, device_entry, load, wrap32,
  name_bytes, device_bytes, driver_bytes, requested, device_info_of, driver_info_of, enumerate,
  fill_drivers, count_devices,
}
use irpmon.Hook.Enumerate.Bounds.{devices_total, drivers_total, wrap32-small}
use irpmon.Hook.Enumerate.Layout.{
  size_of, device_entries, entries, Stored, HaveDevices, fill_drivers-Stored, enumerate-fills,
}
use irpmon.DriverCom.{
  UserDevice, UserDriver, Read, parsed, failed, garbled, astray, read_then, on_failure, allocate,
  allocate_last, driver_at, device_at, without_terminator, user_device, user_driver, parse_devices,
  allocate_devices, free_devices_array, parse_driver, free_driver, parse_drivers, free_objects,
  hooked_objects_enumerate,
}

-- What an application is to see of a device, and of a driver with the devices that are listed.
pub seen_device : ℕ × DeviceHook → UserDevice
seen_device d = record {
  object_id = d.0;
  device_object = d.1.device_object;
  fast_io_settings = d.1.fast_io_monitor_settings;
  irp_settings = d.1.irp_monitor_settings;
  monitoring_enabled = d.1.monitoring_enabled;
  device_name_len = 2 * length d.1.device_name;
  device_name = d.1.device_name;
}

pub seen_driver : ListedDriver → UserDriver
seen_driver r = record {
  object_id = r.object_id;
  driver_object = r.driver_object;
  device_extension_hooks = r.hook.device_extension_hook;
  monitoring_enabled = r.hook.monitoring_enabled;
  monitor_settings = r.hook.settings;
  driver_name_len = 2 * length r.driver_name;
  driver_name = r.driver_name;
  hooked_devices = map seen_device (requested r.selected_devices);
}

-- The run gives exactly this result, or the heap refuses an allocation.
unfoldable pub Gives : {A : Type 0} → (ℕ → Block → Bool) → A → Read A → Type 0
Gives grants a (parsed b p) = (b ≡ a) × (p.grants ≡ grants)
Gives grants a (failed p) = (n : ℕ) × (b : Block) × (grants n b ≡ false)
Gives grants a garbled = ⊥
Gives grants a astray = (n : ℕ) × (b : Block) × (grants n b ≡ false)

pub read_then-Gives :
    {A B : Type 0} (g : ℕ → Block → Bool) (a : A) (b : B) (r : Read A) (f : A → Pool → Read B)
    → Gives g a r
    → ((p : Pool) → p.grants ≡ g → Gives g b (f a p))
    → Gives g b (read_then r f)
unfolding Gives read_then
read_then-Gives g a b (parsed a' p) f (e, h) k = subst (λ x. Gives g b (f x p)) (sym e) (k p h)
read_then-Gives g a b (failed p) f h k = h
read_then-Gives g a b garbled f h k = absurd h
read_then-Gives g a b astray f h k = h

pub on_failure-Gives :
    {A : Type 0} (g : ℕ → Block → Bool) (a : A) (undo : Pool → Pool) (r : Read A)
    → Gives g a r
    → Gives g a (on_failure undo r)
unfolding Gives on_failure
on_failure-Gives g a undo (parsed b p) h = h
on_failure-Gives g a undo (failed p) h = h
on_failure-Gives g a undo garbled h = h
on_failure-Gives g a undo astray h = h

pub parsed-Gives :
    {A : Type 0} (g : ℕ → Block → Bool) (a b : A) (p : Pool)
    → b ≡ a
    → p.grants ≡ g
    → Gives g a (parsed b p)
unfolding Gives
parsed-Gives g a b p e h = (e, h)

pub allocate-Gives :
    (g : ℕ → Block → Bool) (b : Block) (p : Pool) → p.grants ≡ g → Gives g tt (allocate b p)
unfolding Gives allocate pool_alloc
allocate-Gives g b p h = elim (Bool-cases (p.grants p.asked b)) [
  | inl e ↦ rw e (refl, h)
  | inr e ↦ rw e (p.asked, b, subst (λ f. f p.asked b ≡ false) h e)
]

pub allocate_last-Gives :
    (g : ℕ → Block → Bool) (last : ℕ) (b : Block) (p : Pool)
    → p.grants ≡ g
    → Gives g tt (allocate_last last b p)
unfolding Gives allocate_last pool_alloc
allocate_last-Gives g last b p h = elim (Bool-cases (p.grants p.asked b)) [
  | inl e ↦ rw e (refl, h)
  | inr e ↦
      let refused : (n : ℕ) × (c : Block) × (g n c ≡ false) =
        (p.asked, b, subst (λ f. f p.asked b ≡ false) h e) in
      rw e (if_intro (Gives g tt) (last == 0) refused refused)
]

allocate_devices-Gives :
    (g : ℕ → Block → Bool) (last n : ℕ) (p : Pool)
    → p.grants ≡ g
    → Gives g tt (allocate_devices last n p)
unfolding allocate_devices Gives
allocate_devices-Gives g last n p h = elim (Bool-cases (n == 0)) [
  | inl e ↦ rw e (refl, h)
  | inr e ↦ rw e (allocate_last-Gives g last (array n hooked_device_uminfo) p h)
]

driver_at-Gives :
    (g : ℕ → Block → Bool) (i : DriverInfo) (o : Option Entry) (p : Pool)
    → o ≡ some (driver_entry i)
    → p.grants ≡ g
    → Gives g i (driver_at o p)
unfolding driver_at Gives
driver_at-Gives g i o p e h = rw e (refl, h)

device_at-Gives :
    (g : ℕ → Block → Bool) (i : DeviceInfo) (o : Option Entry) (p : Pool)
    → o ≡ some (device_entry i)
    → p.grants ≡ g
    → Gives g i (device_at o p)
unfolding device_at Gives
device_at-Gives g i o p e h = rw e (refl, h)

-- The length of a name that went through the buffer.
pub without_terminator-name :
    (n : List ℕ) → name_bytes n < 2 ^ 32 → without_terminator (name_bytes n) ≡ 2 * length n
without_terminator-name n h = omega arith

-- The offset behind some entries.
skip : ℕ → List Entry → ℕ
skip at [] = at
skip at (e ∷ es) = skip (at + size_of e) es

Stored-append :
    (memory : ℕ → Option Entry) (at : ℕ) (xs ys : List Entry)
    → Stored memory at (xs ++ ys)
    → Stored memory at xs × Stored memory (skip at xs) ys
unfolding Stored skip
Stored-append memory at [] ys h = (tt, h)
Stored-append memory at (x ∷ xs) ys (e, h) =
    let (left, right) = Stored-append memory (at + size_of x) xs ys h in ((e, left), right)

-- Names whose length in bytes is a ULONG.
Short : List (ℕ × DeviceHook) → Type 0
Short ds = All (λ d. name_bytes d.1.device_name < 2 ^ 32) ds

requested-Short :
    (z : InfoSizes) (ds : List (ℕ × DeviceHook))
    → devices_total z ds < 2 ^ 32
    → Short (requested ds) × (length (requested ds) ≤ devices_total z ds)
unfolding Short All requested devices_total
requested-Short z [] h = (tt, omega arith)
requested-Short z (d ∷ ds) h = elim (Bool-cases (is_user_request d.1.create_reason)) [
  | inl e ↦
      let n = device_bytes z d.1 in
      let fits : n + devices_total z ds < 2 ^ 32 =
        subst (λ b. let rest = devices_total z ds in (if b then n + rest else rest) < 2 ^ 32) e h in
      let (short, few) = requested-Short z ds (omega arith) in
      rw e ((omega arith, short), omega arith)
  | inr e ↦
      let fits : devices_total z ds < 2 ^ 32 =
        subst
          (λ b.
            let rest = devices_total z ds in
            (if b then device_bytes z d.1 + rest else rest) < 2 ^ 32)
          e h in
      rw e (requested-Short z ds fits)
]

user_device-seen :
    (z : InfoSizes) (d : ℕ × DeviceHook)
    → name_bytes d.1.device_name < 2 ^ 32
    → user_device (device_info_of z d) ≡ seen_device d
unfolding user_device device_info_of seen_device
user_device-seen z d h =
    λ i. record (seen_device d) { device_name_len = without_terminator-name d.1.device_name h i }

abbrev infos : InfoSizes → List (ℕ × DeviceHook) → List Entry
infos z ds = map (λ d. device_entry (device_info_of z d)) ds

parse_devices-Gives :
    (g : ℕ → Block → Bool) (last : ℕ) (memory : ℕ → Option Entry) (z : InfoSizes) (at : ℕ)
    (ds : List (ℕ × DeviceHook)) (p : Pool)
    → Short ds
    → Stored memory at (infos z ds)
    → p.grants ≡ g
    → Gives g
        (map seen_device ds, skip at (infos z ds))
        (parse_devices last memory (length ds) at p)
unfolding Gives Stored Short All parse_devices skip
parse_devices-Gives g last memory z at [] p short stored h = (refl, h)
parse_devices-Gives g last memory z at (d ∷ ds) p (fits, short) (e, stored) h =
    let i = device_info_of z d in
    let end = skip (at + i.entry_size) (infos z ds) in
    let whole : List UserDevice × ℕ = (seen_device d ∷ map seen_device ds, end) in
    read_then-Gives g i whole _ _ (device_at-Gives g i (memory at) p e h) (λ p1 h1.
      read_then-Gives g tt whole _ _ (allocate_last-Gives g last (bytes i.device_name_len) p1 h1)
        (λ p2 h2. on_failure-Gives g whole pool_free _ (
          read_then-Gives g (map seen_device ds, end) whole _ _
            (parse_devices-Gives g last memory z (at + i.entry_size) ds p2 short stored h2)
            (λ p3 h3.
              parsed-Gives g whole (user_device i ∷ map seen_device ds, end) p3
                (ap (λ x. (x ∷ map seen_device ds, end)) (user_device-seen z d fits)) h3))))

user_driver-seen :
    (z : InfoSizes) (r : ListedDriver)
    → name_bytes r.driver_name < 2 ^ 32
    → user_driver (driver_info_of z r) (map seen_device (requested r.selected_devices))
      ≡ seen_driver r
unfolding user_driver driver_info_of seen_driver get_info
user_driver-seen z r h =
    λ i. record (seen_driver r) { driver_name_len = without_terminator-name r.driver_name h i }

number-length :
    (z : InfoSizes) (r : ListedDriver)
    → devices_total z r.selected_devices < 2 ^ 32
    → (driver_info_of z r).number_of_hooked_devices ≡ length (requested r.selected_devices)
unfolding driver_info_of
number-length z r h =
    let (short, few) = requested-Short z r.selected_devices h in
    wrap32-small (length (requested r.selected_devices)) (omega arith)

parse_driver-Gives :
    (g : ℕ → Block → Bool) (last : ℕ) (memory : ℕ → Option Entry) (z : InfoSizes) (at : ℕ)
    (r : ListedDriver) (p : Pool)
    → driver_bytes z r + devices_total z r.selected_devices < 2 ^ 32
    → memory at ≡ some (driver_entry (driver_info_of z r))
    → Stored memory (at + (driver_info_of z r).entry_size) (device_entries z r.selected_devices)
    → p.grants ≡ g
    → Gives g
        (
          seen_driver r,
          skip (at + (driver_info_of z r).entry_size) (device_entries z r.selected_devices),
        )
        (parse_driver last memory at p)
unfolding parse_driver
parse_driver-Gives g last memory z at r p fits e stored h =
    let i = driver_info_of z r in
    let ds = requested r.selected_devices in
    let end = skip (at + i.entry_size) (infos z ds) in
    let whole : UserDriver × ℕ = (seen_driver r, end) in
    let (short, few) = requested-Short z r.selected_devices (omega arith) in
    let count : i.number_of_hooked_devices ≡ length ds = number-length z r (omega arith) in
    read_then-Gives g i whole _ _ (driver_at-Gives g i (memory at) p e h) (λ p1 h1.
      read_then-Gives g tt whole _ _ (allocate_last-Gives g last (bytes i.driver_name_len) p1 h1)
        (λ p2 h2. on_failure-Gives g whole pool_free _ (
          read_then-Gives g tt whole _ _
            (allocate_devices-Gives g last i.number_of_hooked_devices p2 h2)
            (λ p3 h3. on_failure-Gives g whole (free_devices_array i.number_of_hooked_devices) _ (
              read_then-Gives g (map seen_device ds, end) whole _ _
                (subst
                  (λ n.
                    Gives g (map seen_device ds, end)
                      (parse_devices last memory n (at + i.entry_size) p3))
                  (sym count)
                  (parse_devices-Gives g last memory z (at + i.entry_size) ds p3 short stored h3))
                (λ p4 h4.
                  parsed-Gives g whole (user_driver i (map seen_device ds), end) p4
                    (ap (λ x. (x, end)) (user_driver-seen z r (omega arith))) h4))))))

parse_drivers-Gives :
    (g : ℕ → Block → Bool) (last : ℕ) (memory : ℕ → Option Entry) (z : InfoSizes) (at : ℕ)
    (rs : List ListedDriver) (p : Pool)
    → drivers_total z rs < 2 ^ 32
    → Stored memory at (entries z rs)
    → p.grants ≡ g
    → Gives g (map seen_driver rs) (parse_drivers last memory (length rs) at p)
unfolding Gives Stored parse_drivers entries drivers_total
parse_drivers-Gives g last memory z at [] p fits stored h = (refl, h)
parse_drivers-Gives g last memory z at (r ∷ rs) p fits (e, stored) h =
    let behind = at + (driver_info_of z r).entry_size in
    let (devices, others) =
      Stored-append memory behind (device_entries z r.selected_devices) (entries z rs) stored in
    let end = skip behind (device_entries z r.selected_devices) in
    let whole = map seen_driver (r ∷ rs) in
    read_then-Gives g (seen_driver r, end) whole _ _
      (parse_driver-Gives g last memory z at r p (omega arith) e devices h)
      (λ p1 h1. on_failure-Gives g whole (free_driver (seen_driver r)) _ (
        read_then-Gives g (map seen_driver rs) whole _ _
          (parse_drivers-Gives g last memory z end rs p1 (omega arith) others h1)
          (λ p2 h2. parsed-Gives g whole whole p2 refl h2)))

pub free_objects-Gives :
    {A : Type 0} (g : ℕ → Block → Bool) (us : A) (r : Read A)
    → Gives g us r
    → Gives g us (free_objects r)
unfolding Gives free_objects pool_free
free_objects-Gives g us (parsed us' p) h = h
free_objects-Gives g us (failed p) h = h
free_objects-Gives g us garbled h = h
free_objects-Gives g us astray h = h

length-drivers_total : (z : InfoSizes) (rs : List ListedDriver) → length rs ≤ drivers_total z rs
unfolding drivers_total
length-drivers_total z [] = omega arith
length-drivers_total z (r ∷ rs) = omega (arith, length-drivers_total z rs)

pub filled :
    (last : ℕ) (z : InfoSizes) (rs : List ListedDriver) (p : Pool)
    → z.objects_info + drivers_total z rs < 2 ^ 32
    → HaveDevices rs
    → Gives p.grants (map seen_driver rs) (
        hooked_objects_enumerate last z.objects_info
          (some record {
            number_of_hooked_drivers = wrap32 (length rs);
            number_of_hooked_devices = wrap32 (count_devices rs);
            writes = fill_drivers z z.objects_info rs;
          })
          p)
unfolding hooked_objects_enumerate
filled last z [] p fits have =
    free_objects-Gives p.grants [] _ (parsed-Gives p.grants [] [] p refl refl)
filled last z (r ∷ rs) p fits have =
    let whole = map seen_driver (r ∷ rs) in
    let memory = load (fill_drivers z z.objects_info (r ∷ rs)) in
    let n = wrap32 (suc (length rs)) in
    let few = length-drivers_total z (r ∷ rs) in
    let count : n ≡ suc (length rs) = wrap32-small (suc (length rs)) (omega arith) in
    rw count (
      free_objects-Gives p.grants whole _ (
        rw (if_false {b = suc (length rs) == 0} _ _ (ground arith)) (
          read_then-Gives p.grants tt whole _ _
            (allocate_last-Gives p.grants last (array (suc (length rs)) hooked_driver_uminfo) p
              refl)
            (λ p1 h1. on_failure-Gives p.grants whole pool_free _ (
              parse_drivers-Gives p.grants last memory z z.objects_info (r ∷ rs) p1 (omega arith)
                (fill_drivers-Stored z z.objects_info (r ∷ rs) (omega arith) have) h1)))))

-- An application that asks for the hooked drivers with a buffer that is long enough sees every
-- driver of the table with its settings and its listed devices, in the table's order, unless
-- its heap refuses an allocation. The records take less than 4 GiB, and every driver has a
-- device record, listed or not.
pub hooked_objects-Gives :
    (last : ℕ) (z : InfoSizes) (rs : List ListedDriver) (len : ℕ) (p : Pool)
    → z.objects_info + drivers_total z rs < 2 ^ 32
    → z.objects_info + drivers_total z rs ≤ len
    → HaveDevices rs
    → Gives p.grants
        (map seen_driver rs)
        (hooked_objects_enumerate last z.objects_info (enumerate z rs len).2 p)
hooked_objects-Gives last z rs len p fits enough have =
    rw (enumerate-fills z rs len fits enough) (filled last z rs p fits have)
