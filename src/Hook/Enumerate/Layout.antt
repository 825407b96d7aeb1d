-- ===== src/Hook/Enumerate/Layout.antt =====
-- Where HookObjectsEnumerate puts its records, and what is in the buffer afterwards.
use irpmon.Common.{
  ℕ, ◌+◌, ◌^◌, ◌≤◌, ◌<◌, ◌≡◌, ◌≢◌, refl, sym, ap, ◌∙◌, subst, List, [], ◌∷◌, ◌++◌, map, Option,
  none, some, if◌then◌else◌, if_true, if_false, length, ◌==◌, ==_iff, All, Bool-cases, Option-cases,
  inl, inr, arith, le→leb,
}
use irpmon.Hook.{is_user_request, DeviceHook}
use irpmon.Hook.Enumerate.{
  InfoSizes, ListedDriver, Write, Entry, driver_entry, device_entry, wrap32, device_bytes,
  driver_bytes, requested, device_info_of, driver_info_of, fill_devices, next_driver_info,
  fill_drivers, load, enumerate, count_devices,
}
use irpmon.Hook.Enumerate.Bounds.{
  devices_total, drivers_total, wrap32-small, required_drivers-total,
}

abbrev pub size_of : Entry → ℕ
size_of (driver_entry i) = i.entry_size
size_of (device_entry i) = i.entry_size

-- The entries of a driver: its own, and those of its listed devices.
abbrev pub device_entries : InfoSizes → List (ℕ × DeviceHook) → List Entry
device_entries z ds = map (λ d. device_entry (device_info_of z d)) (requested ds)

unfoldable pub entries : InfoSizes → List ListedDriver → List Entry
entries z [] = []
entries z (r ∷ rs) =
    driver_entry (driver_info_of z r) ∷ (device_entries z r.selected_devices ++ entries z rs)

-- The entries lie one behind the other from an offset on.
unfoldable pub Stored : (ℕ → Option Entry) → ℕ → List Entry → Type 0
Stored memory at [] = Unit
Stored memory at (e ∷ es) = (memory at ≡ some e) × Stored memory (at + size_of e) es

-- The writes go one behind the other.
Chain : ℕ → List Write → Type 0
Chain at [] = Unit
Chain at (w ∷ ws) = (w.at ≡ at) × (1 ≤ size_of w.entry) × Chain (at + size_of w.entry) ws

end_of : ℕ → List Write → ℕ
end_of at [] = at
end_of at (w ∷ ws) = end_of (at + size_of w.entry) ws

Chain-append :
    (at : ℕ) (xs ys : List Write) → Chain at xs → Chain (end_of at xs) ys → Chain at (xs ++ ys)
unfolding Chain end_of
Chain-append at [] ys h k = k
Chain-append at (x ∷ xs) ys (e, n, h) k = (e, n, Chain-append (at + size_of x.entry) xs ys h k)

load-elsewhere : (w : Write) (ws : List Write) (x : ℕ) → w.at ≢ x → load (w ∷ ws) x ≡ load ws x
unfolding load
load-elsewhere w ws x ne = elim (Option-cases (load ws x)) [
  | inl e ↦ rw (e, if_false {b = w.at == x} (some w.entry) none (ground arith)) refl
  | inr (v, e) ↦ rw e refl
]

load-below : (at : ℕ) (ws : List Write) (x : ℕ) → Chain at ws → x < at → load ws x ≡ none
unfolding load Chain
load-below at [] x h l = refl
load-below at (w ∷ ws) x (e, n, h) l =
    load-elsewhere w ws x (λ same. omega arith)
    ∙ load-below (at + size_of w.entry) ws x h (omega arith)

load-head : (w : Write) (ws : List Write) → load ws w.at ≡ none → load (w ∷ ws) w.at ≡ some w.entry
unfolding load
load-head w ws e = rw (e, if_true (some w.entry) none ((==_iff w.at w.at).1 refl)) refl

-- What agrees with the writes from an offset on has their entries there.
Chain-Stored :
    (memory : ℕ → Option Entry) (at : ℕ) (ws : List Write)
    → Chain at ws
    → ((x : ℕ) → at ≤ x → memory x ≡ load ws x)
    → Stored memory at (map (λ w. w.entry) ws)
unfolding Chain Stored
Chain-Stored memory at [] h agrees = tt
Chain-Stored memory at (w ∷ ws) (e, n, h) agrees =
    let behind = at + size_of w.entry in
    let last : load ws w.at ≡ none = load-below behind ws w.at h (omega arith) in
    (
      agrees at (omega arith) ∙ subst (λ k. load (w ∷ ws) k ≡ some w.entry) e (load-head w ws last),
      Chain-Stored memory behind ws h
          (λ x l. agrees x (omega arith) ∙ load-elsewhere w ws x (λ same. omega arith)),
    )

fill_devices-Chain :
    (z : InfoSizes) (at : ℕ) (ds : List (ℕ × DeviceHook))
    → devices_total z ds < 2 ^ 32
    → Chain at (fill_devices z at ds).0
      × (end_of at (fill_devices z at ds).0 ≡ (fill_devices z at ds).1)
      × (map (λ w. w.entry) (fill_devices z at ds).0 ≡ device_entries z ds)
unfolding Chain end_of fill_devices devices_total requested device_info_of
fill_devices-Chain z at [] h = (tt, refl, refl)
fill_devices-Chain z at (d ∷ ds) h = elim (Bool-cases (is_user_request d.1.create_reason)) [
  | inl e ↦
      let n = device_bytes z d.1 in
      let fits : n + devices_total z ds < 2 ^ 32 =
        subst (λ b. let rest = devices_total z ds in (if b then n + rest else rest) < 2 ^ 32) e h in
      let (chain, end, same) = fill_devices-Chain z (at + wrap32 n) ds (omega arith) in
      rw e (
        (refl, omega (arith, wrap32-small n (omega arith)), chain),
        end,
        ap (◌∷◌ (device_entry (device_info_of z d))) same,
      )
  | inr e ↦
      let fits : devices_total z ds < 2 ^ 32 =
        subst
          (λ b.
            let rest = devices_total z ds in
            (if b then device_bytes z d.1 + rest else rest) < 2 ^ 32)
          e h in
      rw e (fill_devices-Chain z at ds fits)
]

-- Every driver has a device record, listed or not.
unfoldable pub HaveDevices : List ListedDriver → Type 0
HaveDevices rs = All (λ r. 1 ≤ length r.selected_devices) rs

next_driver_info-end :
    (at : ℕ) (ds : List (ℕ × DeviceHook)) (end : ℕ)
    → 1 ≤ length ds
    → next_driver_info at ds end ≡ end
unfolding next_driver_info
next_driver_info-end at [] end h = absurd (omega arith)
next_driver_info-end at (d ∷ ds) end h = refl

map-append {ℓ ℓ'} :
    {A : Type ℓ} {B : Type ℓ'} (f : A → B) (xs ys : List A)
    → map f (xs ++ ys) ≡ map f xs ++ map f ys
map-append f [] ys = refl
map-append f (x ∷ xs) ys = ap (◌∷◌ (f x)) (map-append f xs ys)

fill_drivers-Chain :
    (z : InfoSizes) (at : ℕ) (rs : List ListedDriver)
    → drivers_total z rs < 2 ^ 32
    → HaveDevices rs
    → Chain at (fill_drivers z at rs) × (map (λ w. w.entry) (fill_drivers z at rs) ≡ entries z rs)
unfolding Chain fill_drivers drivers_total HaveDevices All entries driver_info_of
fill_drivers-Chain z at [] h k = (tt, refl)
fill_drivers-Chain z at (r ∷ rs) h (some_device, k) =
    let n = driver_bytes z r in
    let devices = fill_devices z (at + wrap32 n) r.selected_devices in
    let (chain, end, same) =
      fill_devices-Chain z (at + wrap32 n) r.selected_devices (omega arith) in
    let (chain', same') = fill_drivers-Chain z devices.1 rs (omega arith) k in
    rw (next_driver_info-end at r.selected_devices devices.1 some_device) (
      (
        refl,
        omega (arith, wrap32-small n (omega arith)),
        Chain-append (at + wrap32 n) devices.0 (fill_drivers z devices.1 rs) chain
            (subst (λ o. Chain o (fill_drivers z devices.1 rs)) (sym end) chain'),
      ),
      ap (◌∷◌ (driver_entry (driver_info_of z r))) (
          map-append (λ w. w.entry) devices.0 (fill_drivers z devices.1 rs)
          ∙ (ap (λ es. es ++ map (λ w. w.entry) (fill_drivers z devices.1 rs)) same
              ∙ ap (◌++◌ (device_entries z r.selected_devices)) same')),
    )

-- The buffer has the entries of all drivers, one behind the other.
pub fill_drivers-Stored :
    (z : InfoSizes) (at : ℕ) (rs : List ListedDriver)
    → drivers_total z rs < 2 ^ 32
    → HaveDevices rs
    → Stored (load (fill_drivers z at rs)) at (entries z rs)
fill_drivers-Stored z at rs h k =
    let (chain, same) = fill_drivers-Chain z at rs h k in
    subst (Stored (load (fill_drivers z at rs)) at) same
      (Chain-Stored (load (fill_drivers z at rs)) at (fill_drivers z at rs) chain (λ x l. refl))

-- A buffer that is long enough is filled.
pub enumerate-fills :
    (z : InfoSizes) (rs : List ListedDriver) (len : ℕ)
    → z.objects_info + drivers_total z rs < 2 ^ 32
    → z.objects_info + drivers_total z rs ≤ len
    → (enumerate z rs len).2
      ≡ some record {
        number_of_hooked_drivers = wrap32 (length rs);
        number_of_hooked_devices = wrap32 (count_devices rs);
        writes = fill_drivers z z.objects_info rs;
      }
unfolding enumerate
enumerate-fills z rs len h enough =
    rw (required_drivers-total z z.objects_info rs h, le→leb _ len enough) refl
