-- ===== src/Hook/Enumerate/Bounds.antt =====
-- The writes of HookObjectsEnumerate against the length that it asks for.
use irpmon.Common.{
  ℕ, ◌+◌, ◌^◌, ◌≤◌, ◌<◌, ◌≡◌, refl, ◌∙◌, subst, List, [], ◌∷◌, Option, none, some, if◌then◌else◌,
  leb, leb→le, All, All-append, All-map, Bool-cases, inl, inr, arith,
}
use irpmon.Kernel.{Status, success, buffer_too_small}
use irpmon.Hook.{is_user_request, DeviceHook}
use irpmon.Hook.Enumerate.{
  InfoSizes, ListedDriver, Write, Output, wrap32, device_bytes, driver_bytes, required_devices,
  required_drivers, device_info_of, driver_info_of, fill_devices, next_driver_info, fill_drivers,
  enumerate,
}

-- The bytes of the records, counted without wrap-around.
unfoldable pub devices_total : InfoSizes → List (ℕ × DeviceHook) → ℕ
devices_total z [] = 0
devices_total z (d ∷ ds) =
    let rest = devices_total z ds in
    if is_user_request d.1.create_reason then device_bytes z d.1 + rest else rest

unfoldable pub drivers_total : InfoSizes → List ListedDriver → ℕ
drivers_total z [] = 0
drivers_total z (r ∷ rs) =
    driver_bytes z r + devices_total z r.selected_devices + drivers_total z rs

pub wrap32-small : (n : ℕ) → n < 2 ^ 32 → wrap32 n ≡ n
wrap32-small n h = omega arith

required_devices-total :
    (z : InfoSizes) (acc : ℕ) (ds : List (ℕ × DeviceHook))
    → acc + devices_total z ds < 2 ^ 32
    → required_devices z acc ds ≡ acc + devices_total z ds
unfolding required_devices devices_total
required_devices-total z acc [] h = omega arith
required_devices-total z acc (d ∷ ds) h = elim (Bool-cases (is_user_request d.1.create_reason)) [
  | inl e ↦
      let fits : acc + (device_bytes z d.1 + devices_total z ds) < 2 ^ 32 =
        subst
          (λ b.
            let rest = devices_total z ds in
            acc + (if b then device_bytes z d.1 + rest else rest) < 2 ^ 32)
          e h in
      rw (e, wrap32-small (acc + device_bytes z d.1) (omega arith))
        (required_devices-total z (acc + device_bytes z d.1) ds (omega arith) ∙ omega arith)
  | inr e ↦
      let fits : acc + devices_total z ds < 2 ^ 32 =
        subst
          (λ b.
            let rest = devices_total z ds in
            acc + (if b then device_bytes z d.1 + rest else rest) < 2 ^ 32)
          e h in
      rw e (required_devices-total z acc ds fits)
]

pub required_drivers-total :
    (z : InfoSizes) (acc : ℕ) (rs : List ListedDriver)
    → acc + drivers_total z rs < 2 ^ 32
    → required_drivers z acc rs ≡ acc + drivers_total z rs
unfolding required_drivers drivers_total
required_drivers-total z acc [] h = omega arith
required_drivers-total z acc (r ∷ rs) h =
    let here = acc + driver_bytes z r in
    rw
      (
        wrap32-small here (omega arith),
        required_devices-total z here r.selected_devices (omega arith),
      )
      (required_drivers-total z (here + devices_total z r.selected_devices) rs (omega arith)
        ∙ omega arith)

-- A write between two offsets.
pub Within : ℕ → ℕ → Write → Type 0
Within low high w = (low ≤ w.at) × (w.at + w.bytes ≤ high)

Within-weaken :
    (low high low' high' : ℕ) (ws : List Write)
    → low' ≤ low
    → high ≤ high'
    → All (Within low high) ws
    → All (Within low' high') ws
unfolding Within
Within-weaken low high low' high' ws h k =
    All-map (Within low high) (Within low' high') (λ w (a, b). (omega arith, omega arith)) ws

-- The devices of a driver are written within their total, from the offset at which they start,
-- and leave the pointer within it.
fill_devices-Within :
    (z : InfoSizes) (at : ℕ) (ds : List (ℕ × DeviceHook))
    → devices_total z ds < 2 ^ 32
    → All (Within at (at + devices_total z ds)) (fill_devices z at ds).0
      × ((fill_devices z at ds).1 ≡ at + devices_total z ds)
unfolding fill_devices devices_total All Within device_info_of
fill_devices-Within z at [] h = (tt, omega arith)
fill_devices-Within z at (d ∷ ds) h = elim (Bool-cases (is_user_request d.1.create_reason)) [
  | inl e ↦
      let n = device_bytes z d.1 in
      let fits : n + devices_total z ds < 2 ^ 32 =
        subst (λ b. let rest = devices_total z ds in (if b then n + rest else rest) < 2 ^ 32) e h in
      let (within, end) = fill_devices-Within z (at + n) ds (omega arith) in
      rw (e, wrap32-small n (omega arith))
        (
          (
            (omega arith, omega arith),
            Within-weaken (at + n) (at + n + devices_total z ds) at (at + (n + devices_total z ds))
                (fill_devices z (at + n) ds).0 (omega arith) (omega arith) within,
          ),
          end ∙ omega arith,
        )
  | inr e ↦
      let fits : devices_total z ds < 2 ^ 32 =
        subst
          (λ b.
            let rest = devices_total z ds in
            (if b then device_bytes z d.1 + rest else rest) < 2 ^ 32)
          e h in
      rw e (fill_devices-Within z at ds fits)
]

next_driver_info-bound :
    (at : ℕ) (ds : List (ℕ × DeviceHook)) (end : ℕ)
    → at ≤ end
    → (at ≤ next_driver_info at ds end) × (next_driver_info at ds end ≤ end)
unfolding next_driver_info
next_driver_info-bound at [] end h = (omega arith, h)
next_driver_info-bound at (d ∷ ds) end h = (h, omega arith)

fill_drivers-Within :
    (z : InfoSizes) (at : ℕ) (rs : List ListedDriver)
    → drivers_total z rs < 2 ^ 32
    → All (Within at (at + drivers_total z rs)) (fill_drivers z at rs)
unfolding fill_drivers drivers_total All Within driver_info_of
fill_drivers-Within z at [] h = tt
fill_drivers-Within z at (r ∷ rs) h =
    let n = driver_bytes z r in
    let high = at + (n + devices_total z r.selected_devices + drivers_total z rs) in
    let devices = fill_devices z (at + n) r.selected_devices in
    let next = next_driver_info at r.selected_devices devices.1 in
    let (within, end) = fill_devices-Within z (at + n) r.selected_devices (omega arith) in
    let (above, below) =
      next_driver_info-bound at r.selected_devices devices.1 (rw end (omega arith)) in
    let below' : next ≤ at + n + devices_total z r.selected_devices =
      subst (λ k. next ≤ k) end below in
    rw (wrap32-small n (omega arith)) (
      (omega arith, omega arith),
      All-append (Within at high) devices.0 (fill_drivers z next rs)
          (Within-weaken (at + n) (at + n + devices_total z r.selected_devices) at high devices.0
            (omega arith) (omega arith) within)
          (Within-weaken next (next + drivers_total z rs) at high (fill_drivers z next rs) above
            (omega arith) (fill_drivers-Within z next rs (omega arith))),
    )

-- What HookObjectsEnumerate answers for a caller's buffer: it is filled only within its length.
pub Answered : InfoSizes → List ListedDriver → ℕ → Status × ℕ × Option Output → Type 0
Answered z rs len (status, required, none) =
    (status ≡ buffer_too_small)
    × (required ≡ z.objects_info + drivers_total z rs)
    × (len < required)
Answered z rs len (status, required, some out) =
    (status ≡ success)
    × (required ≡ z.objects_info + drivers_total z rs)
    × (required ≤ len)
    × All (Within z.objects_info len) out.writes

-- When the records of all drivers and listed devices take less than 4 GiB, HookObjectsEnumerate
-- answers with exactly their length. A buffer of that length is filled, and every record is
-- written behind the header and within the buffer; a shorter one is refused as too small.
pub enumerate-Answered :
    (z : InfoSizes) (rs : List ListedDriver) (len : ℕ)
    → z.objects_info + drivers_total z rs < 2 ^ 32
    → Answered z rs len (enumerate z rs len)
unfolding enumerate Answered
enumerate-Answered z rs len h =
    let exact = required_drivers-total z z.objects_info rs h in
    rw exact (elim (Bool-cases (leb (z.objects_info + drivers_total z rs) len)) [
      | inl e ↦
          let enough = leb→le _ _ e in
          rw e (
            refl,
            refl,
            enough,
            Within-weaken z.objects_info (z.objects_info + drivers_total z rs) z.objects_info len
                (fill_drivers z z.objects_info rs) (omega arith) enough
                (fill_drivers-Within z z.objects_info rs (omega arith)),
          )
      | inr e ↦ rw e (refl, refl, ground arith)
    ])
