-- ===== src/Hook/Enumerate/Overwritten.antt =====
-- What HookObjectsEnumerate does with a driver without device records.
use irpmon.Common.{ℕ, ◌^◌, ◌<◌, ◌≡◌, refl, List, [], ◌∷◌, some}
use irpmon.Hook.Enumerate.{
  InfoSizes, ListedDriver, Write, Entry, driver_entry, driver_bytes, driver_info_of, fill_devices,
  next_driver_info, fill_drivers, load,
}
use irpmon.Hook.Enumerate.Bounds.{drivers_total}
use irpmon.Hook.Enumerate.Layout.{entries, Stored, HaveDevices, fill_drivers-Stored}

load-later :
    (w : Write) (ws : List Write) (x : ℕ) (e : Entry)
    → load ws x ≡ some e
    → load (w ∷ ws) x ≡ some e
unfolding load
load-later w ws x e h = rw h refl

fill_drivers-without :
    (z : InfoSizes) (at : ℕ) (r : ListedDriver) (rs : List ListedDriver)
    → r.selected_devices ≡ []
    → fill_drivers z at (r ∷ rs)
      ≡ record { at = at; bytes = driver_bytes z r; entry = driver_entry (driver_info_of z r) }
        ∷ fill_drivers z at rs
unfolding fill_drivers fill_devices next_driver_info
fill_drivers-without z at r rs e = rw e refl

-- When a driver without any device record is listed before a driver with one, the second driver's
-- record overwrites the first's: afterwards it is what stands at the offset where the first was
-- written. The records of the drivers behind the first take less than 4 GiB, and each of these
-- drivers has a device record.
pub fill_drivers-overwrites :
    (z : InfoSizes) (at : ℕ) (r r' : ListedDriver) (rs : List ListedDriver)
    → r.selected_devices ≡ []
    → HaveDevices (r' ∷ rs)
    → drivers_total z (r' ∷ rs) < 2 ^ 32
    → load (fill_drivers z at (r ∷ r' ∷ rs)) at ≡ some (driver_entry (driver_info_of z r'))
unfolding Stored entries
fill_drivers-overwrites z at r r' rs e have fits =
    let (there, behind) = fill_drivers-Stored z at (r' ∷ rs) fits have in
    rw (fill_drivers-without z at r (r' ∷ rs) e)
      (load-later _ (fill_drivers z at (r' ∷ rs)) at (driver_entry (driver_info_of z r')) there)
