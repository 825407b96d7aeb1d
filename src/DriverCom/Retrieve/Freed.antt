-- ===== src/DriverCom/Retrieve/Freed.antt =====
-- Which blocks are left of DriverComSnapshotRetrieve and DriverComSnapshotFree.
use irpmon.Common.{
  ℕ, zero, suc, ◌+◌, ◌-◌, ◌*◌, ◌^◌, ◌≤◌, ◌<◌, ◌≡◌, ◌≢◌, ◌==◌, ap, ◌∙◌, List, [], ◌∷◌, map, some,
  Bool, true, false, length, leb, le→leb, arith,
}
use irpmon.Kernel as Kernel
use irpmon.Kernel.{Pool, Block, array, with_tail, irpmon_driver_info, pool_free, live-pool_free}
use irpmon.UmServices.Snapshot.{
  Field, DriverEntry, write_drivers, bytes_of, add_drivers, add_drivers-bytes, enum_drivers_devices,
}
use irpmon.DriverCom.Snapshot.{Gives}
use irpmon.DriverCom.Retrieve.Whole.{found_driver, snapshot_retrieve-Gives}
use irpmon.DriverCom.{Read, parsed, failed, garbled, astray, free_objects}
use irpmon.DriverCom.Retrieve.{
  FoundDevice, FoundDriver, retrieve_devices, retrieve_driver, free_found_devices,
  free_found_driver, retrieve_drivers, snapshot_retrieve, free_found_drivers, snapshot_free,
}
use irpmon.DriverCom.Retrieve.Leak.{
  Leaves, nothing, allocate_last-Leaves, read_then-Leaves, on_failure-Leaves, pointer-Leaves,
  ulong-Leaves, text-Leaves, allocate-Leaves, retrieve_device-Leaves,
}

device_blocks : List FoundDevice × List Field → ℕ
device_blocks r = length r.0

driver_blocks : FoundDriver × List Field → ℕ
driver_blocks r = 1 + length r.0.devices

drivers_blocks : List FoundDriver → ℕ
drivers_blocks [] = 0
drivers_blocks (d ∷ ds) = 1 + length d.devices + drivers_blocks ds

free_one : (p : Pool) → 1 ≤ p.live → (pool_free p).live + 1 ≡ p.live
free_one p h = omega (arith, live-pool_free p)

-- All devices are freed when one of them is refused.
retrieve_devices-Leaves :
    (n : ℕ) (fs : List Field) (s : ℕ) (p : Pool)
    → p.live ≡ s
    → Leaves device_blocks s s 0 (retrieve_devices n fs p)
unfolding retrieve_devices Leaves device_blocks
retrieve_devices-Leaves zero fs s p h = omega arith
retrieve_devices-Leaves (suc n) fs s p h =
    read_then-Leaves nothing (s + 1) device_blocks s s 0 0 _ _ (omega arith)
      (retrieve_device-Leaves fs s p h)
      (λ d p1 h1. on_failure-Leaves device_blocks s s 0 1 pool_free _ free_one (
        read_then-Leaves device_blocks (s + 1) device_blocks s (s + 1) 0 0 _ _ (omega arith)
          (retrieve_devices-Leaves n d.1 (s + 1) p1 (omega arith)) (λ rest p2 h2. omega arith)))

-- A driver whose devices fail may leave its own block.
retrieve_driver-Leaves :
    (w : ℕ) (fs : List Field) (s : ℕ) (p : Pool)
    → p.live ≡ s
    → Leaves driver_blocks s s 1 (retrieve_driver w fs p)
unfolding retrieve_driver Leaves driver_blocks device_blocks
retrieve_driver-Leaves w fs s p h =
    read_then-Leaves nothing s driver_blocks s s 0 1 _ _ (omega arith) (pointer-Leaves fs s p h)
      (λ o p1 h1.
        read_then-Leaves nothing s driver_blocks s s 0 1 _ _ (omega arith)
          (ulong-Leaves o.1 s p1 (omega arith))
          (λ c p2 h2.
            read_then-Leaves nothing s driver_blocks s s 0 1 _ _ (omega arith)
              (ulong-Leaves c.1 s p2 (omega arith))
              (λ n p3 h3.
                read_then-Leaves nothing s driver_blocks s s 0 1 _ _ (omega arith)
                  (text-Leaves n.0 n.1 s p3 (omega arith))
                  (λ t p4 h4.
                    read_then-Leaves nothing (s + 1) driver_blocks s s 0 1 _ _ (omega arith)
                      (allocate-Leaves (with_tail irpmon_driver_info (n.0 + 2 + c.0 * w)) s p4
                        (omega arith))
                      (λ u p5 h5.
                        read_then-Leaves device_blocks (s + 1) driver_blocks s s 1 1 _ _
                          (omega arith)
                          (one_left _ (retrieve_devices-Leaves c.0 t.1 (s + 1) p5 (omega arith)))
                          (λ ds p6 h6. omega arith))))))
  where
    one_left :
        (r : Read (List FoundDevice × List Field))
        → Leaves device_blocks (s + 1) (s + 1) 0 r
        → Leaves device_blocks (s + 1) s 1 r
    one_left (parsed a p) h = h
    one_left (failed p) (low, high) = (omega arith, omega arith)
    one_left garbled h = tt
    one_left astray h = h

free_found_devices-live :
    (ds : List FoundDevice) (p : Pool)
    → length ds ≤ p.live
    → (free_found_devices ds p).live + length ds ≡ p.live
unfolding free_found_devices
free_found_devices-live [] p h = omega arith
free_found_devices-live (d ∷ ds) p h =
    let one = live-pool_free p in
    let rest = free_found_devices-live ds (pool_free p) (omega arith) in omega arith

free_found_driver-live :
    (d : FoundDriver) (p : Pool)
    → 1 + length d.devices ≤ p.live
    → (free_found_driver d p).live + (1 + length d.devices) ≡ p.live
unfolding free_found_driver
free_found_driver-live d p h =
    let devices = free_found_devices-live d.devices p (omega arith) in
    let own = live-pool_free (free_found_devices d.devices p) in omega arith

free_found_drivers-live :
    (ds : List FoundDriver) (p : Pool)
    → drivers_blocks ds ≤ p.live
    → (free_found_drivers ds p).live + drivers_blocks ds ≡ p.live
unfolding free_found_drivers drivers_blocks
free_found_drivers-live [] p h = omega arith
free_found_drivers-live (d ∷ ds) p h =
    let first = free_found_driver-live d p (omega arith) in
    let rest = free_found_drivers-live ds (free_found_driver d p) (omega arith) in omega arith

retrieve_drivers-Leaves :
    (w n : ℕ) (fs : List Field) (s : ℕ) (p : Pool)
    → p.live ≡ s
    → Leaves drivers_blocks s s 1 (retrieve_drivers w n fs p)
unfolding retrieve_drivers Leaves drivers_blocks driver_blocks
retrieve_drivers-Leaves w zero fs s p h = omega arith
retrieve_drivers-Leaves w (suc n) fs s p h =
    read_then-Leaves driver_blocks s drivers_blocks s s 1 1 _ _ (omega arith)
      (retrieve_driver-Leaves w fs s p h)
      (λ d p1 h1.
        let mine = 1 + length d.0.devices in
        on_failure-Leaves drivers_blocks s s 1 mine (free_found_driver d.0) _
          (free_found_driver-live d.0)
          (read_then-Leaves drivers_blocks (s + mine) drivers_blocks s (s + mine) 1 1 _ _
            (omega arith) (retrieve_drivers-Leaves w n d.1 (s + mine) p1 h1)
            (λ rest p2 h2. omega arith)))

-- Freeing a result leaves `n` blocks; a failure leaves as many, or one more.
pub NearlyFreed : ℕ → Read (List FoundDriver) → Type 0
NearlyFreed n (parsed ds p) = (snapshot_free ds p).live ≡ n
NearlyFreed n (failed p) = (n ≤ p.live) × (p.live ≤ n + 1)
NearlyFreed n garbled = ⊥
NearlyFreed n astray = ⊥

-- The same of a run that may be garbled.
FreesRead : ℕ → Read (List FoundDriver) → Type 0
FreesRead n (parsed ds p) = (snapshot_free ds p).live ≡ n
FreesRead n (failed p) = (n ≤ p.live) × (p.live ≤ n + 1)
FreesRead n garbled = Unit
FreesRead n astray = ⊥

whole-NearlyFreed :
    (g : ℕ → Block → Bool) (vs : List FoundDriver) (n : ℕ) (r : Read (List FoundDriver))
    → Gives g vs r
    → FreesRead n r
    → NearlyFreed n r
unfolding Gives NearlyFreed FreesRead
whole-NearlyFreed g vs n (parsed ds p) given h = h
whole-NearlyFreed g vs n (failed p) given h = h
whole-NearlyFreed g vs n garbled given h = given
whole-NearlyFreed g vs n astray given h = h

free_objects-FreesRead :
    (n : ℕ) (r : Read (List FoundDriver))
    → Leaves (λ ds. 1 + drivers_blocks ds) (n + 1) (n + 1) 1 r
    → FreesRead n (free_objects r)
unfolding Leaves FreesRead free_objects snapshot_free
free_objects-FreesRead n (parsed ds p) h =
    let output = live-pool_free p in
    let drivers = free_found_drivers-live ds (pool_free p) (omega arith) in
    let last = live-pool_free (free_found_drivers ds (pool_free p)) in omega arith
free_objects-FreesRead n (failed p) (low, high) =
    let output = live-pool_free p in (omega arith, omega arith)
free_objects-FreesRead n garbled h = tt
free_objects-FreesRead n astray h = h

one_array :
    (s : ℕ) (r : Read (List FoundDriver))
    → Leaves drivers_blocks (s + 1) (s + 1) 1 r
    → Leaves (λ ds. 1 + drivers_blocks ds) s (s + 1) 1 r
unfolding Leaves
one_array s (parsed a p) h = omega arith
one_array s (failed p) h = h
one_array s garbled h = tt
one_array s astray h = h

snapshot_retrieve-FreesRead :
    (last w : ℕ) (fs : List Field) (p : Pool)
    → (last == 0) ≡ false
    → 1 ≤ p.live
    → FreesRead (p.live - 1) (snapshot_retrieve last w (some fs) p)
unfolding snapshot_retrieve Leaves
snapshot_retrieve-FreesRead last w fs p err h =
    let s = p.live - 1 + 1 in
    let cost : List FoundDriver → ℕ = λ ds. 1 + drivers_blocks ds in
    free_objects-FreesRead (p.live - 1) _ (
      read_then-Leaves nothing s cost s s 0 1 _ _ (omega arith) (ulong-Leaves fs s p (omega arith))
        (λ c p1 h1.
          read_then-Leaves nothing (s + 1) cost s s 0 1 _ _ (omega arith)
            (allocate_last-Leaves last (array c.0 Kernel.pointer) s p1 err (omega arith))
            (λ u p2 h2.
              on_failure-Leaves cost s s 1 1 pool_free _ free_one
                (one_array s _ (retrieve_drivers-Leaves w c.0 c.1 (s + 1) p2 (omega arith))))))

-- DriverComSnapshotRetrieve on what UMEnumDriversDevices wrote into a buffer that is long enough, as
-- for snapshot_retrieve-Gives, in a heap that refuses any allocations, for a thread whose last error
-- is not ERROR_SUCCESS: every read finds the field that it expects; its result is freed by
-- DriverComSnapshotFree without rest, together with the block of the driver's answer; when it
-- fails, it leaves at most one block of its own.
pub snapshot_retrieve-NearlyFreed :
    (last w len : ℕ) (rs : List DriverEntry) (p : Pool)
    → last ≢ 0
    → 4 + bytes_of w (write_drivers rs) < 2 ^ 32
    → 4 + bytes_of w (write_drivers rs) ≤ len
    → 1 ≤ p.live
    → NearlyFreed (p.live - 1) (snapshot_retrieve last w (enum_drivers_devices w len rs).2 p)
unfolding enum_drivers_devices
snapshot_retrieve-NearlyFreed last w len rs p err fits enough h =
    let code : (last == 0) ≡ false = ground (arith, err) in
    let given = snapshot_retrieve-Gives last w len rs p fits enough in
    let fills : leb (add_drivers w 4 rs) len ≡ true =
      ap (λ n. leb n len) (add_drivers-bytes w 4 rs fits) ∙ le→leb _ len enough in
    whole-NearlyFreed p.grants (map found_driver rs) (p.live - 1) _ given
      (rw fills (snapshot_retrieve-FreesRead last w _ p code h))
