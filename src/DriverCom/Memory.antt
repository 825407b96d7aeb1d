-- ===== src/DriverCom/Memory.antt =====
-- The blocks that DriverComHookedObjectsEnumerate and DriverComHookedObjectsFree allocate and free.
use irpmon.Common.{
  ℕ, ◌+◌, ◌-◌, ◌^◌, ◌≤◌, ◌<◌, ◌≡◌, ◌≢◌, Bool, false, map, ◌∙◌, List, [], some, if_false, length,
  ◌==◌, Bool-cases, inl, inr, arith,
}
use irpmon.Kernel.{Pool, Block, array, hooked_driver_uminfo, pool_free, live-pool_free}
use irpmon.Hook.Enumerate.{InfoSizes, ListedDriver, Output, load, enumerate}
use irpmon.Hook.Enumerate.Bounds.{drivers_total}
use irpmon.Hook.Enumerate.Layout.{HaveDevices, enumerate-fills}
use irpmon.DriverCom.Snapshot.{Gives, filled, seen_driver}
use irpmon.DriverCom.{
  UserDriver, Read, parsed, failed, garbled, astray, free_objects, hooked_objects_enumerate,
  hooked_objects_free,
}
use irpmon.DriverCom.Blocks.{
  Ends, read_then-Ends, on_failure-Ends, Ends-map, pool_free-back, Exactly, allocate_last-Ends,
  drivers_blocks, AllWhole, parse_drivers-Ends, free_drivers-back,
}

-- Freeing a result, or having failed, leaves so many live blocks.
pub Released : ℕ → Read (List UserDriver) → Type 0
Released n (parsed us p) = (hooked_objects_free us p).live ≡ n
Released n (failed p) = p.live ≡ n
Released n garbled = ⊥
Released n astray = ⊥

abbrev Result : ℕ → ℕ → List UserDriver → ℕ → Type 0
Result n k us live = (live ≡ n + 1 + (1 + drivers_blocks us)) × (length us ≡ k)

-- The same of a run that may be garbled.
FreesRead : ℕ → Read (List UserDriver) → Type 0
FreesRead n (parsed us p) = (hooked_objects_free us p).live ≡ n
FreesRead n (failed p) = p.live ≡ n
FreesRead n garbled = Unit
FreesRead n astray = ⊥

whole-Released :
    (g : ℕ → Block → Bool) (vs : List UserDriver) (n : ℕ) (r : Read (List UserDriver))
    → Gives g vs r
    → FreesRead n r
    → Released n r
unfolding Gives Released FreesRead
whole-Released g vs n (parsed us p) given h = h
whole-Released g vs n (failed p) given h = h
whole-Released g vs n garbled given h = given
whole-Released g vs n astray given h = h

free_objects-FreesRead :
    (n k : ℕ) (r : Read (List UserDriver))
    → 1 ≤ k
    → Ends (Result n k) (n + 1) r
    → FreesRead n (free_objects r)
unfolding Ends FreesRead free_objects hooked_objects_free
free_objects-FreesRead n k (parsed us p) h (e, l) =
    rw (if_false {b = length us == 0} _ _ (ground arith)) (
      pool_free-back n _
        (free_drivers-back us (n + 1) (pool_free p) (omega (arith, live-pool_free p))))
free_objects-FreesRead n k (failed p) h e = pool_free-back n p e
free_objects-FreesRead n k garbled h e = tt
free_objects-FreesRead n k astray h e = e

nothing-FreesRead : (p : Pool) → FreesRead (p.live - 1) (free_objects (parsed [] p))
unfolding FreesRead free_objects hooked_objects_free
nothing-FreesRead p = live-pool_free p

hooked_objects-FreesRead :
    (last header : ℕ) (out : Output) (p : Pool)
    → (last == 0) ≡ false
    → 1 ≤ p.live
    → FreesRead (p.live - 1) (hooked_objects_enumerate last header (some out) p)
unfolding hooked_objects_enumerate
hooked_objects-FreesRead last header out p err h =
    let n = out.number_of_hooked_drivers in
    let start = p.live - 1 + 1 in
    elim (Bool-cases (n == 0)) [
      | inl e ↦ rw e (nothing-FreesRead p)
      | inr e ↦ rw e (
          free_objects-FreesRead (p.live - 1) n _ (ground arith) (
            read_then-Ends (Exactly (start + 1)) (Result (p.live - 1) n) start _ _
              (allocate_last-Ends last err (array n hooked_driver_uminfo) start p (omega arith))
              (λ u p1 h1.
                on_failure-Ends (Result (p.live - 1) n) (start + 1) start pool_free _
                  (pool_free-back start)
                  (Ends-map (AllWhole (start + 1) n) (Result (p.live - 1) n) (start + 1) _
                    (λ us live (e, l). (e ∙ omega arith, l))
                    (parse_drivers-Ends last err (load out.writes) n header (start + 1) p1 h1)))))
    ]

-- DriverComHookedObjectsEnumerate on what HookObjectsEnumerate wrote into a buffer that is long
-- enough, as for hooked_objects-Gives, in a heap that refuses any allocations, for a thread whose last
-- error is not ERROR_SUCCESS: every read finds the record that it expects; when it fails, the block with
-- the driver's answer and every block that it allocated are free again; and when it succeeds,
-- they are once DriverComHookedObjectsFree has freed the result.
pub hooked_objects-Released :
    (last : ℕ) (z : InfoSizes) (rs : List ListedDriver) (len : ℕ) (p : Pool)
    → last ≢ 0
    → z.objects_info + drivers_total z rs < 2 ^ 32
    → z.objects_info + drivers_total z rs ≤ len
    → HaveDevices rs
    → 1 ≤ p.live
    → Released (p.live - 1) (hooked_objects_enumerate last z.objects_info (enumerate z rs len).2 p)
hooked_objects-Released last z rs len p err fits enough have h =
    let code : (last == 0) ≡ false = ground (arith, err) in
    rw (enumerate-fills z rs len fits enough) (
      whole-Released p.grants (map seen_driver rs) (p.live - 1) _ (filled last z rs p fits have)
        (hooked_objects-FreesRead last z.objects_info _ p code h))
