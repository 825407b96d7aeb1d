-- ===== src/DriverCom/Blocks.antt =====
-- The blocks in the heap through the parts of DriverComHookedObjectsEnumerate and
-- DriverComHookedObjectsFree.
use irpmon.Common.{
  ℕ, zero, suc, ◌+◌, ◌≡◌, false, refl, sym, ap, ◌∙◌, List, [], ◌∷◌, Option, none, some,
  if◌then◌else◌, length, ◌==◌, Bool-cases, inl, inr, arith, subst,
}
use irpmon.Kernel.{
  Pool, Block, bytes, array, hooked_device_uminfo, pool_free, pool_alloc_cases, live-pool_free,
}
use irpmon.Hook.Enumerate.{Entry, driver_entry, device_entry}
use irpmon.DriverCom.{
  UserDevice, UserDriver, Read, parsed, failed, garbled, astray, read_then, on_failure,
  allocate_last, driver_at, device_at, user_driver, parse_devices, allocate_devices,
  free_devices_array, parse_driver, free_device_names, free_driver, parse_drivers, free_drivers,
}

-- A result has the right number of live blocks, and a failure leaves `back`.
unfoldable pub Ends {ℓ} : {A : Type ℓ} → (A → ℕ → Type 0) → ℕ → Read A → Type 0
Ends Q back (parsed a p) = Q a p.live
Ends Q back (failed p) = p.live ≡ back
Ends Q back garbled = Unit
Ends Q back astray = ⊥

pub read_then-Ends {ℓ ℓ'} :
    {A : Type ℓ} {B : Type ℓ'} (Q : A → ℕ → Type 0) (Q' : B → ℕ → Type 0) (back : ℕ) (r : Read A)
    (f : A → Pool → Read B)
    → Ends Q back r
    → ((a : A) (p : Pool) → Q a p.live → Ends Q' back (f a p))
    → Ends Q' back (read_then r f)
unfolding Ends read_then
read_then-Ends Q Q' back (parsed a p) f h k = k a p h
read_then-Ends Q Q' back (failed p) f h k = h
read_then-Ends Q Q' back garbled f h k = tt
read_then-Ends Q Q' back astray f h k = h

pub on_failure-Ends {ℓ} :
    {A : Type ℓ} (Q : A → ℕ → Type 0) (back back' : ℕ) (undo : Pool → Pool) (r : Read A)
    → ((p : Pool) → p.live ≡ back → (undo p).live ≡ back')
    → Ends Q back r
    → Ends Q back' (on_failure undo r)
unfolding Ends on_failure
on_failure-Ends Q back back' undo (parsed a p) k h = h
on_failure-Ends Q back back' undo (failed p) k h = k p h
on_failure-Ends Q back back' undo garbled k h = tt
on_failure-Ends Q back back' undo astray k h = h

pub Ends-map {ℓ} :
    {A : Type ℓ} (Q Q' : A → ℕ → Type 0) (back : ℕ) (r : Read A)
    → ((a : A) (live : ℕ) → Q a live → Q' a live)
    → Ends Q back r
    → Ends Q' back r
unfolding Ends
Ends-map Q Q' back (parsed a p) k h = k a p.live h
Ends-map Q Q' back (failed p) k h = h
Ends-map Q Q' back garbled k h = tt
Ends-map Q Q' back astray k h = h

pub pool_free-back : (back : ℕ) (p : Pool) → p.live ≡ back + 1 → (pool_free p).live ≡ back
pool_free-back back p h = omega (arith, live-pool_free p)

abbrev pub Exactly {ℓ} : {A : Type ℓ} → ℕ → A → ℕ → Type 0
Exactly n a live = live ≡ n

pub allocate_last-Ends :
    (last : ℕ) (err : (last == 0) ≡ false) (b : Block) (start : ℕ) (p : Pool)
    → p.live ≡ start
    → Ends (Exactly (start + 1)) start (allocate_last last b p)
unfolding Ends allocate_last
allocate_last-Ends last err b start p h = elim (pool_alloc_cases b p) [
  | inl (e, n) ↦ rw e (n ∙ omega arith)
  | inr (e, n) ↦ rw (e, err) (n ∙ h)
]

driver_at-Ends :
    (o : Option Entry) (start : ℕ) (p : Pool)
    → p.live ≡ start
    → Ends (Exactly start) start (driver_at o p)
unfolding Ends driver_at
driver_at-Ends none start p h = tt
driver_at-Ends (some (driver_entry i)) start p h = h
driver_at-Ends (some (device_entry i)) start p h = tt

device_at-Ends :
    (o : Option Entry) (start : ℕ) (p : Pool)
    → p.live ≡ start
    → Ends (Exactly start) start (device_at o p)
unfolding Ends device_at
device_at-Ends none start p h = tt
device_at-Ends (some (device_entry i)) start p h = h
device_at-Ends (some (driver_entry i)) start p h = tt

-- So many devices, each with a block for its name.
abbrev Named : ℕ → ℕ → List UserDevice × ℕ → ℕ → Type 0
Named start n r live = (live ≡ start + n) × (length r.0 ≡ n)

parse_devices-Ends :
    (last : ℕ) (err : (last == 0) ≡ false) (memory : ℕ → Option Entry) (n at start : ℕ) (p : Pool)
    → p.live ≡ start
    → Ends (Named start n) start (parse_devices last memory n at p)
unfolding Ends parse_devices
parse_devices-Ends last err memory zero at start p h = (omega arith, refl)
parse_devices-Ends last err memory (suc n) at start p h =
    read_then-Ends (Exactly start) (Named start (suc n)) start _ _
      (device_at-Ends (memory at) start p h)
      (λ e p1 h1.
        read_then-Ends (Exactly (start + 1)) (Named start (suc n)) start _ _
          (allocate_last-Ends last err (bytes e.device_name_len) start p1 h1)
          (λ u p2 h2.
            on_failure-Ends (Named start (suc n)) (start + 1) start pool_free _
              (pool_free-back start)
              (read_then-Ends (Named (start + 1) n) (Named start (suc n)) (start + 1) _ _
                (parse_devices-Ends last err memory n (at + e.entry_size) (start + 1) p2 h2)
                (λ rest p3 h3. (omega (arith, h3.0), ap suc h3.1)))))

-- The blocks of the array of devices, and of a driver.
abbrev array_blocks : ℕ → ℕ
array_blocks n = if n == 0 then 0 else 1

abbrev driver_blocks : UserDriver → ℕ
driver_blocks u = 1 + array_blocks (length u.hooked_devices) + length u.hooked_devices

allocate_devices-Ends :
    (last : ℕ) (err : (last == 0) ≡ false) (n start : ℕ) (p : Pool)
    → p.live ≡ start
    → Ends (Exactly (start + array_blocks n)) start (allocate_devices last n p)
unfolding Ends allocate_devices
allocate_devices-Ends last err n start p h = elim (Bool-cases (n == 0)) [
  | inl e ↦ rw e (omega arith)
  | inr e ↦ rw e (allocate_last-Ends last err (array n hooked_device_uminfo) start p h)
]

free_devices_array-back :
    (n back : ℕ) (p : Pool) → p.live ≡ back + array_blocks n → (free_devices_array n p).live ≡ back
unfolding free_devices_array
free_devices_array-back n back p h = elim (Bool-cases (n == 0)) [
  | inl e ↦ rw e (subst (λ b. p.live ≡ back + (if b then 0 else 1)) e h ∙ omega arith)
  | inr e ↦ rw e (pool_free-back back p (subst (λ b. p.live ≡ back + (if b then 0 else 1)) e h))
]

abbrev Whole : ℕ → UserDriver × ℕ → ℕ → Type 0
Whole start d live = live ≡ start + driver_blocks d.0

parse_driver-Ends :
    (last : ℕ) (err : (last == 0) ≡ false) (memory : ℕ → Option Entry) (at start : ℕ) (p : Pool)
    → p.live ≡ start
    → Ends (Whole start) start (parse_driver last memory at p)
unfolding Ends parse_driver user_driver
parse_driver-Ends last err memory at start p h =
    read_then-Ends (Exactly start) (Whole start) start _ _ (driver_at-Ends (memory at) start p h)
      (λ e p1 h1.
        let n = e.number_of_hooked_devices in
        let named = start + 1 + array_blocks n in
        read_then-Ends (Exactly (start + 1)) (Whole start) start _ _
          (allocate_last-Ends last err (bytes e.driver_name_len) start p1 h1)
          (λ u p2 h2.
            on_failure-Ends (Whole start) (start + 1) start pool_free _ (pool_free-back start) (
              read_then-Ends (Exactly named) (Whole start) (start + 1) _ _
                (allocate_devices-Ends last err n (start + 1) p2 h2)
                (λ u' p3 h3.
                  on_failure-Ends (Whole start) named (start + 1) (free_devices_array n) _
                    (free_devices_array-back n (start + 1))
                    (read_then-Ends (Named named n) (Whole start) named _ _
                      (parse_devices-Ends last err memory n (at + e.entry_size) named p3 h3)
                      (λ ds p4 h4.
                        subst (λ k. p4.live ≡ start + (1 + array_blocks k + k)) (sym h4.1)
                          (h4.0 ∙ omega arith)))))))

free_device_names-back :
    (ds : List UserDevice) (back : ℕ) (p : Pool)
    → p.live ≡ back + length ds
    → (free_device_names ds p).live ≡ back
unfolding free_device_names
free_device_names-back [] back p h = omega arith
free_device_names-back (d ∷ ds) back p h =
    free_device_names-back ds back (pool_free p) (pool_free-back (back + length ds) p (omega arith))

free_driver-back :
    (u : UserDriver) (back : ℕ) (p : Pool)
    → p.live ≡ back + driver_blocks u
    → (free_driver u p).live ≡ back
unfolding free_driver
free_driver-back u back p h =
    let n = length u.hooked_devices in
    let unnamed =
      free_device_names-back u.hooked_devices (back + 1 + array_blocks n) p (omega arith) in
    pool_free-back back _
      (free_devices_array-back n (back + 1) (free_device_names u.hooked_devices p) unnamed)

unfoldable pub drivers_blocks : List UserDriver → ℕ
drivers_blocks [] = 0
drivers_blocks (u ∷ us) = driver_blocks u + drivers_blocks us

abbrev pub AllWhole : ℕ → ℕ → List UserDriver → ℕ → Type 0
AllWhole start n us live = (live ≡ start + drivers_blocks us) × (length us ≡ n)

pub parse_drivers-Ends :
    (last : ℕ) (err : (last == 0) ≡ false) (memory : ℕ → Option Entry) (n at start : ℕ) (p : Pool)
    → p.live ≡ start
    → Ends (AllWhole start n) start (parse_drivers last memory n at p)
unfolding Ends parse_drivers drivers_blocks
parse_drivers-Ends last err memory zero at start p h = (omega arith, refl)
parse_drivers-Ends last err memory (suc n) at start p h =
    read_then-Ends (Whole start) (AllWhole start (suc n)) start _ _
      (parse_driver-Ends last err memory at start p h)
      (λ d p1 h1.
        let mine = start + driver_blocks d.0 in
        on_failure-Ends (AllWhole start (suc n)) mine start (free_driver d.0) _
          (free_driver-back d.0 start)
          (read_then-Ends (AllWhole mine n) (AllWhole start (suc n)) mine _ _
            (parse_drivers-Ends last err memory n d.1 mine p1 h1)
            (λ rest p2 h2. (h2.0 ∙ omega arith, ap suc h2.1))))

pub free_drivers-back :
    (us : List UserDriver) (back : ℕ) (p : Pool)
    → p.live ≡ back + drivers_blocks us
    → (free_drivers us p).live ≡ back
unfolding free_drivers drivers_blocks
free_drivers-back [] back p h = omega arith
free_drivers-back (u ∷ us) back p h =
    free_drivers-back us back (free_driver u p)
      (free_driver-back u (back + drivers_blocks us) p (omega arith))
