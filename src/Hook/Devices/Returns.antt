-- ===== src/Hook/Devices/Returns.antt =====
-- The calls of kbase/hook.c that look a device record up, withdraw it, give it back, or make and
-- release the records of all devices at once.
use irpmon.Common.{
  ℕ, ◌+◌, ◌≡◌, refl, ◌∙◌, List, [], ◌∷◌, ◌++◌, Option, none, some, Bool, true, false, ◌==◌,
  Bool-cases, inl, inr, arith, if_intro,
}
use irpmon.Kernel.{Status}
use irpmon.Hook.{DeviceHook, is_some, is_user_request}
use irpmon.Hook.Devices.{
  Devices, set_valid, reference, dereference, update, find, withdraw, delete_record, delete_found,
  delete_device, get_found, get_device, device_valid, dereference_all, clear,
}
use irpmon.Hook.Devices.Counts.{
  Counted, Counted-owners, plus, bit, reference-Counted, dereference-Counted,
}
use irpmon.Hook.Devices.Changes.{
  update-Counted, set_valid-Counted, selected-reference, selected-dereference, selected-update,
  live_owned,
}
use irpmon.Hook.Devices.Owned.{
  held_count, entry_count, owners, Held, relink-Counted, as_Held, find-counted,
}

-- A call that gives a reference of a live record to its caller.
pub reference-Held :
    (others : ℕ) (held : List ℕ) (a : ℕ) (s : Devices)
    → is_some (s.records a) ≡ true
    → Held others held s
    → Held others (a ∷ held) (reference a s)
unfolding Held owners held_count
reference-Held others held a s live h =
    as_Held others (plus a (owners held s.selected)) (a ∷ held) s.selected (reference a s)
      (selected-reference a (s.records a) s) (λ x. omega arith)
      (reference-Counted others (owners held s.selected) s a live h)

-- What DriverHookRecordGetDevice answers.
unfoldable pub Got : ℕ → List ℕ → Option ℕ × Devices → Type 0
Got others held (some a, s) = Held others (a ∷ held) s
Got others held (none, s) = Held others held s

get_found-Got :
    (others : ℕ) (held : List ℕ) (object : ℕ) (o : Option ℕ) (s : Devices)
    → find object s.selected ≡ o
    → Held others held s
    → Got others held (get_found o s)
unfolding get_found Got Held owners
get_found-Got others held object none s e h = h
get_found-Got others held object (some a) s e h =
    let listed = find-counted object a s.selected e in
    reference-Held others held a s (live_owned others (owners held s.selected) s a h (omega arith))
      h

pub get_device-Got :
    (others : ℕ) (held : List ℕ) (object : ℕ) (s : Devices)
    → Held others held s
    → Got others held (get_device object s)
get_device-Got others held object s h =
    get_found-Got others held object (find object s.selected) s refl h

-- What DeviceHookRecordValid answers for any address.
unfoldable pub Checked : ℕ → List ℕ → ℕ → Bool × Devices → Type 0
Checked others held a (true, s) = Held others (a ∷ held) s
Checked others held a (false, s) = Held others held s

pub device_valid-Checked :
    (others : ℕ) (held : List ℕ) (a : ℕ) (s : Devices)
    → Held others held s
    → Checked others held a (device_valid a s)
unfolding device_valid Checked Held
device_valid-Checked others held a s h = elim (Bool-cases (s.valid a)) [
  | inl e ↦ rw e (reference-Held others held a s (h.validated a e) h)
  | inr e ↦ rw e h
]

delete_record-Held :
    (others : ℕ) (held : List ℕ) (object a : ℕ) (r : Option DeviceHook) (s : Devices)
    → find object s.selected ≡ some a
    → Held others held s
    → Held others held (delete_record a r s).1
unfolding delete_record Held set_valid withdraw owners
delete_record-Held others held object a none s found h = h
delete_record-Held others held object a (some d) s found h =
    let t = owners held s.selected in
    let listed = find-counted object a s.selected found in
    let s1 = reference a s in
    let h1 = reference-Counted others t s a (live_owned others t s a h (omega arith)) h in
    let same1 = selected-reference a (s.records a) s in
    let s2 = update a withdraw (s1.records a) s1 in
    let h2 = update-Counted others (plus a t) s1 a withdraw (λ e. refl) h1 in
    let s3 = set_valid a false s2 in
    let h3 = set_valid-Counted others (plus a t) s2 a false (λ k. absurd (cc k)) h2 in
    let same3 = selected-update a withdraw (s1.records a) s1 ∙ same1 in
    if_intro (λ (x : Status × Devices). Held others held x.1) (is_user_request d.create_reason)
      (as_Held others t held s.selected (dereference a s3)
        (selected-dereference a (s3.records a) s3 ∙ same3) (λ x. refl)
        (dereference-Counted others t s3 a h3))
      (as_Held others t held s.selected (dereference a s1)
        (selected-dereference a (s1.records a) s1 ∙ same1) (λ x. refl)
        (dereference-Counted others t s1 a h1))

delete_found-Held :
    (others : ℕ) (held : List ℕ) (object : ℕ) (o : Option ℕ) (s : Devices)
    → find object s.selected ≡ o
    → Held others held s
    → Held others held (delete_found o s).1
unfolding delete_found
delete_found-Held others held object none s e h = h
delete_found-Held others held object (some a) s e h =
    delete_record-Held others held object a (s.records a) s e h

pub delete_device-Held :
    (others : ℕ) (held : List ℕ) (object : ℕ) (s : Devices)
    → Held others held s
    → Held others held (delete_device object s).1
delete_device-Held others held object s h =
    delete_found-Held others held object (find object s.selected) s refl h

held_count-append :
    (x : ℕ) (xs : List ℕ) (a : ℕ) (ys : List ℕ)
    → held_count x (xs ++ (a ∷ ys)) ≡ bit (x == a) + held_count x (xs ++ ys)
unfolding held_count
held_count-append x [] a ys = refl
held_count-append x (b ∷ xs) a ys = omega (arith, held_count-append x xs a ys)

-- A caller gives any of its references back.
pub release-Held :
    (others : ℕ) (xs : List ℕ) (a : ℕ) (ys : List ℕ) (s : Devices)
    → Held others (xs ++ (a ∷ ys)) s
    → Held others (xs ++ ys) (dereference a s)
unfolding Held owners
release-Held others xs a ys s h =
    let t = owners (xs ++ ys) s.selected in
    as_Held others t (xs ++ ys) s.selected (dereference a s)
      (selected-dereference a (s.records a) s) (λ x. refl)
      (dereference-Counted others t s a (
        Counted-owners others (owners (xs ++ (a ∷ ys)) s.selected) (plus a t) s
          (λ x. omega (arith, held_count-append x xs a ys)) h))

-- References of all entries of a list are given back.
pub dereference_all-Counted :
    (others : ℕ) (t : ℕ → ℕ) (es : List (ℕ × ℕ)) (s : Devices)
    → Counted others (λ x. entry_count x es + t x) s
    → Counted others t (dereference_all es s) × ((dereference_all es s).selected ≡ s.selected)
unfolding dereference_all entry_count
dereference_all-Counted others t [] s h =
    (Counted-owners others (λ x. 0 + t x) t s (λ x. omega arith) h, refl)
dereference_all-Counted others t (e ∷ es) s h =
    let s1 = dereference e.1 s in
    let h1 =
      dereference-Counted others (λ x. entry_count x es + t x) s e.1
        (Counted-owners others _ (plus e.1 (λ x. entry_count x es + t x)) s (λ x. omega arith) h) in
    let (rest, same) = dereference_all-Counted others t es s1 h1 in
    (rest, same ∙ selected-dereference e.1 (s.records e.1) s)

-- Clearing the table gives its references back.
pub clear-Held :
    (others : ℕ) (held : List ℕ) (s : Devices)
    → Held others held s
    → Held others held (clear s) × ((clear s).selected ≡ [])
unfolding Held owners clear entry_count
clear-Held others held s h =
    let s1 = record s { selected = [] } in
    let h1 = relink-Counted others _ s [] (
      Counted-owners others (owners held s.selected)
        (λ x. entry_count x s.selected + held_count x held) s (λ x. omega arith) h) in
    let (counted, same) =
      dereference_all-Counted others (λ x. held_count x held) s.selected s1 h1 in
    (
      as_Held others (λ x. held_count x held) held [] (clear s) same (λ x. omega arith) counted,
      same,
    )
