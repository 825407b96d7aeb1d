-- ===== src/Hook/Devices/Machine.antt =====
-- The states that the device records of a hooked driver go through, call by call.
use irpmon.Common.{
  ℕ, zero, suc, ◌+◌, ◌≤◌, ◌≡◌, refl, ap, ◌∙◌, subst, List, [], ◌∷◌, ◌++◌, Option, none, some, Bool,
  true, false, Option-cases, Bool-cases, inl, inr, arith,
}
use irpmon.Kernel.{Status}
use irpmon.Hook.{DeviceHook, is_some}
use irpmon.Hook.Devices.{
  Devices, Answers, dereference, find, add_device, delete_device, get_device, device_valid, clear,
  hook_devices,
}
use irpmon.Hook.Devices.Counts.{count_live, bit, references}
use irpmon.Hook.Devices.Changes.{live_owned}
use irpmon.Hook.Devices.Owned.{held_count, entry_count, owners, Held, find-counted, Added}
use irpmon.Hook.Devices.Calls.{add_device-Added}
use irpmon.Hook.Devices.Returns.{
  Got, get_device-Got, Checked, device_valid-Checked, delete_device-Held, release-Held, clear-Held,
}
use irpmon.Hook.Devices.Existing.{hook_devices-Held}

-- A driver record without devices.
abbrev pub empty : ℕ → Bool → List ℕ → List ℕ → ℕ → Devices
empty driver_references extension irp fast_io next = record {
  driver_references = driver_references;
  device_extension_hook = extension;
  irp_settings = irp;
  fast_io_settings = fast_io;
  records = λ a. none;
  next = next;
  selected = [];
  valid = λ a. false;
}

-- The references that callers hold, and the state, after any calls. The last index of `Reachable`
-- is the state, the one before the addresses that callers have a reference of.
pub data Reachable (others : ℕ) : List ℕ → Devices → Type 0 where
  starts :
      (extension : Bool) (irp fast_io : List ℕ) (next : ℕ)
      → Reachable others [] (empty others extension irp fast_io next)
  hooks :
      (held : List ℕ) (s : Devices) (taken : Bool) (qs : List (Answers × ℕ))
      → Reachable others held s
      → Reachable others held (hook_devices taken qs s).1
  adds :
      (held : List ℕ) (s : Devices) (ans : Answers) (object : ℕ) (irp fast_io : Option (List ℕ))
      (enabled : Bool) (status : Status) (a : ℕ) (s' : Devices)
      → Reachable others held s
      → add_device ans object irp fast_io enabled s ≡ (status, some a, s')
      → Reachable others (a ∷ held) s'
  fails_to_add :
      (held : List ℕ) (s : Devices) (ans : Answers) (object : ℕ) (irp fast_io : Option (List ℕ))
      (enabled : Bool) (status : Status) (s' : Devices)
      → Reachable others held s
      → add_device ans object irp fast_io enabled s ≡ (status, none, s')
      → Reachable others held s'
  gets :
      (held : List ℕ) (s : Devices) (object a : ℕ) (s' : Devices)
      → Reachable others held s
      → get_device object s ≡ (some a, s')
      → Reachable others (a ∷ held) s'
  checks :
      (held : List ℕ) (s : Devices) (a : ℕ) (s' : Devices)
      → Reachable others held s
      → device_valid a s ≡ (true, s')
      → Reachable others (a ∷ held) s'
  deletes :
      (held : List ℕ) (s : Devices) (object : ℕ)
      → Reachable others held s
      → Reachable others held (delete_device object s).1
  releases :
      (xs : List ℕ) (a : ℕ) (ys : List ℕ) (s : Devices)
      → Reachable others (xs ++ (a ∷ ys)) s
      → Reachable others (xs ++ ys) (dereference a s)
  clears : (held : List ℕ) (s : Devices) → Reachable others held s → Reachable others held (clear s)

all_none-count_live :
    (n : ℕ) (f : ℕ → Option DeviceHook) → ((a : ℕ) → f a ≡ none) → count_live n f ≡ 0
unfolding count_live
all_none-count_live zero f h = refl
all_none-count_live (suc n) f h =
    let here : bit (is_some (f n)) ≡ 0 = ap (λ r. bit (is_some r)) (h n) in
    omega (arith, all_none-count_live n f h)

pub empty-Held :
    (others : ℕ) (extension : Bool) (irp fast_io : List ℕ) (next : ℕ)
    → Held others [] (empty others extension irp fast_io next)
unfolding Held owners held_count entry_count
empty-Held others extension irp fast_io next = record {
  owned = λ a. refl;
  alive = λ a k. absurd (cc k);
  unused = λ a k. refl;
  driver = omega (arith, all_none-count_live next (λ a. none) (λ a. refl));
  validated = λ a k. absurd (cc k);
}

Reachable-Held :
    (others : ℕ) (held : List ℕ) (s : Devices) → Reachable others held s → Held others held s
unfolding Added Got Checked
Reachable-Held others _ _ (starts extension irp fast_io next) =
    empty-Held others extension irp fast_io next
Reachable-Held others _ _ (hooks held s taken qs r) =
    hook_devices-Held others held taken qs s (Reachable-Held others held s r)
Reachable-Held others _ _ (adds held s ans object irp fast_io enabled status a s' r e) =
    (subst (Added others held object s) e (
      add_device-Added others held ans object irp fast_io enabled s
        (Reachable-Held others held s r))).2
Reachable-Held others _ _ (fails_to_add held s ans object irp fast_io enabled status s' r e) =
    (subst (Added others held object s) e (
      add_device-Added others held ans object irp fast_io enabled s
        (Reachable-Held others held s r))).2
Reachable-Held others _ _ (gets held s object a s' r e) =
    subst (Got others held) e (get_device-Got others held object s (Reachable-Held others held s r))
Reachable-Held others _ _ (checks held s a s' r e) =
    subst (Checked others held a) e
      (device_valid-Checked others held a s (Reachable-Held others held s r))
Reachable-Held others _ _ (deletes held s object r) =
    delete_device-Held others held object s (Reachable-Held others held s r)
Reachable-Held others _ _ (releases xs a ys s r) =
    release-Held others xs a ys s (Reachable-Held others (xs ++ (a ∷ ys)) s r)
Reachable-Held others _ _ (clears held s r) =
    (clear-Held others held s (Reachable-Held others held s r)).0

-- After any sequence of calls: a record that a caller has a reference of is live, and so is a
-- record that the table has for a device, and one that DeviceHookRecordValid accepts.
pub Reachable-live :
    (others : ℕ) (held : List ℕ) (s : Devices)
    → Reachable others held s
    → ((a : ℕ) → 1 ≤ held_count a held → is_some (s.records a) ≡ true)
      × ((object a : ℕ) → find object s.selected ≡ some a → is_some (s.records a) ≡ true)
      × ((a : ℕ) → s.valid a ≡ true → is_some (s.records a) ≡ true)
unfolding Held owners
Reachable-live others held s r =
    let h = Reachable-Held others held s r in
    let t = owners held s.selected in
    (
      (λ a k. live_owned others t s a h (omega arith)),
      (λ object a e.
          let listed = find-counted object a s.selected e in
          live_owned others t s a h (omega arith)),
      h.validated,
    )

unowned_none :
    (others : ℕ) (s : Devices) (a : ℕ) → Held others [] s → s.selected ≡ [] → s.records a ≡ none
unfolding Held owners held_count entry_count
unowned_none others s a h e = elim (Option-cases (s.records a)) [
  | inl gone ↦ gone
  | inr (d, there) ↦
      let owned : references (s.records a) ≡ 0 + entry_count a s.selected = h.owned a in
      let empty_table : entry_count a s.selected ≡ 0 = ap (entry_count a) e in
      let alive = h.alive a (ap is_some there) in absurd (omega arith)
]

none_invalid :
    (others : ℕ) (s : Devices) (a : ℕ) → Held others [] s → s.records a ≡ none → s.valid a ≡ false
unfolding Held
none_invalid others s a h e = elim (Bool-cases (s.valid a)) [
  | inl valid ↦ absurd (cc (h.validated a valid, ap is_some e))
  | inr invalid ↦ invalid
]

-- After any sequence of calls: once the callers have given all their references back and
-- UnhookDriverObject clears the table, every device record is freed, none is valid, and the
-- driver's record has no reference of a device record any more.
pub clear-frees_devices :
    (others : ℕ) (s : Devices)
    → Reachable others [] s
    → ((a : ℕ) → (clear s).records a ≡ none)
      × ((a : ℕ) → (clear s).valid a ≡ false)
      × ((clear s).driver_references ≡ others)
unfolding Held owners held_count
clear-frees_devices others s r =
    let (h, empty_table) = clear-Held others [] s (Reachable-Held others [] s r) in
    let freed : (a : ℕ) → (clear s).records a ≡ none =
      λ a. unowned_none others (clear s) a h empty_table in
    (
      freed,
      (λ a. none_invalid others (clear s) a h (freed a)),
      h.driver ∙ omega (arith, all_none-count_live (clear s).next (clear s).records freed),
    )
