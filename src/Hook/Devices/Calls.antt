-- ===== src/Hook/Devices/Calls.antt =====
-- The calls of kbase/hook.c on a driver's devices, and who holds which references after them.
use irpmon.Common.{
  ℕ, ◌+◌, ◌≡◌, refl, sym, ap, ◌∙◌, List, ◌∷◌, Option, none, some, Bool, true, false, ◌==◌, ==_iff,
  Bool-cases, inl, inr, arith,
}
use irpmon.Kernel.{nt_success, Status}
use irpmon.Hook.{DeviceHook, is_some, is_driver_hooked, user_request}
use irpmon.Hook.Devices.{
  Devices, Answers, set_valid, reference, dereference, update, create, find, proxy_status,
  with_proxy, adopt, add_existing, add_found, add_device,
}
use irpmon.Hook.Devices.Counts.{
  Counted, Counted-owners, plus, bit, reference-Counted, dereference-Counted,
}
use irpmon.Hook.Devices.Changes.{
  update-Counted, set_valid-Counted, Created, create-Created, selected-reference,
  selected-dereference, selected-update, live_owned,
}
use irpmon.Hook.Devices.Owned.{
  held_count, owners, Held, as_Held, find-counted, Added, add_new-Added,
}

-- Giving up the references of a found record and of a new one.
release_both :
    (others : ℕ) (t : ℕ → ℕ) (a b : ℕ) (es : List (ℕ × ℕ)) (s : Devices)
    → s.selected ≡ es
    → Counted others (plus b (plus a t)) s
    → Counted others t (dereference a (dereference b s))
      × ((dereference a (dereference b s)).selected ≡ es)
release_both others t a b es s e h =
    let s1 = dereference b s in
    (
      dereference-Counted others t s1 a (dereference-Counted others (plus a t) s b h),
      selected-dereference a (s1.records a) s1 ∙ (selected-dereference b (s.records b) s ∙ e),
    )

add_existing-Added :
    (others : ℕ) (held : List ℕ) (ans : Answers) (status : Status) (irp fast_io : Option (List ℕ))
    (enabled : Bool) (object a b : ℕ) (r : Option DeviceHook) (s : Devices)
    → s.records b ≡ r
    → find object s.selected ≡ some b
    → Counted others (plus a (owners held s.selected)) s
    → Added others held object s (add_existing ans status irp fast_io enabled a b r s)
unfolding add_existing Added owners held_count set_valid adopt
add_existing-Added others held ans status irp fast_io enabled object a b none s same found h =
    let t = owners held s.selected in
    let listed = find-counted object b s.selected found in
    let live = live_owned others (plus a t) s b h (omega arith) in
    absurd (cc (ap is_some same, live))
add_existing-Added others held ans status irp fast_io enabled object a b (some d) s same found h =
    let t = owners held s.selected in
    let listed = find-counted object b s.selected found in
    let live = live_owned others (plus a t) s b h (omega arith) in
    let s1 = reference b s in
    let h1 = reference-Counted others (plus a t) s b live h in
    let same1 = selected-reference b (s.records b) s in
    let (back, table) = release_both others t a b s.selected s1 same1 h1 in
    let released = dereference a (dereference b s1) in
    let as_before = as_Held others t held s.selected released table (λ x. refl) back in
    elim (Bool-cases (is_driver_hooked d.create_reason)) [
      | inr other ↦ rw other (refl, table, as_before)
      | inl hooked ↦ rw hooked (elim (Bool-cases (nt_success (proxy_status ans status s1))) [
        | inl ok ↦
            let f : DeviceHook → DeviceHook =
              λ e. adopt irp fast_io enabled (with_proxy ans s1 e) in
            let tt1 = plus b (plus a t) in
            let one : bit (b == b) ≡ 1 = ap bit ((==_iff b b).1 refl) in
            let s2 = update b f (s1.records b) s1 in
            let h2 = update-Counted others tt1 s1 b f (λ e. refl) h1 in
            let live2 = live_owned others tt1 s2 b h2 (omega arith) in
            let s3 = set_valid b true s2 in
            let h3 = set_valid-Counted others tt1 s2 b true (λ k. live2) h2 in
            let h4 =
              reference-Counted others tt1 s3 b (live_owned others tt1 s3 b h3 (omega arith)) h3 in
            let s4 = reference b s3 in
            let same4 : s4.selected ≡ s.selected =
              selected-reference b (s3.records b) s3
              ∙ (selected-update b f (s1.records b) s1 ∙ same1) in
            let h5 =
              Counted-owners others (plus b tt1) (plus b (plus a (plus b t))) s4 (λ x. omega arith)
                h4 in
            let (mine, table') = release_both others (plus b t) a b s.selected s4 same4 h5 in
            let s5 = dereference a (dereference b s4) in
            rw ok (
              ok,
              ap (find object) table' ∙ found,
              as_Held others (plus b t) (b ∷ held) s.selected s5 table' (λ x. omega arith) mine,
            )
        | inr refused ↦ rw refused (refused, table, as_before)
      ])
    ]

add_found-Added :
    (others : ℕ) (held : List ℕ) (ans : Answers) (status : Status) (irp fast_io : Option (List ℕ))
    (enabled : Bool) (object a : ℕ) (o : Option ℕ) (s : Devices)
    → find object s.selected ≡ o
    → Counted others (plus a (owners held s.selected)) s
    → Added others held object s (add_found ans status irp fast_io enabled object a o s)
unfolding add_found
add_found-Added others held ans status irp fast_io enabled object a none s e h =
    add_new-Added others held ans status object a s h
add_found-Added others held ans status irp fast_io enabled object a (some b) s e h =
    add_existing-Added others held ans status irp fast_io enabled object a b (s.records b) s refl e
      h

-- Only the table counts in what was before.
Added-table :
    (others : ℕ) (held : List ℕ) (object : ℕ) (s s' : Devices) (r : Status × Option ℕ × Devices)
    → s'.selected ≡ s.selected
    → Added others held object s' r
    → Added others held object s r
unfolding Added
Added-table others held object s s' (status, none, s'') e (fails, same, h) = (fails, same ∙ e, h)
Added-table others held object s s' (status, some a, s'') e h = h

not-Added :
    (others : ℕ) (held : List ℕ) (object : ℕ) (s : Devices) (status : Status) (s' : Devices)
    → nt_success status ≡ false
    → s'.selected ≡ s.selected
    → Counted others (owners held s.selected) s'
    → Added others held object s (status, none, s')
unfolding Added
not-Added others held object s status s' bad same h =
    (bad, same, as_Held others (owners held s.selected) held s.selected s' same (λ x. refl) h)

pub add_device-Added :
    (others : ℕ) (held : List ℕ) (ans : Answers) (object : ℕ) (irp fast_io : Option (List ℕ))
    (enabled : Bool) (s : Devices)
    → Held others held s
    → Added others held object s (add_device ans object irp fast_io enabled s)
unfolding add_device Created Held
add_device-Added others held ans object irp fast_io enabled s h =
    let t = owners held s.selected in
    let made = create ans irp fast_io enabled user_request object s in
    let (succeeds, fails, same) =
      create-Created others t ans irp fast_io enabled user_request object s h in
    elim (Bool-cases (nt_success made.0)) [
      | inl ok ↦
          let counted =
            Counted-owners others (plus made.1 t) (plus made.1 (owners held made.2.selected)) made.2
              (λ x. ap (λ l. bit (x == made.1) + owners held l x) (sym same)) (succeeds ok) in
          rw ok (
            Added-table others held object s made.2 _ same (
              add_found-Added others held ans made.0 irp fast_io enabled object made.1
                (find object made.2.selected) made.2 refl counted))
      | inr bad ↦ rw bad (not-Added others held object s made.0 made.2 bad same (fails bad))
    ]
