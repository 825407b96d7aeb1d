-- ===== src/Hook/Devices/Existing.antt =====
-- HookDriverObject of kbase/hook.c on the devices that the driver has already.
use irpmon.Common.{
  ℕ, ◌+◌, ◌≤◌, ◌≡◌, refl, ap, ◌∙◌, List, [], ◌∷◌, ◌++◌, none, true, false, ◌==◌, ==_iff, Bool-cases,
  inl, inr, arith, Bool, if_intro,
}
use irpmon.Kernel.{nt_success, Status}
use irpmon.Hook.{driver_hooked}
use irpmon.Hook.Devices.{
  Devices, Answers, reference, create, dereference_all, create_all, select_all, hook_devices,
}
use irpmon.Hook.Devices.Counts.{Counted, Counted-owners, plus, bit, reference-Counted}
use irpmon.Hook.Devices.Changes.{Created, create-Created, selected-reference, live_owned}
use irpmon.Hook.Devices.Owned.{entry_count, owners, Held, relink-Counted, as_Held}
use irpmon.Hook.Devices.Returns.{dereference_all-Counted}

-- The owners of some new records, and others.
abbrev with_entries : List (ℕ × ℕ) → (ℕ → ℕ) → ℕ → ℕ
with_entries es t = λ x. entry_count x es + t x

entry_count-append :
    (x : ℕ) (es : List (ℕ × ℕ)) (e : ℕ × ℕ)
    → entry_count x (es ++ (e ∷ [])) ≡ bit (x == e.1) + entry_count x es
unfolding entry_count
entry_count-append x [] e = refl
entry_count-append x (e' ∷ es) e = omega (arith, entry_count-append x es e)

-- Either all records are made and owned by the list, or none is left.
CreatedAll : ℕ → (ℕ → ℕ) → Devices → Status × List (ℕ × ℕ) × Devices → Type 0
CreatedAll others t s made =
    (nt_success made.0 ≡ true → Counted others (with_entries made.1 t) made.2)
    × (nt_success made.0 ≡ false → Counted others t made.2)
    × (made.2.selected ≡ s.selected)

create_all-CreatedAll :
    (others : ℕ) (t : ℕ → ℕ) (qs : List (Answers × ℕ)) (done : List (ℕ × ℕ)) (s : Devices)
    → Counted others (with_entries done t) s
    → CreatedAll others t s (create_all qs done s)
unfolding CreatedAll create_all Created
create_all-CreatedAll others t [] done s h = ((λ k. h), (λ k. absurd (cc k)), refl)
create_all-CreatedAll others t (q ∷ qs) done s h =
    let made = create q.0 none none false driver_hooked q.1 s in
    let (succeeds, fails, same) =
      create-Created others (with_entries done t) q.0 none none false driver_hooked q.1 s h in
    elim (Bool-cases (nt_success made.0)) [
      | inl ok ↦
          let done' = done ++ ((q.1, made.1) ∷ []) in
          let owned =
            Counted-owners others (plus made.1 (with_entries done t)) (with_entries done' t) made.2
              (λ x. omega (arith, entry_count-append x done (q.1, made.1))) (succeeds ok) in
          let (all, none_left, same') = create_all-CreatedAll others t qs done' made.2 owned in
          rw ok (all, none_left, same' ∙ same)
      | inr bad ↦
          let (left, same') = dereference_all-Counted others t done made.2 (fails bad) in
          rw bad ((λ k. absurd (cc (bad, k))), (λ k. left), same' ∙ same)
    ]

select_all-Counted :
    (others : ℕ) (u : ℕ → ℕ) (es : List (ℕ × ℕ)) (s : Devices)
    → ((x : ℕ) → entry_count x es ≤ u x)
    → Counted others u s
    → Counted others (with_entries es u) (select_all es s)
      × ((x : ℕ)
          → entry_count x (select_all es s).selected ≡ entry_count x es + entry_count x s.selected)
unfolding select_all entry_count
select_all-Counted others u [] s enough h =
    (Counted-owners others u (with_entries [] u) s (λ x. omega arith) h, λ x. omega arith)
select_all-Counted others u (e ∷ es) s enough h =
    let a = e.1 in
    let one : bit (a == a) ≡ 1 = ap bit ((==_iff a a).1 refl) in
    let owned = enough a in
    let s1 = reference a s in
    let linked = e ∷ s1.selected in
    let h1 = reference-Counted others u s a (live_owned others u s a h (omega arith)) h in
    let h2 = relink-Counted others (plus a u) s1 linked h1 in
    let (all, counts) =
      select_all-Counted others (plus a u) es (record s1 { selected = linked })
        (λ x. omega (arith, enough x)) h2 in
    (
      Counted-owners others (with_entries es (plus a u)) (with_entries (e ∷ es) u) _
          (λ x. omega arith) all,
      λ x. omega (arith, counts x, ap (entry_count x) (selected-reference a (s.records a) s)),
    )

-- HookDriverObject makes records for all devices that the driver has, which the table then holds, or
-- it fails and holds nothing more.
pub hook_devices-Held :
    (others : ℕ) (held : List ℕ) (taken : Bool) (qs : List (Answers × ℕ)) (s : Devices)
    → Held others held s
    → Held others held (hook_devices taken qs s).1
unfolding hook_devices CreatedAll Held owners entry_count
hook_devices-Held others held taken qs s h =
    let t = owners held s.selected in
    let made = create_all qs [] s in
    let start = Counted-owners others t (with_entries [] t) s (λ x. omega arith) h in
    let (all, none_left, same) = create_all-CreatedAll others t qs [] s start in
    elim (Bool-cases (nt_success made.0)) [
      | inl ok ↦
          let s1 = made.2 in
          let (linked, counts) =
            select_all-Counted others (with_entries made.1 t) made.1 s1 (λ x. omega arith)
              (all ok) in
          let s2 = select_all made.1 s1 in
          let (mine, same2) =
            dereference_all-Counted others (with_entries made.1 t) made.1 s2 linked in
          let (freed, same1) = dereference_all-Counted others t made.1 s1 (all ok) in
          let hooked : Held others held (dereference_all made.1 s2) =
            as_Held others (with_entries made.1 t) held s2.selected (dereference_all made.1 s2)
              same2 (λ x. omega (arith, counts x, ap (entry_count x) same)) mine in
          let refused : Held others held (dereference_all made.1 s1) =
            as_Held others t held s.selected (dereference_all made.1 s1) (same1 ∙ same) (λ x. refl)
              freed in
          rw ok (if_intro (λ d. Held others held (dereference_all made.1 d)) taken refused hooked)
      | inr bad ↦ rw bad (as_Held others t held s.selected made.2 same (λ x. refl) (none_left bad))
    ]
