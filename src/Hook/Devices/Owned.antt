-- ===== src/Hook/Devices/Owned.antt =====
-- The operations on a driver's devices, with the owners of references: the table SelectedDevices
-- has one for each of its entries, and each caller one for each record that it was given.
use irpmon.Common.{
  ℕ, ◌+◌, ◌≤◌, ◌≡◌, refl, sym, ap, ◌∙◌, List, [], ◌∷◌, Option, none, some, true, false, if_true,
  if_false, ◌==◌, ==_iff, Bool-cases, inl, inr, arith,
}
use irpmon.Kernel.{nt_success, Status}
use irpmon.Hook.Devices.{
  Devices, Answers, set_valid, reference, dereference, update, find, unlink, proxy_status,
  with_proxy, add_new,
}
use irpmon.Hook.Devices.Counts.{
  Counted, Counted-owners, plus, bit, reference-Counted, dereference-Counted,
}
use irpmon.Hook.Devices.Changes.{
  update-Counted, set_valid-Counted, selected-reference, selected-dereference, selected-update,
  live_owned,
}

-- How often an address is held by callers, and in the table.
unfoldable pub held_count : ℕ → List ℕ → ℕ
held_count x [] = 0
held_count x (a ∷ held) = bit (x == a) + held_count x held

unfoldable pub entry_count : ℕ → List (ℕ × ℕ) → ℕ
entry_count x [] = 0
entry_count x (e ∷ es) = bit (x == e.1) + entry_count x es

unfoldable pub owners : List ℕ → List (ℕ × ℕ) → ℕ → ℕ
owners held entries x = held_count x held + entry_count x entries

-- The references are those of the table, of the callers in `held`, and of nobody else.
unfoldable pub Held : ℕ → List ℕ → Devices → Type 0
Held others held s = Counted others (owners held s.selected) s

pub relink-Counted :
    (others : ℕ) (t : ℕ → ℕ) (s : Devices) (es : List (ℕ × ℕ))
    → Counted others t s
    → Counted others t (record s { selected = es })
relink-Counted others t s es h = record {
  owned = h.owned;
  alive = h.alive;
  unused = h.unused;
  driver = h.driver;
  validated = h.validated;
}

-- The owners of a state, with what its table is known to be.
pub as_Held :
    (others : ℕ) (t : ℕ → ℕ) (held : List ℕ) (es : List (ℕ × ℕ)) (s : Devices)
    → s.selected ≡ es
    → ((a : ℕ) → t a ≡ owners held es a)
    → Counted others t s
    → Held others held s
unfolding Held
as_Held others t held es s e same h =
    Counted-owners others t (owners held s.selected) s
      (λ a. same a ∙ ap (λ l. owners held l a) (sym e)) h

pub find-counted :
    (object a : ℕ) (es : List (ℕ × ℕ)) → find object es ≡ some a → 1 ≤ entry_count a es
unfolding find entry_count
find-counted object a [] h = absurd (cc h)
find-counted object a (e ∷ es) h = elim (Bool-cases (e.0 == object)) [
  | inl same ↦
      let found : some e.1 ≡ some a = sym (if_true (some e.1) (find object es) same) ∙ h in
      let at : a ≡ e.1 = cc found in
      let one : bit (a == e.1) ≡ 1 = ap bit ((==_iff a e.1).1 at) in omega arith
  | inr ne ↦
      let found : find object es ≡ some a =
        sym (if_false {b = e.0 == object} (some e.1) (find object es) ne) ∙ h in
      let rest = find-counted object a es found in omega arith
]

-- What DriverHookRecordAddDevice answers: on success a record that the caller now holds and the
-- table has for the device; otherwise the table is as it was and nothing more is held.
unfoldable pub Added : ℕ → List ℕ → ℕ → Devices → Status × Option ℕ × Devices → Type 0
Added others held object s (status, some a, s') =
    (nt_success status ≡ true) × (find object s'.selected ≡ some a) × Held others (a ∷ held) s'
Added others held object s (status, none, s') =
    (nt_success status ≡ false) × (s'.selected ≡ s.selected) × Held others held s'

find-new : (object a : ℕ) (es : List (ℕ × ℕ)) → find object ((object, a) ∷ es) ≡ some a
unfolding find
find-new object a es = if_true (some a) (find object es) ((==_iff object object).1 refl)

unlink-new : (object a : ℕ) (es : List (ℕ × ℕ)) → unlink object ((object, a) ∷ es) ≡ es
unfolding unlink
unlink-new object a es = if_true es ((object, a) ∷ unlink object es) ((==_iff object object).1 refl)

pub add_new-Added :
    (others : ℕ) (held : List ℕ) (ans : Answers) (status : Status) (object a : ℕ) (s : Devices)
    → Counted others (plus a (owners held s.selected)) s
    → Added others held object s (add_new ans status object a s)
unfolding add_new Added owners held_count entry_count set_valid
add_new-Added others held ans status object a s h =
    let t = owners held s.selected in
    let one : bit (a == a) ≡ 1 = ap bit ((==_iff a a).1 refl) in
    let s1 = reference a s in
    let linked = (object, a) ∷ s1.selected in
    let s2 = record s1 { selected = linked } in
    let same1 = selected-reference a (s.records a) s in
    let live = live_owned others (plus a t) s a h (omega arith) in
    let h1 = reference-Counted others (plus a t) s a live h in
    let h2 = relink-Counted others (plus a (plus a t)) s1 linked h1 in
    elim (Bool-cases (nt_success (proxy_status ans status s2))) [
      | inl ok ↦
          let s3 = update a (with_proxy ans s2) (s2.records a) s2 in
          let s4 = set_valid a true s3 in
          let h3 =
            update-Counted others (plus a (plus a t)) s2 a (with_proxy ans s2) (λ d. refl) h2 in
          let live3 = live_owned others (plus a (plus a t)) s3 a h3 (omega arith) in
          let h4 = set_valid-Counted others (plus a (plus a t)) s3 a true (λ k. live3) h3 in
          let h5 =
            reference-Counted others (plus a (plus a t)) s4 a
              (live_owned others (plus a (plus a t)) s4 a h4 (omega arith)) h4 in
          let s5 = reference a s4 in
          let h6 = dereference-Counted others (plus a (plus a t)) s5 a h5 in
          let s6 = dereference a s5 in
          let same6 : s6.selected ≡ (object, a) ∷ s.selected =
            selected-dereference a (s5.records a) s5
            ∙ (selected-reference a (s4.records a) s4
                ∙ (selected-update a (with_proxy ans s2) (s2.records a) s2
                    ∙ ap (◌∷◌ (object, a)) same1)) in
          rw ok (
            ok,
            rw same6 (find-new object a s.selected),
            as_Held others (plus a (plus a t)) (a ∷ held) ((object, a) ∷ s.selected) s6 same6
                (λ x. omega arith) h6,
          )
      | inr refused ↦
          let s3 = record s2 { selected = unlink object linked } in
          let h3 = relink-Counted others (plus a (plus a t)) s2 (unlink object linked) h2 in
          let h4 = dereference-Counted others (plus a t) s3 a h3 in
          let s4 = dereference a s3 in
          let h5 = dereference-Counted others t s4 a h4 in
          let s5 = dereference a s4 in
          let same5 : s5.selected ≡ s.selected =
            selected-dereference a (s4.records a) s4
            ∙ (selected-dereference a (s3.records a) s3
                ∙ (unlink-new object a s1.selected ∙ same1)) in
          rw refused (refused, same5, as_Held others t held s.selected s5 same5 (λ x. refl) h5)
    ]
