-- ===== src/Hook/Devices/Changes.antt =====
-- Creating a device record, changing one in place, and what these and the references leave alone.
use irpmon.Common.{
  ℕ, suc, ◌+◌, ◌≤◌, ◌≡◌, refl, sym, ap, ◌∙◌, List, Option, none, some, Bool, true, false, if_false,
  ◌==◌, ==_iff, Bool-cases, Option-cases, inl, inr, arith, if_intro,
}
use irpmon.Kernel.{nt_success, Status}
use irpmon.Hook.{DeviceHook, CreateReason, is_some}
use irpmon.Hook.Devices.{
  Devices, Answers, set_record, set_valid, free, reference_record, dereference_record, update,
  create,
}
use irpmon.Hook.Devices.Counts.{
  Counted, references, plus, bit, count_live, changed, change-Counted, count_live-changed,
}

pub update-Counted :
    (others : ℕ) (t : ℕ → ℕ) (s : Devices) (a : ℕ) (f : DeviceHook → DeviceHook)
    → ((d : DeviceHook) → (f d).reference_count ≡ d.reference_count)
    → Counted others t s
    → Counted others t (update a f (s.records a) s)
unfolding update set_record
update-Counted others t s a f keeps h = elim (Option-cases (s.records a)) [
  | inl e ↦ rw e h
  | inr (d, e) ↦
      let live : is_some (s.records a) ≡ true = ap is_some e in
      let own : references (s.records a) ≡ d.reference_count = ap references e in
      rw e (
        change-Counted others t t s a (some (f d)) s.driver_references s.valid h live refl
          (λ k. omega (arith, keeps d, h.alive a live)) (sym (h.owned a) ∙ (own ∙ sym (keeps d)))
          (λ x ne. refl) (λ x same k. refl) (λ x ne k. k))
]

-- Invalidating any address, or validating that of a live record.
pub set_valid-Counted :
    (others : ℕ) (t : ℕ → ℕ) (s : Devices) (a : ℕ) (b : Bool)
    → (b ≡ true → is_some (s.records a) ≡ true)
    → Counted others t s
    → Counted others t (set_valid a b s)
unfolding set_valid
set_valid-Counted others t s a b live h = record {
  owned = h.owned;
  alive = h.alive;
  unused = h.unused;
  driver = h.driver;
  validated = λ x. elim (Bool-cases (x == a)) [
    | inl e ↦ rw (e, (==_iff x a).0 e) live
    | inr e ↦ rw e (h.validated x)
  ];
}

count_live-next :
    (n : ℕ) (d : DeviceHook) (f : ℕ → Option DeviceHook)
    → f n ≡ none
    → count_live (suc n) (changed n (some d) f) ≡ 1 + count_live n f
unfolding count_live
count_live-next n d f e =
    let added = count_live-changed (suc n) n (some d) f (omega arith) in
    let was : bit (is_some (f n)) ≡ 0 = ap (λ r. bit (is_some r)) e in omega arith

create-adds :
    (others : ℕ) (t : ℕ → ℕ) (s : Devices) (d : DeviceHook)
    → d.reference_count ≡ 1
    → Counted others t s
    → Counted others (plus s.next t) (
        set_record s.next
          (some d)
          (record s { driver_references = s.driver_references + 1; next = s.next + 1 }))
unfolding set_record
create-adds others t s d one h =
    let n = s.next in
    let fresh = h.unused n (omega arith) in
    let unowned : 0 ≡ t n = ap references (sym fresh) ∙ h.owned n in
    record {
      owned = λ x. elim (Bool-cases (x == n)) [
        | inl e ↦ rw (e, (==_iff x n).0 e) (omega arith)
        | inr e ↦ rw e (h.owned x ∙ omega arith)
      ];
      alive = λ x. elim (Bool-cases (x == n)) [
        | inl e ↦ rw e (λ k. omega arith)
        | inr e ↦ rw e (h.alive x)
      ];
      unused = λ x above.
          rw (if_false {b = x == n} (some d) (s.records x) (ground arith))
            (h.unused x (omega arith));
      driver =
          let next = count_live-next n d s.records fresh in
          let before = h.driver in let same : n + 1 ≡ suc n = omega arith in rw same (omega arith);
      validated = λ x. elim (Bool-cases (x == n)) [
        | inl e ↦ rw e (λ k. refl)
        | inr e ↦ rw e (h.validated x)
      ];
    }

-- How _DeviceHookRecordCreate ends: with a new record that the caller has a reference of, or
-- without one.
unfoldable pub Created : ℕ → (ℕ → ℕ) → Devices → Status × ℕ × Devices → Type 0
Created others t s made =
    (nt_success made.0 ≡ true → Counted others (plus made.1 t) made.2)
    × (nt_success made.0 ≡ false → Counted others t made.2)
    × (made.2.selected ≡ s.selected)

pub create-Created :
    (others : ℕ) (t : ℕ → ℕ) (ans : Answers) (irp fast_io : Option (List ℕ)) (enabled : Bool)
    (reason : CreateReason) (object : ℕ) (s : Devices)
    → Counted others t s
    → Created others t s (create ans irp fast_io enabled reason object s)
unfolding create Created set_record
create-Created others t ans irp fast_io enabled reason object s h =
    if_intro (Created others t s) ans.allocated
      (elim (Bool-cases (nt_success ans.locked)) [
        | inl l ↦ rw l (elim (Bool-cases (nt_success ans.named)) [
          | inl n ↦ rw n ((λ k. create-adds others t s _ refl h), (λ k. absurd (cc (n, k))), refl)
          | inr n ↦ rw n ((λ k. absurd (cc (n, k))), (λ k. h), refl)
        ])
        | inr l ↦ rw l ((λ k. absurd (cc (l, k))), (λ k. h), refl)
      ])
      ((λ k. absurd (cc k)), (λ k. h), refl)

pub selected-reference :
    (a : ℕ) (r : Option DeviceHook) (s : Devices) → (reference_record a r s).selected ≡ s.selected
unfolding reference_record set_record
selected-reference a none s = refl
selected-reference a (some d) s = refl

pub selected-dereference :
    (a : ℕ) (r : Option DeviceHook) (s : Devices) → (dereference_record a r s).selected ≡ s.selected
unfolding dereference_record set_record free set_valid
selected-dereference a none s = refl
selected-dereference a (some d) s =
    if_intro (λ (x : Devices). x.selected ≡ s.selected) (d.reference_count == 1) refl refl

pub selected-update :
    (a : ℕ) (f : DeviceHook → DeviceHook) (r : Option DeviceHook) (s : Devices)
    → (update a f r s).selected ≡ s.selected
unfolding update set_record
selected-update a f none s = refl
selected-update a f (some d) s = refl

-- A record that has an owner is live.
pub live_owned :
    (others : ℕ) (t : ℕ → ℕ) (s : Devices) (a : ℕ)
    → Counted others t s
    → 1 ≤ t a
    → is_some (s.records a) ≡ true
live_owned others t s a h owned = elim (Option-cases (s.records a)) [
  | inl e ↦ let unowned : 0 ≡ t a = ap references (sym e) ∙ h.owned a in absurd (omega arith)
  | inr (d, e) ↦ ap is_some e
]
