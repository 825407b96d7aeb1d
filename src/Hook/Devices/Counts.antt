-- ===== src/Hook/Devices/Counts.antt =====
-- The references to the device records of kbase/hook.c, counted by their owners.
use irpmon.Common.{
  ℕ, zero, suc, ◌+◌, ◌-◌, ◌≤◌, ◌<◌, ◌≡◌, ◌⊎◌, refl, sym, ap, ◌∙◌, subst, Option, none, some, Bool,
  true, false, if◌then◌else◌, if_true, if_false, ◌==◌, ==_iff, Bool-cases, Option-cases, inl, inr,
  arith,
}
use irpmon.Hook.{DeviceHook, is_some}
use irpmon.Hook.Devices.{
  Devices, set_record, set_valid, free, reference_record, dereference_record, reference,
  dereference,
}

abbrev pub bit : Bool → ℕ
bit true = 1
bit false = 0

-- The references to a record: none if it is not live.
abbrev pub references : Option DeviceHook → ℕ
references none = 0
references (some d) = d.reference_count

-- The live records below an address.
unfoldable pub count_live : ℕ → (ℕ → Option DeviceHook) → ℕ
count_live zero f = 0
count_live (suc n) f = bit (is_some (f n)) + count_live n f

-- Every record has as many references as owners; it is live only while it has one. New addresses
-- are unused. The driver's record has a reference of each live record, and `others`.
-- An address in the validation table is that of a live record.
pub record Counted (others : ℕ) (owners : ℕ → ℕ) (s : Devices) : Type 0 where
  pub owned : (a : ℕ) → references (s.records a) ≡ owners a
  pub alive : (a : ℕ) → is_some (s.records a) ≡ true → 1 ≤ references (s.records a)
  pub unused : (a : ℕ) → s.next ≤ a → s.records a ≡ none
  pub driver : s.driver_references ≡ others + count_live s.next s.records
  pub validated : (a : ℕ) → s.valid a ≡ true → is_some (s.records a) ≡ true

pub Counted-owners :
    (others : ℕ) (t t' : ℕ → ℕ) (s : Devices)
    → ((a : ℕ) → t a ≡ t' a)
    → Counted others t s
    → Counted others t' s
Counted-owners others t t' s e h = record {
  owned = λ a. h.owned a ∙ e a;
  alive = h.alive;
  unused = h.unused;
  driver = h.driver;
  validated = h.validated;
}

-- Changing one record.
abbrev pub changed : ℕ → Option DeviceHook → (ℕ → Option DeviceHook) → ℕ → Option DeviceHook
changed a r f = λ x. if x == a then r else f x

same_address : (a : ℕ) → (a == a) ≡ true
same_address a = (==_iff a a).1 refl

count_live-above :
    (n a : ℕ) (r : Option DeviceHook) (f : ℕ → Option DeviceHook)
    → n ≤ a
    → count_live n (changed a r f) ≡ count_live n f
unfolding count_live
count_live-above zero a r f h = refl
count_live-above (suc n) a r f h =
    rw (if_false {b = n == a} r (f n) (ground arith))
      (ap (λ k. bit (is_some (f n)) + k) (count_live-above n a r f (omega arith)))

pub count_live-changed :
    (n a : ℕ) (r : Option DeviceHook) (f : ℕ → Option DeviceHook)
    → a < n
    → count_live n (changed a r f) + bit (is_some (f a)) ≡ count_live n f + bit (is_some r)
unfolding count_live
count_live-changed zero a r f h = absurd (omega arith)
count_live-changed (suc n) a r f h = elim (Bool-cases (n == a)) [
  | inl e ↦
      let same : n ≡ a = (==_iff n a).0 e in
      let here : f n ≡ f a = ap f same in
      let above = count_live-above n a r f (omega arith) in rw (e, here) (omega arith)
  | inr ne ↦ let below = count_live-changed n a r f (ground arith) in rw ne (omega arith)
]

-- One owner more at an address.
abbrev pub plus : ℕ → (ℕ → ℕ) → ℕ → ℕ
plus a t = λ x. bit (x == a) + t x

pub live_below :
    (others : ℕ) (t : ℕ → ℕ) (s : Devices) (a : ℕ)
    → Counted others t s
    → is_some (s.records a) ≡ true
    → a < s.next
live_below others t s a h l = elim (◌≤◌-cases s.next a) [
  | inl below ↦ absurd (cc (ap is_some (h.unused a below), l))
  | inr above ↦ above
]
  where
    ◌≤◌-cases : (n m : ℕ) → (n ≤ m) ⊎ (m < n)
    ◌≤◌-cases n m = ground arith

-- A live record is changed or freed, with the driver's reference and the validity.
pub change-Counted :
    (others : ℕ) (t t' : ℕ → ℕ) (s : Devices) (a : ℕ) (r : Option DeviceHook) (d : ℕ) (v : ℕ → Bool)
    → Counted others t s
    → is_some (s.records a) ≡ true
    → d + 1 ≡ s.driver_references + bit (is_some r)
    → (is_some r ≡ true → 1 ≤ references r)
    → t' a ≡ references r
    → ((x : ℕ) → (x == a) ≡ false → t' x ≡ t x)
    → ((x : ℕ) → (x == a) ≡ true → v x ≡ true → is_some r ≡ true)
    → ((x : ℕ) → (x == a) ≡ false → v x ≡ true → s.valid x ≡ true)
    → Counted others t'
        (record s { records = changed a r s.records; driver_references = d; valid = v })
change-Counted others t t' s a r d v h live balance positive at_a elsewhere valid_a valid_else =
    let below = live_below others t s a h live in
    record {
      owned = λ x. elim (Bool-cases (x == a)) [
        | inl e ↦ rw (e, (==_iff x a).0 e) (sym at_a)
        | inr e ↦ rw e (h.owned x ∙ sym (elsewhere x e))
      ];
      alive = λ x. elim (Bool-cases (x == a)) [ inl e ↦ rw e positive | inr e ↦ rw e (h.alive x) ];
      unused =
          λ x above. rw (if_false {b = x == a} r (s.records x) (ground arith)) (h.unused x above);
      driver =
          let moved = count_live-changed s.next a r s.records below in
          let was : bit (is_some (s.records a)) ≡ 1 = ap bit live in
          let before = h.driver in omega arith;
      validated = λ x. elim (Bool-cases (x == a)) [
        | inl e ↦ rw e (valid_a x e)
        | inr e ↦ rw e (λ k. h.validated x (valid_else x e k))
      ];
    }

live_of : (r : Option DeviceHook) (d : DeviceHook) → r ≡ some d → is_some r ≡ true
live_of r d e = ap is_some e

pub reference-Counted :
    (others : ℕ) (t : ℕ → ℕ) (s : Devices) (a : ℕ)
    → is_some (s.records a) ≡ true
    → Counted others t s
    → Counted others (plus a t) (reference a s)
unfolding reference_record set_record
reference-Counted others t s a live h = elim (Option-cases (s.records a)) [
  | inl e ↦ absurd (cc (ap is_some e, live))
  | inr (d, e) ↦
      let count : d.reference_count ≡ t a = ap references (sym e) ∙ h.owned a in
      rw e (
        change-Counted others t (plus a t) s a
          (some (record d { reference_count = d.reference_count + 1 })) s.driver_references s.valid
          h live refl (λ k. omega arith) (rw (same_address a) (omega arith))
          (λ x ne. rw ne (omega arith)) (λ x same k. refl) (λ x ne k. k))
]

pub dereference-Counted :
    (others : ℕ) (t : ℕ → ℕ) (s : Devices) (a : ℕ)
    → Counted others (plus a t) s
    → Counted others t (dereference a s)
unfolding dereference_record free set_record set_valid
dereference-Counted others t s a h = elim (Option-cases (s.records a)) [
  | inl e ↦
      let none_owned : 0 ≡ bit (a == a) + t a = ap references (sym e) ∙ h.owned a in
      let one : bit (a == a) ≡ 1 = ap bit (same_address a) in absurd (omega arith)
  | inr (d, e) ↦
      let live = live_of (s.records a) d e in
      let one : bit (a == a) ≡ 1 = ap bit (same_address a) in
      let count : d.reference_count ≡ bit (a == a) + t a = ap references (sym e) ∙ h.owned a in
      let many = live_below others (plus a t) s a h live in
      let moved = count_live-changed s.next a none s.records many in
      let was : bit (is_some (s.records a)) ≡ 1 = ap bit live in
      let before = h.driver in
      let own = h.alive a live in
      let positive : 1 ≤ d.reference_count = subst (λ k. 1 ≤ references k) e own in
      let d1 = record d { reference_count = d.reference_count - 1 } in
      rw e (elim (Bool-cases (d.reference_count == 1)) [
        | inl last ↦
            let is_last : d.reference_count ≡ 1 = (==_iff d.reference_count 1).0 last in
            rw last (
              change-Counted others (plus a t) t s a none (s.driver_references - 1)
                (λ x. if x == a then false else s.valid x) h live (omega arith) (λ k. absurd (cc k))
                (omega arith) (λ x ne. rw ne (omega arith))
                (λ x same k. absurd (cc (k ∙ refl, if_true {b = x == a} false (s.valid x) same)))
                (λ x ne k. sym (if_false {b = x == a} false (s.valid x) ne) ∙ k))
        | inr more ↦ rw more (
            change-Counted others (plus a t) t s a (some d1) s.driver_references s.valid h live refl
              (λ k. ground arith) (omega arith) (λ x ne. rw ne (omega arith)) (λ x same k. refl)
              (λ x ne k. k))
      ])
]
