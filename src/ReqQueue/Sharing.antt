-- ===== src/ReqQueue/Sharing.antt =====
-- The references that kbase/req-queue.c holds on the callback records while it calls them.
use irpmon.Common.{
  ℕ, ◌+◌, ◌^◌, ◌<◌, ◌≤◌, ◌≡◌, ◌≢◌, refl, List, [], ◌∷◌, ◌++◌, true, false, arith, All, ap, ◌∙◌,
  ◌==◌, ==_iff, if_true, if_false, map,
}
use irpmon.Request.{Request}
use irpmon.ReqQueue.{CallbackRecord, increment, decrement}
use irpmon.ReqQueue.Callbacks.{reference, last_of, invoke, drop_reference, dereference}

-- Records stand at different addresses.
unfoldable pub Distinct : List CallbackRecord → Type 0
Distinct [] = Unit
Distinct (c ∷ cs) = All (λ d. c.address ≢ d.address) cs × Distinct cs

-- A record that is registered has a reference, and room for one more.
abbrev pub Held : CallbackRecord → Type 0
Held c = (1 ≤ c.reference_count) × (c.reference_count + 1 < 2 ^ 32)

==_refl : (n : ℕ) → (n == n) ≡ true
==_refl n = (==_iff n n).1 refl

==_ne : (m n : ℕ) → m ≢ n → (m == n) ≡ false
==_ne m n h = ground arith

last_of-All :
    (P : ℕ → Type 0) (d : CallbackRecord) (ds : List CallbackRecord)
    → All (λ e. P e.address) (d ∷ ds)
    → P (last_of d ds)
unfolding last_of All
last_of-All P d [] h = h.0
last_of-All P d (e ∷ ds) h = last_of-All P e ds h.1

abbrev referenced : CallbackRecord → CallbackRecord
referenced c = record c { reference_count = increment c.reference_count }

drop_reference-referenced :
    (c : CallbackRecord) → Held c → drop_reference (referenced c) ≡ (c ∷ [], [])
unfolding drop_reference
drop_reference-referenced c h =
    let back : decrement (increment c.reference_count) ≡ c.reference_count = omega arith in
    let stays : (decrement (increment c.reference_count) == 0) ≡ false =
      ==_ne (decrement (increment c.reference_count)) 0 (λ e. absurd (omega arith)) in
    if_false _ _ stays ∙ (λ i. (record c { reference_count = back i } ∷ [], []))

-- Taking references on all the records and giving them back up to the last one changes no record
-- and sets no event, whatever was registered behind them in between.
pub dereference-reference :
    (c : CallbackRecord) (cs new : List CallbackRecord)
    → Distinct (c ∷ cs)
    → All Held (c ∷ cs)
    → dereference (last_of c cs) (reference (c ∷ cs) ++ new) ≡ ((c ∷ cs) ++ new, [])
unfolding dereference reference last_of Distinct All
dereference-reference c [] new d h =
    if_true _ _ (==_refl c.address) ∙ ap (λ x. (x.0 ++ new, x.1)) (drop_reference-referenced c h.0)
dereference-reference c (e ∷ cs) new d h =
    let other : (c.address == last_of e cs) ≡ false =
      ==_ne _ _ (last_of-All (λ n. c.address ≢ n) e cs d.0) in
    let rest = dereference-reference e cs new d.1 h.1 in
    let others = dereference (last_of e cs) (reference (e ∷ cs) ++ new) in
    if_false _ _ other
    ∙ (ap (λ x. (x.0 ++ others.0, x.1 ++ others.1)) (drop_reference-referenced c h.0)
        ∙ ap (λ x. (c ∷ x.0, x.1)) rest)

-- The records up to the last one that was referenced are called once each, in the order of their
-- registration, and none that was registered later.
pub invoke-reference :
    (c : CallbackRecord) (cs new : List CallbackRecord) (r : Request)
    → Distinct (c ∷ cs)
    → invoke (last_of c cs) r (reference (c ∷ cs) ++ new) ≡ map (λ d. (d.address, r)) (c ∷ cs)
unfolding invoke reference last_of Distinct
invoke-reference c [] new r d = if_true _ _ (==_refl c.address)
invoke-reference c (e ∷ cs) new r d =
    let other : (c.address == last_of e cs) ≡ false =
      ==_ne _ _ (last_of-All (λ n. c.address ≢ n) e cs d.0) in
    if_false _ _ other ∙ ap (◌∷◌ (c.address, r)) (invoke-reference e cs new r d.1)
