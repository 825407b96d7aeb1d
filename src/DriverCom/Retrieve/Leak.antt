-- ===== src/DriverCom/Retrieve/Leak.antt =====
-- The blocks of DriverComSnapshotRetrieve and DriverComSnapshotFree.
use irpmon.Common.{
  ℕ, ◌+◌, ◌*◌, ◌≤◌, ◌≡◌, ◌∙◌, List, [], ◌∷◌, length, ◌==◌, false, if_intro, inl, inr, arith,
}
use irpmon.Kernel.{Pool, Block, with_tail, irpmon_device_info, pool_alloc_cases}
use irpmon.UmServices.Snapshot.{Field, pointer, ulong, text}
use irpmon.DriverCom.{
  Read, parsed, failed, garbled, astray, read_then, on_failure, allocate, allocate_last,
}
use irpmon.DriverCom.Retrieve.{take_pointer, take_ulong, take_text, retrieve_device}

-- A result has so many blocks over `start`; a failure leaves the blocks from `start` to `start`
-- and `extra` more.
unfoldable pub Leaves {ℓ} : {A : Type ℓ} → (A → ℕ) → ℕ → ℕ → ℕ → Read A → Type 0
Leaves cost base start extra (parsed a p) = p.live ≡ base + cost a
Leaves cost base start extra (failed p) = (start ≤ p.live) × (p.live ≤ start + extra)
Leaves cost base start extra garbled = Unit
Leaves cost base start extra astray = ⊥

pub read_then-Leaves {ℓ ℓ'} :
    {A : Type ℓ} {B : Type ℓ'} (cost : A → ℕ) (base : ℕ) (cost' : B → ℕ)
    (base' start extra extra' : ℕ) (r : Read A) (f : A → Pool → Read B)
    → extra ≤ extra'
    → Leaves cost base start extra r
    → ((a : A) (p : Pool) → p.live ≡ base + cost a → Leaves cost' base' start extra' (f a p))
    → Leaves cost' base' start extra' (read_then r f)
unfolding Leaves read_then
read_then-Leaves cost base cost' base' start extra extra' (parsed a p) f l h k = k a p h
read_then-Leaves cost base cost' base' start extra extra' (failed p) f l h k =
    (h.0, omega (arith, h.1))
read_then-Leaves cost base cost' base' start extra extra' garbled f l h k = tt
read_then-Leaves cost base cost' base' start extra extra' astray f l h k = h

-- A failure is undone by freeing so many blocks.
pub on_failure-Leaves {ℓ} :
    {A : Type ℓ} (cost : A → ℕ) (base start extra blocks : ℕ) (undo : Pool → Pool) (r : Read A)
    → ((p : Pool) → blocks ≤ p.live → (undo p).live + blocks ≡ p.live)
    → Leaves cost base (start + blocks) extra r
    → Leaves cost base start extra (on_failure undo r)
unfolding Leaves on_failure
on_failure-Leaves cost base start extra blocks undo (parsed a p) k h = h
on_failure-Leaves cost base start extra blocks undo (failed p) k (low, high) =
    let undone = k p (omega arith) in (omega arith, omega arith)
on_failure-Leaves cost base start extra blocks undo garbled k h = tt
on_failure-Leaves cost base start extra blocks undo astray k h = h

abbrev pub nothing {ℓ} : {A : Type ℓ} → A → ℕ
nothing a = 0

pub pointer-Leaves :
    (fs : List Field) (start : ℕ) (p : Pool)
    → p.live ≡ start
    → Leaves nothing start start 0 (take_pointer fs p)
unfolding Leaves take_pointer
pointer-Leaves [] start p h = tt
pointer-Leaves (pointer n ∷ fs) start p h = omega arith
pointer-Leaves (ulong n ∷ fs) start p h = tt
pointer-Leaves (text n ∷ fs) start p h = tt

pub ulong-Leaves :
    (fs : List Field) (start : ℕ) (p : Pool)
    → p.live ≡ start
    → Leaves nothing start start 0 (take_ulong fs p)
unfolding Leaves take_ulong
ulong-Leaves [] start p h = tt
ulong-Leaves (pointer n ∷ fs) start p h = tt
ulong-Leaves (ulong n ∷ fs) start p h = omega arith
ulong-Leaves (text n ∷ fs) start p h = tt

pub text-Leaves :
    (n : ℕ) (fs : List Field) (start : ℕ) (p : Pool)
    → p.live ≡ start
    → Leaves nothing start start 0 (take_text n fs p)
unfolding Leaves take_text
text-Leaves n [] start p h = tt
text-Leaves n (pointer k ∷ fs) start p h = tt
text-Leaves n (ulong k ∷ fs) start p h = tt
text-Leaves n (text t ∷ fs) start p h =
    if_intro (Leaves nothing start start 0) (2 * length t == n) (omega arith) tt

pub allocate-Leaves :
    (b : Block) (start : ℕ) (p : Pool)
    → p.live ≡ start
    → Leaves nothing (start + 1) start 0 (allocate b p)
unfolding Leaves allocate
allocate-Leaves b start p h = elim (pool_alloc_cases b p) [
  | inl (e, n) ↦ rw e (n ∙ omega arith)
  | inr (e, n) ↦ rw e (omega arith, omega arith)
]

pub allocate_last-Leaves :
    (last : ℕ) (b : Block) (start : ℕ) (p : Pool)
    → (last == 0) ≡ false
    → p.live ≡ start
    → Leaves nothing (start + 1) start 0 (allocate_last last b p)
unfolding Leaves allocate_last
allocate_last-Leaves last b start p err h = elim (pool_alloc_cases b p) [
  | inl (e, n) ↦ rw e (n ∙ omega arith)
  | inr (e, n) ↦ rw (e, err) (omega arith, omega arith)
]

pub retrieve_device-Leaves :
    (fs : List Field) (start : ℕ) (p : Pool)
    → p.live ≡ start
    → Leaves nothing (start + 1) start 0 (retrieve_device fs p)
unfolding retrieve_device Leaves
retrieve_device-Leaves fs s p h =
    read_then-Leaves nothing s nothing (s + 1) s 0 0 _ _ (omega arith) (pointer-Leaves fs s p h)
      (λ o p1 h1.
        read_then-Leaves nothing s nothing (s + 1) s 0 0 _ _ (omega arith)
          (pointer-Leaves o.1 s p1 (omega arith))
          (λ a p2 h2.
            read_then-Leaves nothing s nothing (s + 1) s 0 0 _ _ (omega arith)
              (ulong-Leaves a.1 s p2 (omega arith))
              (λ n p3 h3.
                read_then-Leaves nothing s nothing (s + 1) s 0 0 _ _ (omega arith)
                  (text-Leaves n.0 n.1 s p3 (omega arith))
                  (λ t p4 h4.
                    read_then-Leaves nothing (s + 1) nothing (s + 1) s 0 0 _ _ (omega arith)
                      (allocate-Leaves (with_tail irpmon_device_info (n.0 + 2)) s p4 (omega arith))
                      (λ u p5 h5. h5)))))
