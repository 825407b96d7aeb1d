-- ===== src/DymArray/Memory.antt =====
-- DymArrayCreate and DymArrayDestroy: what they leave in the pool.
use irpmon.Common.{
  ◌+◌, ◌<◌, ◌≡◌, refl, ap, sym, ◌∙◌, ◌⊎◌, inl, inr, Option, none, some, [], arith, false,
}
use irpmon.Kernel.{
  done, PoolType, paged_pool, nonpaged_pool, other_pool, Pool, pool_alloc, pool_free,
  pool_alloc_cases, live-pool_free, one, bytes, fast_mutex, spin_lock, dym_array, success,
  insufficient_resources, nt_success,
}
use irpmon.DymArray.{
  DymArray, Outcome, buffer_bytes, initial_alloc_length, sync_alloc, sync_free, create_data, create,
  destroy,
}
use irpmon.DymArray.Spec.{Represents}

sync_alloc_cases :
    (t : PoolType) (p : Pool)
    → ((sync_alloc t p).0 ≡ success) × ((sync_alloc t p).1.live ≡ p.live + 1)
      ⊎ (nt_success (sync_alloc t p).0 ≡ false) × ((sync_alloc t p).1.live ≡ p.live)
unfolding sync_alloc
sync_alloc_cases paged_pool p = ground (arith, pool_alloc_cases (one fast_mutex) p)
sync_alloc_cases nonpaged_pool p = ground (arith, pool_alloc_cases (one spin_lock) p)
sync_alloc_cases (other_pool n) p = inr (refl, refl)

module _ {A : Type 0} where
  -- An empty array and three more live blocks.
  pub record Made (t : PoolType) (p : Pool) (o : Outcome (Option (DymArray A))) (a : DymArray A)
      : Type 0 where
    pub answer : o.status ≡ success
    pub given : o.result ≡ some a
    pub empty : Represents a []
    pub pool_type : a.pool_type ≡ t
    pub live : o.pool.live ≡ p.live + 3

  -- An error, no array, and no block kept.
  pub record Refused (p : Pool) (o : Outcome (Option (DymArray A))) : Type 0 where
    pub answer : nt_success o.status ≡ false
    pub given : o.result ≡ none
    pub live : o.pool.live ≡ p.live

  create_data_balance :
      (t : PoolType) (p : Pool)
      → 0 < p.live
      → ((a : DymArray A) × ((create_data {A = A} t p).status ≡ success)
          × ((create_data {A = A} t p).result ≡ some a)
          × Represents a []
          × (a.pool_type ≡ t)
          × ((create_data {A = A} t p).pool.live ≡ p.live + 1))
        ⊎ ((create_data {A = A} t p).status ≡ insufficient_resources)
          × ((create_data {A = A} t p).result ≡ none)
          × ((create_data {A = A} t p).pool.live + 1 ≡ p.live)
  unfolding create_data
  create_data_balance t p h =
      let b = bytes (buffer_bytes initial_alloc_length) in
      elim (pool_alloc_cases b p) [
        | inl (e, l) ↦ rw e (
            inl
              (_, refl, refl, record { buffer = refl; fits = omega arith; valid = refl }, refl, l))
        | inr (e, l) ↦ rw e (inr (refl, refl, omega (arith, live-pool_free (pool_alloc b p).1, l)))
      ]

  -- DymArrayCreate gives an empty array of the pool type that was asked for and keeps three blocks,
  -- or it answers an error, gives no array and has freed every block that it got.
  pub create_balance :
      (t : PoolType) (p : Pool)
      → ((a : DymArray A) × Made t p (create t p) a) ⊎ Refused p (create {A = A} t p)
  unfolding create
  create_balance t p =
      let q = (pool_alloc (one dym_array) p).1 in
      let q₂ = (sync_alloc t q).1 in
      elim (pool_alloc_cases (one dym_array) p) [
        | inr (e, l) ↦ rw e (inr (record { answer = refl; given = refl; live = l }))
        | inl (e, l) ↦ rw e (elim (sync_alloc_cases t q) [
          | inr (f, m) ↦ rw f (
              inr (record {
                answer = f;
                given = refl;
                live = omega (arith, live-pool_free q₂, l, m);
              }))
          | inl (f, m) ↦ rw f (elim (create_data_balance t q₂ (omega (arith, l, m))) [
            | inl (a, s, g, r, k, n) ↦ inl (
              a,
              rw s (record {
                answer = refl;
                given = g;
                empty = r;
                pool_type = k;
                live = omega (arith, l, m, n);
              }),
            )
            | inr (s, g, n) ↦ rw s (
                inr (record {
                  answer = refl;
                  given = g;
                  live = omega (arith, live-pool_free (create_data {A = A} t q₂).pool, l, m, n);
                }))
          ])
        ])
      ]

  destroy_by_type :
      (t : PoolType) (p q : Pool) (a : DymArray A)
      → (create {A = A} t p).status ≡ success
      → a.pool_type ≡ t
      → destroy a q ≡ done (pool_free (pool_free (pool_free q)))
  unfolding destroy sync_free create sync_alloc
  destroy_by_type paged_pool p q a m e = rw (e, sync_free)
  destroy_by_type nonpaged_pool p q a m e = rw (e, sync_free)
  destroy_by_type (other_pool n) p q a m e = ground arith

  -- DymArrayDestroy right after a successful DymArrayCreate stops in no bug check and brings the
  -- pool back to the blocks that were live before.
  pub destroy-create :
      (t : PoolType) (p : Pool) (a : DymArray A)
      → (create t p).result ≡ some a
      → (q : Pool) × (destroy a (create {A = A} t p).pool ≡ done q) × (q.live ≡ p.live)
  destroy-create t p a given =
      let r = (create {A = A} t p).pool in
      elim (create_balance t p) [
        | inl (b, m) ↦
            let e : some b ≡ some a = sym m.given ∙ given in
            let same : a ≡ b = cc e in
            (
              pool_free (pool_free (pool_free r)),
              destroy_by_type t p r a m.answer
                  (ap (λ (x : DymArray A). x.pool_type) same ∙ m.pool_type),
              omega (
                arith,
                live-pool_free r,
                live-pool_free (pool_free r),
                live-pool_free (pool_free (pool_free r)),
                m.live,
              ),
            )
        | inr m ↦ cc (m.given, given)
      ]
