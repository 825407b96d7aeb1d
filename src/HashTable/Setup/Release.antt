-- ===== src/HashTable/Setup/Release.antt =====
-- What HashTableCreate keeps when it fails, and what HashTableDestroy gives back.
use irpmon.Common.{
  ℕ, ◌+◌, ◌*◌, ◌^◌, ◌<◌, ◌≡◌, ◌≢◌, refl, ap, sym, ◌∙◌, ◌⊎◌, inl, inr, Option, none, some, Bool,
  true, false, lt→ltb, arith,
}
use irpmon.Kernel.{
  Status, unsuccessful, nt_success, pool_alloc, pool_free, pool_alloc_cases, live-pool_free,
  with_tail, array, eresource, hash_table,
}
use irpmon.HashTable.{
  TableType, passive_level, dispatch_level, no_synchronization, other_type, HashTable,
}
use irpmon.HashTable.Setup.{
  Services, rounds, init_resources, sync_alloc, sync_free, is_known, argument_error, Creation,
  finish_create, create, destroy,
}
use irpmon.HashTable.Setup.Balance.{
  Holds, lock_blocks, lock_resources, create-Built, began, sync_alloc_failure,
  init_resources_failure, finish_create-none,
}

destroy_services :
    {I S : Type 0} (free : Option (S → I → S)) (t : HashTable I) (s : Services) (x : S)
    → (destroy free t s x).0
      ≡ record (sync_free t.type t.size s) { pool = pool_free (sync_free t.type t.size s).pool }
unfolding destroy
destroy_services none t s x = refl
destroy_services (some free) t s x = refl

released :
    (type : TableType) (size : ℕ) (s₀ s : Services)
    → Holds (1 + lock_blocks type) (lock_resources type size) s₀ s
    → Holds 0 0 s₀
        (record (sync_free type size s) { pool = pool_free (sync_free type size s).pool })
unfolding sync_free pool_free
released passive_level size s₀ s h = record {
  live = omega (arith, h.live);
  initialised = omega (arith, h.initialised);
}
released dispatch_level size s₀ s h = record {
  live = omega (arith, h.live);
  initialised = omega (arith, h.initialised);
}
released no_synchronization size s₀ s h = record {
  live = omega (arith, h.live);
  initialised = omega (arith, h.initialised);
}
released (other_type n) size s₀ s h = record {
  live = omega (arith, h.live);
  initialised = omega (arith, h.initialised);
}

module _ {I : Type 0} (answer : ℕ → Status) (type : TableType) (size : ℕ) (s : Services) where
  module _ (has_hash has_compare : Bool) where
    abbrev tried : Creation I
    tried = create answer type size has_hash has_compare s

    refused_early :
        tried.table ≡ none
        → Holds 0 0 s tried.services × (nt_success tried.status ≡ false)
          ⊎ (tried ≡ finish_create type size (sync_alloc answer type size (began size s)))
            × ((began size s).pool.live ≡ s.pool.live + 1)
    unfolding create argument_error
    refused_early h = ground (arith, pool_alloc_cases (with_tail hash_table (size * 8)) s.pool)

    -- A failed HashTableCreate answers an error; unless the table was to be a passive one, it has
    -- given back every block and every resource.
    pub create_refused :
        tried.table ≡ none
        → (nt_success tried.status ≡ false) × (type ≢ passive_level → Holds 0 0 s tried.services)
    create_refused h = elim (refused_early h) [
      | inl (held, bad) ↦ (bad, λ _. held)
      | inr (e, own) ↦
          let r = sync_alloc answer type size (began size s) in
          let (bad, services, status) =
            finish_create-none type size r (ap (λ (c : Creation I). c.table) (sym e) ∙ h) in
          (
            ap (λ (c : Creation I). nt_success c.status) e ∙ ap nt_success status ∙ bad,
            λ other.
                let locks = sync_alloc_failure answer type size (began size s) other bad in
                let all : tried.services ≡ record r.1 { pool = pool_free r.1.pool } =
                  ap (λ (c : Creation I). c.services) e ∙ services in
                rw all (record {
                  live = omega (arith, locks.live, own, live-pool_free r.1.pool);
                  initialised = locks.initialised;
                }),
          )
    ]

    -- HashTableDestroy right after HashTableCreate brings the pool and the resources back to what
    -- they were, whatever the type of the table.
    pub destroy-create_table :
        {S : Type 0} (free : Option (S → I → S)) (t : HashTable I) (x : S)
        → tried.table ≡ some t
        → Holds 0 0 s (destroy free t tried.services x).0
    destroy-create_table free t x h =
        let built = create-Built answer type size s has_hash has_compare t h in
        let (e, k, _) = built.asked in
        rw (destroy_services free t tried.services x, e, k)
          (released type size s tried.services built.taken)

-- A passive table one of whose locks cannot be initialised: HashTableCreate answers the error of
-- that lock and gives the resources before it back, but the array of the locks stays allocated.
pub create_leaks :
    (I : Type 0) (answer : ℕ → Status) (size k : ℕ) (s : Services)
    → k < size
    → size < 2 ^ 31
    → (pool_alloc (with_tail hash_table (size * 8)) s.pool).0 ≡ true
    → (pool_alloc (array size eresource) (began size s).pool).0 ≡ true
    → ((j : ℕ) → j < k → nt_success (answer j) ≡ true)
    → nt_success (answer k) ≡ false
    → ((create {I = I} answer passive_level size true true s).status ≡ answer k)
      × Holds 1 0 s (create {I = I} answer passive_level size true true s).services
unfolding create sync_alloc finish_create is_known
create_leaks I answer size k s lt small own locks good bad =
    let b = began size s in
    let q = (pool_alloc (array size eresource) b.pool).1 in
    let zero_k : 0 + k ≡ k = omega arith in
    let all : rounds size ≡ size = rw (lt→ltb size (2 ^ 31) small) in
    let stopped : init_resources answer (rounds size) 0 (unsuccessful, record b { pool = q })
        ≡ (answer k, record { pool = q; resources = s.resources }) =
      rw all (
        init_resources_failure answer k size 0 unsuccessful (record b { pool = q }) s.resources lt
          (λ j l. let e : 0 + j ≡ j = omega arith in rw e (good j l)) (rw zero_k bad) (omega arith)
        ∙ ap (λ j. (answer j, record { pool = q; resources = s.resources })) zero_k) in
    let failed : sync_alloc answer passive_level size b
        ≡ (answer k, record { pool = q; resources = s.resources }) =
      rw (sync_alloc, locks) stopped in
    let first : b.pool.live ≡ s.pool.live + 1 =
      ground (arith, own, pool_alloc_cases (with_tail hash_table (size * 8)) s.pool) in
    let second : q.live ≡ b.pool.live + 1 =
      ground (arith, locks, pool_alloc_cases (array size eresource) b.pool) in
    rw (lt→ltb 0 size (omega arith), own, failed, finish_create, bad)
      (
        refl,
        record { live = omega (arith, live-pool_free q, first, second); initialised = omega arith },
      )
