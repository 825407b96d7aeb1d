-- ===== src/HashTable/Setup/Balance.antt =====
-- What HashTableCreate and HashTableDestroy take and give back.
use irpmon.Common.{
  ℕ, zero, suc, ◌+◌, ◌-◌, ◌*◌, ◌<◌, ◌≡◌, ◌≢◌, refl, ap, sym, ◌∙◌, inl, inr, [], none, some, Bool,
  true, false, replicate, arith, Bool-cases, length-replicate,
}
use irpmon.Kernel.{
  Status, unsuccessful, nt_success, pool_alloc, pool_free, pool_alloc_cases, live-pool_free,
  with_tail, array, eresource, boolean, spin_lock, hash_table,
}
use irpmon.HashTable.{
  TableType, passive_level, dispatch_level, no_synchronization, other_type, HashTable,
}
use irpmon.HashTable.Lookup.{IsValid, total}
use irpmon.HashTable.Setup.{
  Services, rounds, init_resources, sync_alloc, Creation, empty_table, finish_create, create,
}

-- The blocks and the resources that the locks of a table occupy.
abbrev pub lock_blocks : TableType → ℕ
lock_blocks passive_level = 1
lock_blocks dispatch_level = 2
lock_blocks no_synchronization = 0
lock_blocks (other_type n) = 0

abbrev pub lock_resources : TableType → ℕ → ℕ
lock_resources passive_level size = rounds size
lock_resources _ size = 0

-- `s` has so many more blocks and resources than `s₀`.
pub record Holds (blocks resources : ℕ) (s₀ s : Services) : Type 0 where
  pub live : s.pool.live ≡ s₀.pool.live + blocks
  pub initialised : s.resources ≡ s₀.resources + resources

module _ (answer : ℕ → Status) where
  init_step :
      (n i : ℕ) (status : Status) (s : Services)
      → nt_success (answer i) ≡ true
      → init_resources answer (suc n) i (status, s)
        ≡ init_resources answer n (i + 1) (answer i, record s { resources = s.resources + 1 })
  unfolding init_resources
  init_step n i status s e = rw e

  init_stop :
      (n i : ℕ) (status : Status) (s : Services)
      → nt_success (answer i) ≡ false
      → init_resources answer (suc n) i (status, s)
        ≡ (answer i, record s { resources = s.resources - i })
  unfolding init_resources
  init_stop n i status s e = rw e

  init_resources_success :
      (n i : ℕ) (status : Status) (s : Services)
      → nt_success (init_resources answer n i (status, s)).0 ≡ true
      → Holds 0 n s (init_resources answer n i (status, s)).1
  unfolding init_resources
  init_resources_success zero i status s h = record {
    live = omega arith;
    initialised = omega arith;
  }
  init_resources_success (suc n) i status s h = elim (Bool-cases (nt_success (answer i))) [
    | inr e ↦ cc (e, h, init_stop n i status s e)
    | inl e ↦
        let step = init_step n i status s e in
        let s' : Services = record s { resources = s.resources + 1 } in
        let rest =
          init_resources_success n (i + 1) (answer i) s'
            (ap (λ r. nt_success r.0) (sym step) ∙ h) in
        rw step (record { live = rest.live; initialised = omega (arith, rest.initialised) })
  ]

  -- The first lock that cannot be initialised: its status, every resource given back, the pool as
  -- it was when the loop began.
  pub init_resources_failure :
      (k n i : ℕ) (status : Status) (s : Services) (before : ℕ)
      → k < n
      → ((j : ℕ) → j < k → nt_success (answer (i + j)) ≡ true)
      → nt_success (answer (i + k)) ≡ false
      → s.resources ≡ before + i
      → init_resources answer n i (status, s)
        ≡ (answer (i + k), record { pool = s.pool; resources = before })
  init_resources_failure k zero i status s before lt good bad e = absurd (omega arith)
  init_resources_failure zero (suc n) i status s before lt good bad e =
      let here : i + 0 ≡ i = omega arith in
      let r : s.resources - i ≡ before = omega (arith, e) in
      rw here (
        init_stop n i status s (ap (λ j. nt_success (answer j)) (sym here) ∙ bad)
        ∙ ap (λ x. (answer i, record { pool = s.pool; resources = x })) r)
  init_resources_failure (suc k) (suc n) i status s before lt good bad e =
      let first : i + 0 ≡ i = omega arith in
      let shift : i + suc k ≡ i + 1 + k = omega arith in
      init_step n i status s (ap (λ j. nt_success (answer j)) (sym first) ∙ good 0 (omega arith))
      ∙ init_resources_failure k n (i + 1) (answer i) _ before (omega arith)
          (λ j l.
            let e' : i + 1 + j ≡ i + suc j = omega arith in rw e' (good (suc j) (omega arith)))
          (rw (← shift) bad) (omega (arith, e))
      ∙ ap (λ j. (answer j, record { pool = s.pool; resources = before })) (sym shift)

  sync_alloc_success :
      (type : TableType) (size : ℕ) (s : Services)
      → nt_success (sync_alloc answer type size s).0 ≡ true
      → Holds (lock_blocks type) (lock_resources type size) s (sync_alloc answer type size s).1
  unfolding sync_alloc
  sync_alloc_success passive_level size s h =
      let b = array size eresource in
      let start : Services = record s { pool = (pool_alloc b s.pool).1 } in
      ground (
        arith,
        pool_alloc_cases b s.pool,
        init_resources_success (rounds size) 0 unsuccessful start,
      )
  sync_alloc_success dispatch_level size s h =
      let p₁ = (pool_alloc (array size boolean) s.pool).1 in
      ground (
        arith,
        pool_alloc_cases (array size boolean) s.pool,
        pool_alloc_cases (array size spin_lock) p₁,
      )
  sync_alloc_success no_synchronization size s h = record {
    live = omega arith;
    initialised = omega arith;
  }
  sync_alloc_success (other_type n) size s h = cc

  -- Tables whose locks are not resources give every block back when their locks cannot be made.
  pub sync_alloc_failure :
      (type : TableType) (size : ℕ) (s : Services)
      → type ≢ passive_level
      → nt_success (sync_alloc answer type size s).0 ≡ false
      → Holds 0 0 s (sync_alloc answer type size s).1
  unfolding sync_alloc
  sync_alloc_failure passive_level size s ne h = absurd (ne refl)
  sync_alloc_failure dispatch_level size s ne h =
      let p₁ = (pool_alloc (array size boolean) s.pool).1 in
      let p₂ = (pool_alloc (array size spin_lock) p₁).1 in
      ground (
        arith,
        pool_alloc_cases (array size boolean) s.pool,
        pool_alloc_cases (array size spin_lock) p₁,
        live-pool_free p₂,
      )
  sync_alloc_failure no_synchronization size s ne h = cc
  sync_alloc_failure (other_type n) size s ne h = record {
    live = omega arith;
    initialised = omega arith;
  }

module _ {I : Type 0} where
  finish_create_table :
      (type : TableType) (size : ℕ) (r : Status × Services) {t : HashTable I}
      → (finish_create {I = I} type size r).table ≡ some t
      → (nt_success r.0 ≡ true)
        × (t ≡ empty_table type size)
        × ((finish_create {I = I} type size r).services ≡ r.1)
        × ((finish_create {I = I} type size r).status ≡ r.0)
  unfolding finish_create
  finish_create_table type size (status, s) h = ground arith

  pub finish_create-none :
      (type : TableType) (size : ℕ) (r : Status × Services)
      → (finish_create {I = I} type size r).table ≡ none
      → (nt_success r.0 ≡ false)
        × ((finish_create {I = I} type size r).services ≡ record r.1 { pool = pool_free r.1.pool })
        × ((finish_create {I = I} type size r).status ≡ r.0)
  unfolding finish_create
  finish_create-none type size (status, s) h = ground arith

total-replicate : (I : Type 0) (n : ℕ) → total {A = I} (replicate n []) ≡ 0
total-replicate I zero = refl
total-replicate I (suc n) = omega (arith, total-replicate I n)

-- The services behind the allocation of the table's own block.
abbrev pub began : ℕ → Services → Services
began size s = record s { pool = (pool_alloc (with_tail hash_table (size * 8)) s.pool).1 }

module _ {I : Type 0} (answer : ℕ → Status) (type : TableType) (size : ℕ) (s : Services) where
  -- A creation that gives a table: it succeeds with an empty, valid table of the size and type that
  -- were asked for, which occupies its own block and its locks.
  pub record Built (c : Creation I) (t : HashTable I) : Type 0 where
    pub answered : nt_success c.status ≡ true
    pub valid : IsValid t
    pub no_items : total t.buckets ≡ 0
    pub asked : (t.size ≡ size) × (t.type ≡ type) × (t.number_of_items ≡ 0)
    pub taken : Holds (1 + lock_blocks type) (lock_resources type size) s c.services

  module _ (has_hash has_compare : Bool) where
    abbrev made : Creation I
    made = create answer type size has_hash has_compare s

    create_reaches :
        {t : HashTable I}
        → made.table ≡ some t
        → (0 < size)
          × ((pool_alloc (with_tail hash_table (size * 8)) s.pool).0 ≡ true)
          × (made ≡ finish_create type size (sync_alloc answer type size (began size s)))
    unfolding create
    create_reaches h = ground arith

    -- HashTableCreate that gives a table gives an empty valid one of the type and size asked for,
    -- and says success.
    pub create-Built : (t : HashTable I) → made.table ≡ some t → Built made t
    create-Built t h =
        let (pos, granted, e) = create_reaches h in
        let r = sync_alloc answer type size (began size s) in
        let (fine, same, services, status) =
          finish_create_table type size r (ap (λ (c : Creation I). c.table) (sym e) ∙ h) in
        let locks = sync_alloc_success answer type size (began size s) fine in
        let all : made.services ≡ r.1 = ap (λ (c : Creation I). c.services) e ∙ services in
        let own = pool_alloc_cases (with_tail hash_table (size * 8)) s.pool in
        let one_more : (began size s).pool.live ≡ s.pool.live + 1 = ground (arith, own) in
        record {
          answered = ap (λ (c : Creation I). nt_success c.status) e ∙ ap nt_success status ∙ fine;
          valid = rw same (record {
            wide = length-replicate size [];
            some_bucket = pos;
            counted = omega (arith, total-replicate I size);
          });
          no_items = rw same (total-replicate I size);
          asked = rw same (refl, refl, refl);
          taken = rw all (record {
            live = omega (arith, locks.live, one_more);
            initialised = locks.initialised;
          });
        }
