-- ===== src/HashTable/Lookup.antt =====
-- Insertion, deletion and lookup of km-shared/hash_table.c against each other.
use irpmon.Common.{
  ℕ, ◌+◌, ◌-◌, ◌%◌, ◌^◌, ◌<◌, ◌≡◌, refl, ap, sym, ◌∙◌, inl, inr, List, [], ◌∷◌, Option, none, some,
  true, false, if◌then◌else◌, get_or, set, arith, length, get_or-set, get_or-set_self, set-set_back,
  Bool-cases, ==_iff, ◌==◌,
}
use irpmon.HashTable.{
  HashOps, HashTable, index, bucket, insert, unlink, unlinked, delete, find, get,
}

-- The number of items in the buckets.
abbrev pub total {ℓ} : {A : Type ℓ} → List (List A) → ℕ
total [] = 0
total (b ∷ bs) = length b + total bs

-- The shape of a table: as many buckets as its size says, at least one, and a counter that agrees
-- with the number of items, in 32 bits.
pub record IsValid {I : Type 0} (t : HashTable I) : Type 0 where
  pub wide : length t.buckets ≡ t.size
  pub some_bucket : 0 < t.size
  pub counted : t.number_of_items ≡ total t.buckets % 2 ^ 32

module _ {I K : Type 0} (ops : HashOps I K) where
  pub index-lt : (key : K) (t : HashTable I) → IsValid t → index ops t.size key < length t.buckets
  unfolding index
  index-lt key t v = omega (arith, v.wide, v.some_bucket)

  index-eq : (size : ℕ) (k q : K) → ops.hash k ≡ ops.hash q → index ops size k ≡ index ops size q
  unfolding index
  index-eq size k q e = rw e

  -- One item compares equal only to keys of one hash.
  abbrev pub HashAgrees : I → Type 0
  HashAgrees i =
      (k q : K) → ops.compare i k ≡ true → ops.compare i q ≡ true → ops.hash k ≡ ops.hash q

  -- A lookup after HashTableInsert finds the new item under every key that it compares equal to,
  -- and otherwise what was there before.
  pub get-insert :
      (object : I) (key q : K) (t : HashTable I)
      → IsValid t
      → HashAgrees object
      → ops.compare object key ≡ true
      → get ops q (insert ops object key t)
        ≡ (if ops.compare object q then some object else get ops q t)
  unfolding get insert find
  get-insert object key q t v agrees mine =
      let h = index ops t.size key in
      let i = index ops t.size q in
      rw (get_or-set t.buckets h i (object ∷ bucket ops t key) [] (index-lt key t v))
        (elim (Bool-cases (h == i)) [
          | inl e ↦ rw e (
              let same : h ≡ i = (==_iff h i).0 e in
              ap
                (λ k.
                  if ops.compare object q then some object else find ops q (get_or t.buckets k []))
                same)
          | inr ne ↦ rw ne (elim (Bool-cases (ops.compare object q)) [
            | inr other ↦ rw other
            | inl hit ↦ cc ((==_iff h i).1 (index-eq t.size key q (agrees key q mine hit)), ne)
          ])
        ])

  -- HashTableDelete right after HashTableInsert returns the item and puts the table back as it was.
  pub delete-insert :
      (object : I) (key : K) (t : HashTable I)
      → IsValid t
      → t.number_of_items + 1 < 2 ^ 32
      → ops.compare object key ≡ true
      → delete ops key (insert ops object key t) ≡ (some object, t)
  unfolding delete insert unlinked unlink
  delete-insert object key t v small mine =
      let h = index ops t.size key in
      let chain = bucket ops t key in
      let back = set-set_back t.buckets h (object ∷ chain) [] in
      let count : ((t.number_of_items + 1) % 2 ^ 32 + 2 ^ 32 - 1) % 2 ^ 32 ≡ t.number_of_items =
        omega arith in
      rw
        (get_or-set_self t.buckets h (object ∷ chain) [] (index-lt key t v), unlink, mine, unlinked)
        (λ i. (some object, record t { buckets = back i; number_of_items = count i }))

  unlink-find : (key : K) (chain : List I) → (unlink ops key chain).0 ≡ find ops key chain
  unfolding unlink find
  unlink-find key [] = refl
  unlink-find key (x ∷ chain) = ground (arith, unlink-find key chain)

  pub unlinked_result :
      (t : HashTable I) (key : K) (r : Option I × List I) → (unlinked ops t key r).0 ≡ r.0
  unfolding unlinked
  unlinked_result t key (none, chain) = refl
  unlinked_result t key (some item, chain) = refl

  -- HashTableDelete returns what HashTableGet would return.
  pub delete-get : (key : K) (t : HashTable I) → (delete ops key t).0 ≡ get ops key t
  unfolding delete get
  delete-get key t = unlinked_result t key _ ∙ unlink-find key (bucket ops t key)

  find-unlink_other :
      (key q : K) (chain : List I) (item : I)
      → (unlink ops key chain).0 ≡ some item
      → ops.compare item q ≡ false
      → find ops q (unlink ops key chain).1 ≡ find ops q chain
  unfolding unlink find
  find-unlink_other key q [] item h other = refl
  find-unlink_other key q (x ∷ chain) item h other =
      ground (arith, find-unlink_other key q chain item)

  pub unlinked_buckets :
      (t : HashTable I) (key : K) (r : Option I × List I) (item : I)
      → r.0 ≡ some item
      → ((unlinked ops t key r).1.buckets ≡ set t.buckets (index ops t.size key) r.1)
        × ((unlinked ops t key r).1.size ≡ t.size)
        × ((unlinked ops t key r).1.number_of_items ≡ (t.number_of_items + 2 ^ 32 - 1) % 2 ^ 32)
  unfolding unlinked
  unlinked_buckets t key (none, chain) item h = cc
  unlinked_buckets t key (some x, chain) item h = (refl, refl, refl)

  -- HashTableDelete leaves every key alone that the deleted item does not compare equal to.
  pub get-delete_other :
      (key q : K) (t : HashTable I) (item : I)
      → IsValid t
      → (delete ops key t).0 ≡ some item
      → ops.compare item q ≡ false
      → get ops q (delete ops key t).1 ≡ get ops q t
  unfolding delete get
  get-delete_other key q t item v hit other =
      let r = unlink ops key (bucket ops t key) in
      let found : r.0 ≡ some item = sym (unlinked_result t key r) ∙ hit in
      let (bs, size, _) = unlinked_buckets t key r item found in
      let h = index ops t.size key in
      let i = index ops t.size q in
      rw (bs, size, get_or-set t.buckets h i r.1 [] (index-lt key t v))
        (elim (Bool-cases (h == i)) [
          | inl e ↦ rw e (
              find-unlink_other key q (bucket ops t key) item found other
              ∙ ap (λ k. find ops q (get_or t.buckets k [])) ((==_iff h i).0 e))
          | inr ne ↦ rw ne
        ])
