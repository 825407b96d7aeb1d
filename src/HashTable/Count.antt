-- ===== src/HashTable/Count.antt =====
-- The counter and the shape of a table of km-shared/hash_table.c under every operation.
use irpmon.Common.{
  ℕ, zero, suc, ◌+◌, ◌<◌, ◌≡◌, refl, ap, sym, ◌∙◌, ◌⊎◌, inl, inr, List, [], ◌∷◌, Option, none, some,
  Bool, get_or, set, map, arith, length, length-set, Bool-cases, All, ◌++◌, true, false,
}
use irpmon.HashTable.{HashOps, HashTable, index, bucket, insert, unlink, unlinked, delete, clear}
use irpmon.HashTable.Lookup.{IsValid, total, index-lt, unlinked_buckets, unlinked_result}

module _ {I : Type 0} where
  pub total-set :
      (bs : List (List I)) (i : ℕ) (c : List I)
      → i < length bs
      → total (set bs i c) + length (get_or bs i []) ≡ total bs + length c
  total-set [] i c h = absurd (omega arith)
  total-set (b ∷ bs) zero c h = omega arith
  total-set (b ∷ bs) (suc i) c h = omega (arith, total-set bs i c (omega arith))

  total-emptied : (bs : List (List I)) → total (map {B = List I} (λ b. []) bs) ≡ 0
  total-emptied [] = refl
  total-emptied (b ∷ bs) = omega (arith, total-emptied bs)

  length-emptied : (bs : List (List I)) → length (map {B = List I} (λ b. []) bs) ≡ length bs
  length-emptied [] = refl
  length-emptied (b ∷ bs) = ap suc (length-emptied bs)

  -- HashTableClear leaves a valid table with no item.
  pub clear-IsValid :
      {S : Type 0} (call_free : Bool) (free : Option (S → I → S)) (t : HashTable I) (s : S)
      → IsValid t
      → IsValid (clear call_free free t s).0 × (total (clear call_free free t s).0.buckets ≡ 0)
  unfolding clear
  clear-IsValid call_free free t s v = (
    record {
      wide = length-emptied t.buckets ∙ v.wide;
      some_bucket = v.some_bucket;
      counted = omega (arith, total-emptied t.buckets);
    },
    total-emptied t.buckets,
  )

module _ {I K : Type 0} (ops : HashOps I K) where
  length-unlink :
      (key : K) (chain : List I) (item : I)
      → (unlink ops key chain).0 ≡ some item
      → length (unlink ops key chain).1 + 1 ≡ length chain
  unfolding unlink
  length-unlink key [] item h = cc
  length-unlink key (x ∷ chain) item h = ground (arith, length-unlink key chain item)

  unlinked-none :
      (t : HashTable I) (key : K) (r : Option I × List I)
      → r.0 ≡ none
      → (unlinked ops t key r).1 ≡ t
  unfolding unlinked
  unlinked-none t key (none, chain) h = refl
  unlinked-none t key (some x, chain) h = cc

  -- HashTableInsert keeps the table valid and adds exactly one item.
  pub insert-IsValid :
      (object : I) (key : K) (t : HashTable I)
      → IsValid t
      → IsValid (insert ops object key t)
        × (total (insert ops object key t).buckets ≡ total t.buckets + 1)
  unfolding insert
  insert-IsValid object key t v =
      let h = index ops t.size key in
      let grown = total-set t.buckets h (object ∷ bucket ops t key) (index-lt ops key t v) in
      (
        record {
          wide = length-set t.buckets h _ ∙ v.wide;
          some_bucket = v.some_bucket;
          counted = omega (arith, grown, v.counted);
        },
        omega (arith, grown),
      )

  abbrev pub Misses : K → I → Type 0
  Misses key x = ops.compare x key ≡ false

  -- The first item of a chain that compares equal to a key, with what stands around it.
  pub record First (key : K) (chain : List I) (item : I) (before after : List I) : Type 0 where
    pub whole : chain ≡ before ++ (item ∷ after)
    pub hit : ops.compare item key ≡ true
    pub earlier : All (Misses key) before

  unlink-First :
      (key : K) (chain : List I)
      → ((unlink ops key chain).0 ≡ none) × All (Misses key) chain
        ⊎ ((item : I) × (before after : List I) × ((unlink ops key chain).0 ≡ some item)
            × ((unlink ops key chain).1 ≡ before ++ after)
            × First key chain item before after)
  unfolding unlink All
  unlink-First key [] = inl (refl, tt)
  unlink-First key (x ∷ chain) = elim (Bool-cases (ops.compare x key)) [
    | inl e ↦ rw e (inr (x, [], chain, refl, refl, record { whole = refl; hit = e; earlier = tt }))
    | inr e ↦ rw e (elim (unlink-First key chain) [
      | inl (gone, misses) ↦ inl (gone, (refl, misses))
      | inr (item, before, after, found, left, f) ↦ inr (
        item,
        x ∷ before,
        after,
        found,
        ap (◌∷◌ x) left,
        record { whole = ap (◌∷◌ x) f.whole; hit = f.hit; earlier = (e, f.earlier) },
      )
    ])
  ]

  -- The answer of HashTableDelete and the table that it leaves. Either no item of the key's bucket
  -- compares equal, and nothing changed; or the first that does is the answer and left its bucket,
  -- and the other buckets are as before.
  pub Deleted : K → HashTable I → Option I → HashTable I → Type 0
  Deleted key t answer left =
      (answer ≡ none) × (left ≡ t) × All (Misses key) (bucket ops t key)
      ⊎ ((item : I) × (before after : List I) × (answer ≡ some item)
          × First key (bucket ops t key) item before after
          × (left.buckets ≡ set t.buckets (index ops t.size key) (before ++ after))
          × (total left.buckets + 1 ≡ total t.buckets))

  -- HashTableDelete keeps the table valid. If an item in the bucket of the key compares equal to it,
  -- the first such item is the answer and the only item that is removed; otherwise the answer is
  -- NULL and the table is unchanged.
  pub delete-IsValid :
      (key : K) (t : HashTable I)
      → IsValid t
      → IsValid (delete ops key t).1 × Deleted key t (delete ops key t).0 (delete ops key t).1
  unfolding delete Deleted
  delete-IsValid key t v =
      let h = index ops t.size key in
      let r = unlink ops key (bucket ops t key) in
      elim (unlink-First key (bucket ops t key)) [
        | inl (e, misses) ↦
            rw (unlinked-none t key r e) (v, inl (unlinked_result ops t key r ∙ e, refl, misses))
        | inr (item, before, after, e, left, f) ↦
            let (bs, size, count) = unlinked_buckets ops t key r item e in
            let shrunk = total-set t.buckets h r.1 (index-lt ops key t v) in
            let less = length-unlink key (bucket ops t key) item e in
            let fewer : total (set t.buckets h r.1) + 1 ≡ total t.buckets =
              omega (arith, shrunk, less) in
            (
              record {
                wide = ap length bs ∙ length-set t.buckets h r.1 ∙ v.wide ∙ sym size;
                some_bucket = omega (arith, size, v.some_bucket);
                counted = omega (arith, count, fewer, v.counted, ap total bs);
              },
              inr (
                item,
                before,
                after,
                unlinked_result ops t key r ∙ e,
                f,
                bs ∙ ap (set t.buckets h) left,
                omega (arith, fewer, ap total bs),
              ),
            )
      ]
