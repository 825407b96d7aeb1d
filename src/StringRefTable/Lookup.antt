-- ===== src/StringRefTable/Lookup.antt =====
-- What insertions into the table of km-shared/string-ref-table.c lead lookups to.
use irpmon.Common.{
  ℕ, ◌%◌, ◌<◌, ◌≡◌, refl, List, [], ◌∷◌, Option, none, some, true, false, arith, ap, ◌∙◌, ==_iff,
  length, get_or-set_self, if_true,
}
use irpmon.Kernel.{Status, nt_success}
use irpmon.StringRefTable.{
  Strings, Owner, Key, Item, Table, later, keys_equal, chain_walk, bucket, put, insert_found,
  insert_hashed, insert, get_found, get_hashed, get,
}

-- The array has as many buckets as the table counts, and at least one.
pub record Sized {Str : Type 0} (t : Table Str) : Type 0 where
  pub wide : length t.buckets ≡ t.bucket_count
  pub some_bucket : 0 < t.bucket_count

module _ {Str : Type 0} (strs : Strings Str) where
  -- Keys of one hash are equal, whatever their strings.
  keys_equal-hash : (k₁ k₂ : Key Str) → k₁.hash ≡ k₂.hash → keys_equal strs k₁ k₂ ≡ true
  unfolding keys_equal
  keys_equal-hash k₁ k₂ e = rw ((==_iff k₁.hash k₂.hash).1 e) refl

  -- A walk over a chain with a new first item of the key's hash.
  walk-first :
      (key : Key Str) (c : Item Str) (cs : List (Item Str))
      → c.key.hash ≡ key.hash
      → (chain_walk strs false false key (c ∷ cs)).0
        ≡ later (chain_walk strs false false key cs).0 c
  unfolding chain_walk
  walk-first key c cs e =
      ap {A = Option (Item Str) × List (Item Str)} (λ p. p.0)
        (if_true _ _ (keys_equal-hash c.key key e))

  walk-empty : (key : Key Str) → (chain_walk strs false false key []).0 ≡ none
  unfolding chain_walk
  walk-empty key = refl

  bucket-put :
      (h : ℕ) (chain : List (Item Str)) (t : Table Str)
      → Sized t
      → bucket strs h (put strs h chain t) ≡ chain
  unfolding put
  bucket-put h chain t v =
      get_or-set_self t.buckets (h % t.bucket_count) chain [] (omega (arith, v.wide, v.some_bucket))

module _ {Str S : Type 0} (strs : Strings Str) (owner : Owner S) where
  get_found-insert_found :
      (o : Option (Item Str)) (c : Item Str) (t : Table Str) (s x : S)
      → Sized t
      → (chain_walk strs false false c.key (bucket strs c.key.hash t)).0 ≡ o
      → (get_found strs owner
          (chain_walk strs false false c.key
            (bucket strs c.key.hash (insert_found strs owner o c t s).table)).0
          (insert_found strs owner o c t s).table
          x).object
        ≡ (insert_found strs owner o c t s).object
  unfolding insert_found get_found later
  get_found-insert_found none c t s x v e =
      let chain = bucket strs c.key.hash t in
      let walked : (chain_walk strs false false c.key
            (bucket strs c.key.hash (put strs c.key.hash (c ∷ chain) t))).0
          ≡ some c =
        ap (λ b. (chain_walk strs false false c.key b).0)
          (bucket-put strs c.key.hash (c ∷ chain) t v)
        ∙ (walk-first strs c.key c chain refl ∙ ap (λ o. later o c) e) in
      ap (λ o. (get_found strs owner o (put strs c.key.hash (c ∷ chain) t) x).object) walked
  get_found-insert_found (some y) c t s x v e = ap (λ o. (get_found strs owner o t x).object) e

  get_hashed-insert_hashed :
      (hashed : Status × ℕ) (object : ℕ) (string : Str) (t : Table Str) (s x : S)
      → Sized t
      → nt_success hashed.0 ≡ true
      → (get_hashed strs owner hashed string
          (insert_hashed strs owner hashed object string t s).table
          x).object
        ≡ (insert_hashed strs owner hashed object string t s).object
  unfolding get_hashed insert_hashed
  get_hashed-insert_hashed hashed object string t s x v ok = rw ok (
      get_found-insert_found _
        (record { object = object; key = record { string = string; hash = hashed.1 } }) t s x v
        refl)

  -- StringRefTableGet finds, under a string that was just inserted, the object that
  -- StringRefTableInsert answered: the new one, or the one that was there.
  pub get-insert_string :
      (object : ℕ) (string : Str) (t : Table Str) (s x : S)
      → Sized t
      → nt_success (strs.hash string).0 ≡ true
      → (get strs owner string (insert strs owner object string t s).table x).object
        ≡ (insert strs owner object string t s).object
  unfolding get insert
  get-insert_string object string t s x v ok =
      get_hashed-insert_hashed (strs.hash string) object string t s x v ok

  insert_hashed-empty :
      (st : Status) (h a : ℕ) (string : Str) (t : Table Str) (s : S)
      → nt_success st ≡ true
      → bucket strs h t ≡ []
      → (insert_hashed strs owner (st, h) a string t s).table
        ≡ put strs h (record { object = a; key = record { string = string; hash = h } } ∷ []) t
  unfolding insert_hashed insert_found chain_walk
  insert_hashed-empty st h a string t s ok e = rw (ok, e) (rw e refl)

  insert_hashed-second :
      (b h : ℕ) (st : Status) (second : Str) (c : Item Str) (t : Table Str) (x : S)
      → nt_success st ≡ true
      → c.key.hash ≡ h
      → bucket strs h t ≡ c ∷ []
      → insert_hashed strs owner (st, h) b second t x
        ≡ record { object = some c.object; table = t; state = owner.reference c.object x }
  unfolding insert_hashed insert_found later
  insert_hashed-second b h st second c t x ok same e =
      let key : Key Str = record { string = second; hash = h } in
      let new : Item Str = record { object = b; key = key } in
      let found : (chain_walk strs false false key (bucket strs h t)).0 ≡ some c =
        ap (λ l. (chain_walk strs false false key l).0) e
        ∙ (walk-first strs key c [] same ∙ ap (λ o. later o c) (walk-empty strs key)) in
      rw ok (ap (λ o. insert_found strs owner o new t x) found)

  -- Two strings of one hash, whether they are equal or not, are inserted into a table whose bucket
  -- of this hash is empty: the second insertion stores nothing, and answers and references the
  -- object of the first.
  pub insert_collides :
      (a b h : ℕ) (st : Status) (first second : Str) (t : Table Str) (s x : S)
      → Sized t
      → bucket strs h t ≡ []
      → nt_success st ≡ true
      → strs.hash first ≡ (st, h)
      → strs.hash second ≡ (st, h)
      → insert strs owner b second (insert strs owner a first t s).table x ≡ record {
        object = some a;
        table = (insert strs owner a first t s).table;
        state = owner.reference a x;
      }
  unfolding insert
  insert_collides a b h st first second t s x v empty ok e₁ e₂ =
      let c : Item Str = record { object = a; key = record { string = first; hash = h } } in
      let t' = put strs h (c ∷ []) t in
      let stored : (insert_hashed strs owner (strs.hash first) a first t s).table ≡ t' =
        ap (λ p. (insert_hashed strs owner p a first t s).table) e₁
        ∙ insert_hashed-empty st h a first t s ok empty in
      rw (stored, e₂)
        (insert_hashed-second b h st second c t' x ok refl (bucket-put strs h (c ∷ []) t v))
