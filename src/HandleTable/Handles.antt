-- ===== src/HandleTable/Handles.antt =====
-- The handles of km-shared/handle-table.c: what they lead to after the routines.
use irpmon.Common.{
  ℕ, ◌+◌, ◌%◌, ◌^◌, ◌<◌, ◌≡◌, ◌≢◌, refl, Option, none, some, Bool, true, false, arith, sym, ap, ◌∙◌,
  subst, ◌==◌, ==_iff, inl, inr, ◌⊎◌, if◌then◌else◌, if_true, if_false,
}
use irpmon.Kernel.{
  success, unsuccessful, invalid_handle, nt_success, Pool, pool_alloc, pool_free, pool_alloc_cases,
  one, handle_mapping, live-pool_free,
}
use irpmon.HashTable.{get}
use irpmon.HashTable.Lookup.{IsValid, HashAgrees, get-insert, delete-insert}
use irpmon.HashTable.Count.{insert-IsValid}
use irpmon.HandleTable.{
  Mapping, HandleTable, Procedures, Outcome, handle_ops, as_handle, increment, add_mapping,
  translated, translate, finish_duplicate, duplicate, closed, close,
}

abbrev pub object_of : Option Mapping → Option ℕ
object_of none = none
object_of (some m) = some m.object

-- The object that a handle stands for, if any.
abbrev pub object_at : HandleTable → ℕ → Option ℕ
object_at t handle = object_of (get handle_ops handle t.hash_table)

-- The handle that the next call hands out.
abbrev pub next_handle : HandleTable → ℕ
next_handle t = as_handle (increment t.next_free_handle)

agrees : (m : Mapping) → HashAgrees handle_ops m
agrees m k q h g =
    let left : m.handle_value ≡ k = (==_iff m.handle_value k).0 h in
    let right : m.handle_value ≡ q = (==_iff m.handle_value q).0 g in
    ap (λ n. n % 2 ^ 32) (sym left ∙ right)

get-add_mapping :
    {S : Type 0} (procs : Procedures S) (object handle : ℕ) (t : HandleTable)
    → IsValid t.hash_table
    → get handle_ops handle (add_mapping procs object t).hash_table ≡ (
        if next_handle t == handle
        then some (record { handle_value = next_handle t; object = object; table = t.address })
        else get handle_ops handle t.hash_table)
unfolding add_mapping
get-add_mapping procs object handle t v =
    let mapping : Mapping = record {
      handle_value = next_handle t;
      object = object;
      table = t.address;
    } in
    get-insert handle_ops mapping (next_handle t) handle t.hash_table v (agrees mapping)
      ((==_iff (next_handle t) (next_handle t)).1 refl)

object_of-if :
    (b : Bool) (x y : Option Mapping)
    → object_of (if b then x else y) ≡ (if b then object_of x else object_of y)
object_of-if true x y = refl
object_of-if false x y = refl

object_at-add_mapping :
    {S : Type 0} (procs : Procedures S) (object handle : ℕ) (t : HandleTable)
    → IsValid t.hash_table
    → object_at (add_mapping procs object t) handle
      ≡ (if next_handle t == handle then some object else object_at t handle)
object_at-add_mapping procs object handle t v =
    ap object_of (get-add_mapping procs object handle t v)
    ∙ object_of-if (next_handle t == handle) _ _

module _ {S : Type 0} (procs : Procedures S) where
  translated-object_of :
      (o : Option Mapping) (s : S)
      → ((translated procs o s).1 ≡ object_of o)
        × (((translated procs o s).0 ≡ success) × (object_of o ≢ none)
            ⊎ ((translated procs o s).0 ≡ invalid_handle) × (object_of o ≡ none))
  unfolding translated
  translated-object_of none s = (refl, inr (refl, refl))
  translated-object_of (some m) s = (refl, inl (refl, λ e. absurd (cc e)))

  -- HandleTablehandleTranslate answers the object of the handle with a success, or
  -- STATUS_INVALID_HANDLE when the handle has none.
  pub translate-object_at :
      (handle : ℕ) (t : HandleTable) (s : S)
      → ((translate procs handle t s).1 ≡ object_at t handle)
        × (((translate procs handle t s).0 ≡ success) × (object_at t handle ≢ none)
            ⊎ ((translate procs handle t s).0 ≡ invalid_handle) × (object_at t handle ≡ none))
  unfolding translate
  translate-object_at handle t s = translated-object_of (get handle_ops handle t.hash_table) s

  add_mapping-IsValid :
      (object : ℕ) (t : HandleTable)
      → IsValid t.hash_table
      → IsValid (add_mapping procs object t).hash_table
  unfolding add_mapping
  add_mapping-IsValid object t v = (insert-IsValid handle_ops _ (next_handle t) t.hash_table v).0

  -- A success that added a handle for the object, seen from any handle.
  pub record Added (object : ℕ) (t : HandleTable) (handle : ℕ) (o : Outcome S) : Type 0 where
    pub status : o.status ≡ success
    pub fresh : o.handle ≡ some (next_handle t)
    pub valid : IsValid o.table.hash_table
    pub lookup :
        object_at o.table handle
        ≡ (if next_handle t == handle then some object else object_at t handle)

  -- A failure that left the table, and as many blocks, as there were.
  pub record Unchanged (p : Pool) (t : HandleTable) (o : Outcome S) : Type 0 where
    pub failure : nt_success o.status ≡ false
    pub table : o.table ≡ t
    pub live : o.pool.live ≡ p.live

  -- HandleTableHandleDuplicate of a handle that stands for an object gives a new handle for that
  -- object, when memory is granted.
  pub duplicate-Added :
      (handle object : ℕ) (p : Pool) (t : HandleTable) (s : S) (k : ℕ)
      → IsValid t.hash_table
      → object_at t handle ≡ some object
      → (pool_alloc (one handle_mapping) p).0 ≡ true
      → Added object t k (duplicate procs handle p t s)
  unfolding duplicate finish_duplicate
  duplicate-Added handle object p t s k v e granted =
      let (found, how) = translate-object_at handle t s in
      let ok : (translate procs handle t s).0 ≡ success = elim how [
        | inl y ↦ y.0
        | inr y ↦ absurd (cc (e, y.1))
      ] in
      let both : _ ≡ finish_duplicate procs success (some object) _ _ t = λ i.
        finish_duplicate procs (ok i) ((found ∙ e) i) (translate procs handle t s).2
          (pool_alloc (one handle_mapping) p).1 t in
      subst (Added object t k) (sym (if_true _ _ granted ∙ both)) (record {
        status = refl;
        fresh = refl;
        valid = add_mapping-IsValid object t v;
        lookup = object_at-add_mapping procs object k t v;
      })

  -- HandleTableHandleDuplicate of a handle that stands for nothing fails, and leaves the table and
  -- the number of allocated blocks as they were.
  pub duplicate-Unchanged :
      (handle : ℕ) (p : Pool) (t : HandleTable) (s : S)
      → object_at t handle ≡ none
      → Unchanged p t (duplicate procs handle p t s)
  unfolding duplicate finish_duplicate
  duplicate-Unchanged handle p t s e =
      let (found, how) = translate-object_at handle t s in
      let bad : (translate procs handle t s).0 ≡ invalid_handle = elim how [
        | inl y ↦ absurd (y.1 e)
        | inr y ↦ y.0
      ] in
      let both : _ ≡ finish_duplicate procs invalid_handle none _ _ t = λ i.
        finish_duplicate procs (bad i) ((found ∙ e) i) (translate procs handle t s).2
          (pool_alloc (one handle_mapping) p).1 t in
      elim (pool_alloc_cases (one handle_mapping) p) [
        | inl (g, live) ↦
            subst (Unchanged p t) (sym (if_true _ _ g ∙ both)) (record {
              failure = refl;
              table = refl;
              live = live-pool_free _ ∙ omega (arith, live);
            })
        | inr (g, live) ↦
            subst (Unchanged p t) (sym (if_false _ _ g))
              (record { failure = refl; table = refl; live = live })
      ]

  -- Closing the handle that HandleTableHandleCreate has just added gives the hash table and the
  -- block back, and tells the owner the object and the handle, but no table.
  pub close-add_mapping :
      (object : ℕ) (p : Pool) (t : HandleTable) (s : S)
      → IsValid t.hash_table
      → t.hash_table.number_of_items + 1 < 2 ^ 32
      → close procs (next_handle t) p (add_mapping procs object t) s ≡ record {
        status = unsuccessful;
        handle = none;
        pool = pool_free p;
        table = record t { next_free_handle = increment t.next_free_handle };
        state = procs.deleted none object (next_handle t) s;
      }
  unfolding close closed add_mapping
  close-add_mapping object p t s v small =
      let mapping : Mapping = record {
        handle_value = next_handle t;
        object = object;
        table = t.address;
      } in
      let gone =
        delete-insert handle_ops mapping (next_handle t) t.hash_table v small
          ((==_iff (next_handle t) (next_handle t)).1 refl) in
      ap (λ d. closed procs d.0 d.1 p (add_mapping procs object t) s) gone
