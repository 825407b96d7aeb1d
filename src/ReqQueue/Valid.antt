-- ===== src/ReqQueue/Valid.antt =====
-- The invariant of the request queue of kbase/req-queue.c: the counters are the lengths of the
-- lists, and every request stands in the list of its kind of memory.
use irpmon.Common.{
  ◌+◌, ◌%◌, ◌^◌, ◌≡◌, refl, List, [], ◌∷◌, some, Bool, true, false, arith, ◌⊎◌, inl, inr, length,
  length-append, subst, All, All-append, Bool-cases, ltb,
}
use irpmon.Kernel.{done}
use irpmon.Request.{Request, Sizes, has_flag, set_flag, get_size, paged-set_next}
use irpmon.Request as Request
use irpmon.ReqQueue.{
  increment, Queue, place, Removed, request_insert, remove_from, take_paged, take_nonpaged,
  request_remove,
}

abbrev pub Paged : Request → Type 0
Paged r = has_flag Request.paged r.flags ≡ true

abbrev pub Nonpaged : Request → Type 0
Nonpaged r = (has_flag Request.paged r.flags ≡ false) × (has_flag Request.nonpaged r.flags ≡ true)

-- RequestMemoryAlloc marks each request with the memory it comes from.
abbrev pub HasMemory : Request → Type 0
HasMemory r = Paged r ⊎ Nonpaged r

pub record WellFormed {L : Type 0} (q : Queue L) : Type 0 where
  pub all_paged : All Paged q.paged_list
  pub all_nonpaged : All Nonpaged q.nonpaged_list
  pub paged_count : q.paged_length ≡ length q.paged_list % 2 ^ 32
  pub nonpaged_count : q.nonpaged_length ≡ length q.nonpaged_list % 2 ^ 32
  pub total_count : q.length ≡ (length q.paged_list + length q.nonpaged_list) % 2 ^ 32

length-place :
    (head : Bool) (r : Request) (rs : List Request) → length (place head r rs) ≡ length rs + 1
unfolding place
length-place true r rs = omega arith
length-place false r rs = omega (arith, length-append rs (r ∷ []))

All-place :
    (P : Request → Type 0) (head : Bool) (r : Request) (rs : List Request)
    → P r
    → All P rs
    → All P (place head r rs)
unfolding place All
All-place P true r rs h k = (h, k)
All-place P false r rs h k = All-append P rs (r ∷ []) k (h, tt)

module _ {L : Type 0} where
  -- A request with a memory mark is always put into a list; the invariant stays.
  pub request_insert-WellFormed :
      (r : Request) (head : Bool) (q : Queue L)
      → HasMemory r
      → WellFormed q
      → (q' : Queue L) × (request_insert r head q ≡ done q') × WellFormed q'
  unfolding request_insert
  request_insert-WellFormed r head q (inl p) w = (
    record q {
      paged_list = place head r q.paged_list;
      paged_length = increment q.paged_length;
      length = increment q.length;
    },
    rw p refl,
    record {
      all_paged = All-place Paged head r q.paged_list p w.all_paged;
      all_nonpaged = w.all_nonpaged;
      paged_count = omega (arith, length-place head r q.paged_list, w.paged_count);
      nonpaged_count = w.nonpaged_count;
      total_count = omega (arith, length-place head r q.paged_list, w.total_count);
    },
  )
  request_insert-WellFormed r head q (inr (np, n)) w = (
    record q {
      nonpaged_list = place head r q.nonpaged_list;
      nonpaged_length = increment q.nonpaged_length;
      length = increment q.length;
    },
    rw (np, n) refl,
    record {
      all_paged = w.all_paged;
      all_nonpaged = All-place Nonpaged head r q.nonpaged_list (np, n) w.all_nonpaged;
      paged_count = w.paged_count;
      nonpaged_count = omega (arith, length-place head r q.nonpaged_list, w.nonpaged_count);
      total_count = omega (arith, length-place head r q.nonpaged_list, w.total_count);
    },
  )

  -- What _RequestRemove answers: its request, if any, has a memory mark, and the queue is valid.
  pub record RemovedValid (o : Removed L) : Type 0 where
    pub marked : (r : Request) → o.request ≡ some r → HasMemory r
    pub valid : WellFormed o.queue

  take_paged-Valid :
      (r : Request) (rs : List Request) (q : Queue L)
      → q.paged_list ≡ r ∷ rs
      → WellFormed q
      → RemovedValid (take_paged r rs q)
  unfolding take_paged All
  take_paged-Valid r rs q e w =
      let whole : All Paged (r ∷ rs) = subst (λ l. All Paged l) e w.all_paged in
      let size : length q.paged_list ≡ length rs + 1 = rw e (omega arith) in
      record {
        marked = λ s same. let here : r ≡ s = cc same in inl (subst Paged here whole.0);
        valid = record {
          all_paged = whole.1;
          all_nonpaged = w.all_nonpaged;
          paged_count = omega (arith, size, w.paged_count);
          nonpaged_count = w.nonpaged_count;
          total_count = omega (arith, size, w.total_count);
        };
      }

  take_nonpaged-Valid :
      (r : Request) (rs : List Request) (q : Queue L)
      → q.nonpaged_list ≡ r ∷ rs
      → WellFormed q
      → RemovedValid (take_nonpaged r rs q)
  unfolding take_nonpaged All
  take_nonpaged-Valid r rs q e w =
      let whole : All Nonpaged (r ∷ rs) = subst (λ l. All Nonpaged l) e w.all_nonpaged in
      let size : length q.nonpaged_list ≡ length rs + 1 = rw e (omega arith) in
      record {
        marked = λ s same. let here : r ≡ s = cc same in inr (subst Nonpaged here whole.0);
        valid = record {
          all_paged = w.all_paged;
          all_nonpaged = whole.1;
          paged_count = w.paged_count;
          nonpaged_count = omega (arith, size, w.nonpaged_count);
          total_count = omega (arith, size, w.total_count);
        };
      }

  remove_from-Valid :
      (ps ns : List Request) (q : Queue L)
      → q.paged_list ≡ ps
      → q.nonpaged_list ≡ ns
      → WellFormed q
      → RemovedValid (remove_from ps ns q)
  unfolding remove_from
  remove_from-Valid [] [] q e f w = record { marked = λ s same. absurd (cc same); valid = w }
  remove_from-Valid [] (n ∷ ns) q e f w = take_nonpaged-Valid n ns q f w
  remove_from-Valid (p ∷ ps) [] q e f w = take_paged-Valid p ps q e w
  remove_from-Valid (p ∷ ps) (n ∷ ns) q e f w = elim (Bool-cases (ltb n.id p.id)) [
    | inl y ↦ rw y (take_nonpaged-Valid n ns q f w)
    | inr y ↦ rw y (take_paged-Valid p ps q e w)
  ]

  pub request_remove-Valid : (q : Queue L) → WellFormed q → RemovedValid (request_remove q)
  unfolding request_remove
  request_remove-Valid q w = remove_from-Valid q.paged_list q.nonpaged_list q refl refl w
