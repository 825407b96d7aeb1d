-- ===== src/ReqQueue/Order.antt =====
-- The order in which RequestQueueGet of kbase/req-queue.c hands the requests out.
use irpmon.Common.{
  ℕ, ◌+◌, ◌^◌, ◌<◌, ◌≤◌, ◌≡◌, ◌⊎◌, false, refl, List, [], ◌∷◌, ◌++◌, Option, none, some, Bool, true,
  arith, inl, inr, All, All-map, subst, sym, ap, ◌∙◌, Bool-cases, ltb, ltb→lt, leb, if_intro,
}
use irpmon.Kernel.{Status, buffer_too_small, nt_success, Run, done, bug_check, and_then}
use irpmon.Request.{Request, Sizes, get_size}
use irpmon.ReqQueue.{
  RemoveLock, Queue, Removed, Got, increment, place, request_insert, request_remove, remove_from,
  take_paged, take_nonpaged,
}
use irpmon.ReqQueue.Service.{enqueue, release, deliver, get_acquired, queue_get}
use irpmon.ReqQueue.Valid.{Paged, Nonpaged, HasMemory}
use irpmon.ReqQueue.Ascending.{Ascending, from_head, extended, older, number_of}

pub record Ordered {L : Type 0} (q : Queue L) : Type 0 where
  pub paged_order : Ascending q.paged_list
  pub nonpaged_order : Ascending q.nonpaged_list
  pub paged_old : All (λ r. r.id ≤ q.last_request_id) q.paged_list
  pub nonpaged_old : All (λ r. r.id ≤ q.last_request_id) q.nonpaged_list

-- No request of the queue has a number below `id`.
unfoldable pub AllFrom : {L : Type 0} → ℕ → Queue L → Type 0
AllFrom id q = All (λ y. id ≤ y.id) q.paged_list × All (λ y. id ≤ y.id) q.nonpaged_list

module _ {L : Type 0} where
  -- The request stands with the next number at the end of the list of its kind of memory; the
  -- other list is as before.
  pub Appended : Request → Queue L → Queue L → Type 0
  Appended r q q' =
      let new : Request = record r { id = q.last_request_id + 1 } in
      (q'.last_request_id ≡ q.last_request_id + 1)
      × ((Paged r
            × (q'.paged_list ≡ q.paged_list ++ (new ∷ []))
            × (q'.nonpaged_list ≡ q.nonpaged_list))
          ⊎ (Nonpaged r
              × (q'.nonpaged_list ≡ q.nonpaged_list ++ (new ∷ []))
              × (q'.paged_list ≡ q.paged_list)))

  -- While the counter has not run over, a request with a memory mark goes into an ordered queue
  -- without a debug break: with the next number, which is above all those in the queue, at the end
  -- of the list of its kind of memory; the other list stays, and the queue is in order.
  pub enqueue-Ordered :
      (r : Request) (q : Queue L)
      → q.last_request_id + 1 < 2 ^ 32
      → HasMemory r
      → Ordered q
      → (q' : Queue L) × (enqueue r q ≡ done q') × Ordered q' × Appended r q q'
  unfolding enqueue request_insert place Appended
  enqueue-Ordered r q small (inl p) o =
      let id = increment q.last_request_id in
      let next : id ≡ q.last_request_id + 1 = omega arith in
      let r' = record r { id = id } in
      let below : q.last_request_id < id = omega arith in
      let (order, old) =
        extended q.paged_list q.last_request_id id r' below refl o.paged_order o.paged_old in
      let numbered : q.paged_list ++ (r' ∷ [])
          ≡ q.paged_list ++ (record r { id = q.last_request_id + 1 } ∷ []) =
        ap (λ n. q.paged_list ++ (record r { id = n } ∷ [])) next in
      (
        record q {
          last_request_id = id;
          paged_list = place false r' q.paged_list;
          paged_length = increment q.paged_length;
          length = increment q.length;
        },
        rw p refl,
        record {
          paged_order = order;
          nonpaged_order = o.nonpaged_order;
          paged_old = old;
          nonpaged_old = older q.nonpaged_list q.last_request_id id (omega arith) o.nonpaged_old;
        },
        (next, inl (p, numbered, refl)),
      )
  enqueue-Ordered r q small (inr (np, n)) o =
      let id = increment q.last_request_id in
      let next : id ≡ q.last_request_id + 1 = omega arith in
      let r' = record r { id = id } in
      let below : q.last_request_id < id = omega arith in
      let (order, old) =
        extended q.nonpaged_list q.last_request_id id r' below refl o.nonpaged_order
          o.nonpaged_old in
      let numbered : q.nonpaged_list ++ (r' ∷ [])
          ≡ q.nonpaged_list ++ (record r { id = q.last_request_id + 1 } ∷ []) =
        ap (λ n'. q.nonpaged_list ++ (record r { id = n' } ∷ [])) next in
      (
        record q {
          last_request_id = id;
          nonpaged_list = place false r' q.nonpaged_list;
          nonpaged_length = increment q.nonpaged_length;
          length = increment q.length;
        },
        rw (np, n) refl,
        record {
          paged_order = o.paged_order;
          nonpaged_order = order;
          paged_old = older q.paged_list q.last_request_id id (omega arith) o.paged_old;
          nonpaged_old = old;
        },
        (next, inr ((np, n), numbered, refl)),
      )

  -- The answer of _RequestRemove, with the lists that the queue had.
  RemovedFirst : Removed L → Type 0
  RemovedFirst a = Ordered a.queue × ((r : Request) → a.request ≡ some r → AllFrom r.id a.queue)

  take_paged-First :
      (p : Request) (ps : List Request) (q : Queue L)
      → q.paged_list ≡ p ∷ ps
      → All (λ y. p.id ≤ y.id) q.nonpaged_list
      → Ordered q
      → RemovedFirst (take_paged p ps q)
  unfolding take_paged Ascending All RemovedFirst AllFrom
  take_paged-First p ps q e others o =
      let order : Ascending (p ∷ ps) = subst Ascending e o.paged_order in
      let old : All (λ r. r.id ≤ q.last_request_id) (p ∷ ps) =
        subst (All (λ r. r.id ≤ q.last_request_id)) e o.paged_old in
      let first : All (λ y. p.id ≤ y.id) ps =
        All-map (λ y. p.id < y.id) (λ y. p.id ≤ y.id) (λ y h. omega arith) ps order.0 in
      (
        record {
          paged_order = order.1;
          nonpaged_order = o.nonpaged_order;
          paged_old = old.1;
          nonpaged_old = o.nonpaged_old;
        },
        λ r same.
            let here : p ≡ r = cc same in
            subst (λ x. All (λ y. x.id ≤ y.id) ps × All (λ y. x.id ≤ y.id) q.nonpaged_list) here
              (first, others),
      )

  take_nonpaged-First :
      (n : Request) (ns : List Request) (q : Queue L)
      → q.nonpaged_list ≡ n ∷ ns
      → All (λ y. n.id ≤ y.id) q.paged_list
      → Ordered q
      → RemovedFirst (take_nonpaged n ns q)
  unfolding take_nonpaged Ascending All RemovedFirst AllFrom
  take_nonpaged-First n ns q e others o =
      let order : Ascending (n ∷ ns) = subst Ascending e o.nonpaged_order in
      let old : All (λ r. r.id ≤ q.last_request_id) (n ∷ ns) =
        subst (All (λ r. r.id ≤ q.last_request_id)) e o.nonpaged_old in
      let first : All (λ y. n.id ≤ y.id) ns =
        All-map (λ y. n.id < y.id) (λ y. n.id ≤ y.id) (λ y h. omega arith) ns order.0 in
      (
        record {
          paged_order = o.paged_order;
          nonpaged_order = order.1;
          paged_old = o.paged_old;
          nonpaged_old = old.1;
        },
        λ r same.
            let here : n ≡ r = cc same in
            subst (λ x. All (λ y. x.id ≤ y.id) q.paged_list × All (λ y. x.id ≤ y.id) ns) here
              (others, first),
      )

  remove_from-First :
      (ps ns : List Request) (q : Queue L)
      → q.paged_list ≡ ps
      → q.nonpaged_list ≡ ns
      → Ordered q
      → RemovedFirst (remove_from ps ns q)
  unfolding remove_from RemovedFirst All
  remove_from-First [] [] q e f o = (o, λ r same. absurd (cc same))
  remove_from-First [] (n ∷ ns) q e f o =
      take_nonpaged-First n ns q f (subst (All (λ y. n.id ≤ y.id)) (sym e) tt) o
  remove_from-First (p ∷ ps) [] q e f o =
      take_paged-First p ps q e (subst (All (λ y. p.id ≤ y.id)) (sym f) tt) o
  remove_from-First (p ∷ ps) (n ∷ ns) q e f o = elim (Bool-cases (ltb n.id p.id)) [
    | inl y ↦
        let below = ltb→lt n.id p.id y in
        rw y (
          take_nonpaged-First n ns q f
            (from_head n.id p ps q.paged_list e o.paged_order (omega arith)) o)
    | inr y ↦
        let above : p.id ≤ n.id = ground (arith, y) in
        rw y (
          take_paged-First p ps q e (from_head p.id n ns q.nonpaged_list f o.nonpaged_order above)
            o)
  ]

  request_remove-First : (q : Queue L) → Ordered q → RemovedFirst (request_remove q)
  unfolding request_remove
  request_remove-First q o = remove_from-First q.paged_list q.nonpaged_list q refl refl o

  -- Whatever the run hands out has the smallest number, and leaves the queue in order.
  GetsFirst : Run (Got L) → Type 0
  GetsFirst run =
      (g : Got L) (h : Request)
      → run ≡ done g
      → g.buffer ≡ some h
      → Ordered g.queue × AllFrom h.id g.queue

  handed :
      (a : Got L)
      → ((h : Request) → a.buffer ≡ some h → Ordered a.queue × AllFrom h.id a.queue)
      → GetsFirst (done a)
  unfolding GetsFirst
  handed a f g h e got =
      let same : g ≡ a = cc e in
      let buffer : a.buffer ≡ some h = ap (λ x. x.buffer) (sym same) ∙ got in
      subst (λ x. Ordered x.queue × AllFrom h.id x.queue) (sym same) (f h buffer)

  kept :
      (ops : RemoveLock L) (s : Status) (n : ℕ) (run : Run (Queue L))
      → GetsFirst (
          and_then run
            (λ q. done (record { status = s; buffer = none; needed = n; queue = release ops q })))
  unfolding and_then GetsFirst
  kept ops s n (done q) = handed _ (λ h same. absurd (cc same))
  kept ops s n bug_check = λ g h e got. absurd (cc e)

  deliver-First :
      (ops : RemoveLock L) (z : Sizes) (room : ℕ) (o : Option Request) (next : Bool) (q : Queue L)
      → Ordered q
      → ((r : Request) → o ≡ some r → AllFrom r.id q)
      → GetsFirst (deliver ops z room o next q)
  unfolding deliver release AllFrom
  deliver-First ops z room none next q order first = handed _ (λ h same. absurd (cc same))
  deliver-First ops z room (some r) next q order first =
      if_intro GetsFirst (leb (get_size z r) room)
        (handed _ (λ h same.
          let number : r.id ≡ h.id = ap (number_of 0) same in
          (
            record {
              paged_order = order.paged_order;
              nonpaged_order = order.nonpaged_order;
              paged_old = order.paged_old;
              nonpaged_old = order.nonpaged_old;
            },
            subst (λ n. AllFrom n q) number (first r refl),
          )))
        (kept ops buffer_too_small (get_size z r) (request_insert r true q))

  -- Over a queue in order, what RequestQueueGet hands out has the smallest number of the queue, and
  -- what is left is in order.
  pub queue_get-First :
      (ops : RemoveLock L) (z : Sizes) (room : ℕ) (q : Queue L) (g : Got L) (h : Request)
      → Ordered q
      → queue_get ops z room q ≡ done g
      → g.buffer ≡ some h
      → Ordered g.queue × AllFrom h.id g.queue
  unfolding queue_get get_acquired RemovedFirst GetsFirst
  queue_get-First ops z room q g h o e got =
      let a = ops.acquire q.lock in
      let q' = record q { lock = a.1 } in
      let locked : Ordered q' = record {
        paged_order = o.paged_order;
        nonpaged_order = o.nonpaged_order;
        paged_old = o.paged_old;
        nonpaged_old = o.nonpaged_old;
      } in
      let removed = request_remove q' in
      let (order, first) = request_remove-First q' locked in
      if_intro GetsFirst q.connected
        (if_intro GetsFirst (nt_success a.0)
          (deliver-First ops z room removed.request removed.next removed.queue order first)
          (handed _ (λ x same. absurd (cc same))))
        (handed _ (λ x same. absurd (cc same))) g h e got
