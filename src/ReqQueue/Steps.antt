-- ===== src/ReqQueue/Steps.antt =====
-- The public routines of kbase/req-queue.c as the steps of a state machine, and its invariant.
use irpmon.Common.{
  ℕ, ◌+◌, ◌%◌, ◌^◌, ◌≡◌, refl, List, [], ◌∷◌, Bool, false, arith, length, subst, sym, ap, All,
}
use irpmon.Kernel.{Status, done, and_then, connection_disconnected}
use irpmon.Request.{Request}
use irpmon.ReqQueue.{increment, CallbackRecord, Queue}
use irpmon.ReqQueue.Service.{
  free, notify_with, refused, clear_nonpaged, clear_paged, clear, enqueue, enqueue_all, free_all,
}
use irpmon.ReqQueue.Valid.{Paged, Nonpaged, HasMemory, WellFormed, request_insert-WellFormed}

module _ {L : Type 0} where
  -- The invariant is about the lists and the counters alone.
  pub same_lists :
      (q : Queue L) (id : ℕ) (connected : Bool) (l : L) (cs : List CallbackRecord)
      (freed : List Request) (invoked : List (ℕ × Request))
      → WellFormed q
      → WellFormed (record q {
        last_request_id = id;
        connected = connected;
        lock = l;
        callbacks = cs;
        freed = freed;
        invoked = invoked;
      })
  same_lists q id connected l cs freed invoked w = record {
    all_paged = w.all_paged;
    all_nonpaged = w.all_nonpaged;
    paged_count = w.paged_count;
    nonpaged_count = w.nonpaged_count;
    total_count = w.total_count;
  }

  pub free-WellFormed : (r : Request) (q : Queue L) → WellFormed q → WellFormed (free r q)
  unfolding free
  free-WellFormed r q w =
      same_lists q q.last_request_id q.connected q.lock q.callbacks (r ∷ q.freed) q.invoked w

  notify_with-WellFormed :
      (cs : List CallbackRecord) (r : Request) (q : Queue L)
      → WellFormed q
      → WellFormed (notify_with cs r q)
  unfolding notify_with
  notify_with-WellFormed [] r q w = free-WellFormed r q w
  notify_with-WellFormed (c ∷ cs) r q w = same_lists q _ q.connected q.lock _ q.freed _ w

  pub refused-WellFormed :
      (s : Status) (r : Request) (q : Queue L) → WellFormed q → WellFormed (refused s r q)
  unfolding refused
  refused-WellFormed connection_disconnected r q w = notify_with-WellFormed q.callbacks r q w
  refused-WellFormed _ r q w = free-WellFormed r q w

  pub free_all-WellFormed :
      (rs : List Request) (q : Queue L) → WellFormed q → WellFormed (free_all rs q)
  unfolding free_all
  free_all-WellFormed [] q w = w
  free_all-WellFormed (r ∷ rs) q w = free_all-WellFormed rs (free r q) (free-WellFormed r q w)

  pub enqueue-WellFormed :
      (r : Request) (q : Queue L)
      → HasMemory r
      → WellFormed q
      → (q' : Queue L) × (enqueue r q ≡ done q') × WellFormed q'
  unfolding enqueue
  enqueue-WellFormed r q m w =
      request_insert-WellFormed (record r { id = increment q.last_request_id }) false
        (record q { last_request_id = increment q.last_request_id }) m
        (same_lists q _ q.connected q.lock q.callbacks q.freed q.invoked w)

  pub enqueue_all-WellFormed :
      (rs : List Request) (q : Queue L)
      → All HasMemory rs
      → WellFormed q
      → (q' : Queue L) × (enqueue_all rs q ≡ done q') × WellFormed q'
  unfolding enqueue_all All and_then
  enqueue_all-WellFormed [] q m w = (q, refl, w)
  enqueue_all-WellFormed (r ∷ rs) q (m, ms) w =
      let (q₁, e₁, w₁) = enqueue-WellFormed r q m w in
      let (q₂, e₂, w₂) = enqueue_all-WellFormed rs q₁ ms w₁ in (q₂, rw (e₁, e₂) refl, w₂)

  -- Clearing empties one list and counts its requests off.
  clear_nonpaged-WellFormed :
      (rs : List Request) (q : Queue L)
      → All Paged q.paged_list
      → q.nonpaged_list ≡ []
      → q.paged_length ≡ length q.paged_list % 2 ^ 32
      → q.nonpaged_length ≡ length rs % 2 ^ 32
      → q.length ≡ (length q.paged_list + length rs) % 2 ^ 32
      → WellFormed (clear_nonpaged rs q)
        × ((clear_nonpaged rs q).nonpaged_list ≡ [])
        × ((clear_nonpaged rs q).paged_list ≡ q.paged_list)
  unfolding clear_nonpaged All
  clear_nonpaged-WellFormed [] q a n cp cn ct = (
    record {
      all_paged = a;
      all_nonpaged = subst (All Nonpaged) (sym n) tt;
      paged_count = cp;
      nonpaged_count = rw n cn;
      total_count = rw n ct;
    },
    n,
    refl,
  )
  clear_nonpaged-WellFormed (r ∷ rs) q a n cp cn ct =
      clear_nonpaged-WellFormed rs _ a n cp (omega (arith, cn)) (omega (arith, ct))

  clear_paged-WellFormed :
      (rs : List Request) (q : Queue L)
      → q.paged_list ≡ []
      → q.nonpaged_list ≡ []
      → q.nonpaged_length ≡ 0
      → q.paged_length ≡ length rs % 2 ^ 32
      → q.length ≡ length rs % 2 ^ 32
      → WellFormed (clear_paged rs q)
        × ((clear_paged rs q).nonpaged_list ≡ [])
        × ((clear_paged rs q).paged_list ≡ [])
  unfolding clear_paged All
  clear_paged-WellFormed [] q p n cn cp ct = (
    record {
      all_paged = subst (All Paged) (sym p) tt;
      all_nonpaged = subst (All Nonpaged) (sym n) tt;
      paged_count = rw p cp;
      nonpaged_count = rw n cn;
      total_count = rw (n, p) ct;
    },
    n,
    p,
  )
  clear_paged-WellFormed (r ∷ rs) q p n cn cp ct =
      clear_paged-WellFormed rs _ p n cn (omega (arith, cp)) (omega (arith, ct))

  -- RequestQueueClear empties both lists and brings all three counters back to zero.
  pub clear-empties :
      (q : Queue L)
      → WellFormed q
      → WellFormed (clear q) × ((clear q).nonpaged_list ≡ []) × ((clear q).paged_list ≡ [])
  unfolding clear
  clear-empties q w =
      let (v, n, p) =
        clear_nonpaged-WellFormed q.nonpaged_list (record q { nonpaged_list = [] }) w.all_paged refl
          w.paged_count w.nonpaged_count w.total_count in
      let q₁ = clear_nonpaged q.nonpaged_list (record q { nonpaged_list = [] }) in
      let size : length q₁.paged_list ≡ length q.paged_list = ap length p in
      let none_left : length q₁.nonpaged_list ≡ 0 = ap length n in
      clear_paged-WellFormed q.paged_list (record q₁ { paged_list = [] }) refl n
        (omega (arith, v.nonpaged_count, none_left)) (omega (arith, v.paged_count, size))
        (omega (arith, v.total_count, size, none_left))
