-- ===== src/ReqQueue/Machine.antt =====
-- The routines of kbase/req-queue.c as the steps of a state machine: each of them ends, none runs
-- into a debug break, and the invariant stays.
use irpmon.Common.{
  ℕ, ◌≡◌, refl, List, Option, none, some, Bool, true, false, All, All-append, [], if_intro,
  if◌then◌else◌, leb, ◌||◌, subst,
}
use irpmon.Kernel.{
  Status, nt_success, Run, Pool, done, and_then, connection_disconnected, buffer_too_small,
}
use irpmon.Request.{Request, Sizes, get_size}
use irpmon.ReqQueue.{RemoveLock, Queue, Got, request_remove}
use irpmon.ReqQueue.Service.{
  clear, free_all, snapshot, release, insert_acquired, queue_insert, finish_connect,
  connect_acquired, connect, disconnect, deliver, get_acquired, queue_get, module_init,
}
use irpmon.ReqQueue.Callbacks.{callback_register, callback_unregister}
use irpmon.ReqQueue.Valid.{HasMemory, WellFormed, request_insert-WellFormed, request_remove-Valid}
use irpmon.ReqQueue.Steps.{
  same_lists, refused-WellFormed, free_all-WellFormed, enqueue-WellFormed, enqueue_all-WellFormed,
  clear-empties,
}

module _ {L : Type 0} (ops : RemoveLock L) where
  with_lock : (q : Queue L) (l : L) → WellFormed q → WellFormed (record q { lock = l })
  with_lock q l w = same_lists q q.last_request_id q.connected l q.callbacks q.freed q.invoked w

  release-WellFormed : (q : Queue L) → WellFormed q → WellFormed (release ops q)
  unfolding release
  release-WellFormed q w = with_lock q (ops.release q.lock) w

  -- The run ends in a queue with the invariant.
  EndsValid : Run (Queue L) → Type 0
  EndsValid run = (q' : Queue L) × (run ≡ done q') × WellFormed q'

  ConnectsValid : Run (Status × Queue L) → Type 0
  ConnectsValid run = (o : Status × Queue L) × (run ≡ done o) × WellFormed o.1

  GetsValid : Run (Got L) → Type 0
  GetsValid run = (g : Got L) × (run ≡ done g) × WellFormed g.queue

  -- RequestQueueInsert ends for every request with a memory mark, and keeps the invariant.
  pub queue_insert-WellFormed :
      (r : Request) (q : Queue L)
      → HasMemory r
      → WellFormed q
      → (q' : Queue L) × (queue_insert ops r q ≡ done q') × WellFormed q'
  unfolding queue_insert insert_acquired and_then EndsValid
  queue_insert-WellFormed r q m w =
      let a = ops.acquire q.lock in
      let locked = with_lock q a.1 w in
      let (q₁, e, w₁) = enqueue-WellFormed r (record q { lock = a.1 }) m locked in
      if_intro EndsValid (q.connected || q.collect_when_disconnected)
        (if_intro EndsValid (nt_success a.0) (release ops q₁, rw e refl, release-WellFormed q₁ w₁)
          (_, refl, refused-WellFormed a.0 r (record q { lock = a.1 }) locked))
        (_, refl, refused-WellFormed connection_disconnected r q w)

  snapshot-HasMemory :
      (s : Status) (processes drivers : Status × List Request) (q : Queue L)
      → All HasMemory processes.1
      → All HasMemory drivers.1
      → All HasMemory (snapshot s processes drivers q).1
  unfolding snapshot All
  snapshot-HasMemory s processes drivers q ps ds =
      let P : Status × List Request → Type 0 = λ o. All HasMemory o.1 in
      let listed = if q.process_emulate_on_connect then processes else (s, []) in
      let first : P listed = if_intro P q.process_emulate_on_connect ps tt in
      if_intro P (nt_success listed.0)
        (if_intro P q.driver_snapshot_on_connect (All-append HasMemory listed.1 drivers.1 first ds)
          first)
        first

  finish_connect-WellFormed :
      (listed : Status × List Request) (q : Queue L)
      → All HasMemory listed.1
      → WellFormed q
      → ConnectsValid (finish_connect ops listed q)
  unfolding finish_connect and_then ConnectsValid
  finish_connect-WellFormed listed q m w =
      let (q₁, e, w₁) = enqueue_all-WellFormed listed.1 q m w in
      let left = free_all listed.1 q in
      if_intro ConnectsValid (nt_success listed.0)
        (
          (listed.0, record q₁ { connected = true }),
          rw e refl,
          same_lists q₁ q₁.last_request_id true q₁.lock q₁.callbacks q₁.freed q₁.invoked w₁,
        )
        (
          (listed.0, release ops left),
          refl,
          release-WellFormed left (free_all-WellFormed listed.1 q w),
        )

  -- RequestQueueConnect ends, whatever the snapshots answer, and keeps the invariant.
  pub connect-WellFormed :
      (processes drivers : Status × List Request) (q : Queue L)
      → All HasMemory processes.1
      → All HasMemory drivers.1
      → WellFormed q
      → (o : Status × Queue L) × (connect ops processes drivers q ≡ done o) × WellFormed o.1
  unfolding connect connect_acquired ConnectsValid
  connect-WellFormed processes drivers q ps ds w =
      let a = ops.acquire ops.initial in
      let locked = with_lock q a.1 w in
      if_intro ConnectsValid q.connected ((_, q), refl, w)
        (if_intro ConnectsValid (nt_success a.0)
          (finish_connect-WellFormed _ _ (snapshot-HasMemory a.0 processes drivers q ps ds) locked)
          ((_, _), refl, locked))

  -- RequestQueueDisconnect keeps the invariant.
  pub disconnect-WellFormed : (q : Queue L) → WellFormed q → WellFormed (disconnect ops q)
  unfolding disconnect
  disconnect-WellFormed q w =
      let away = record q { lock = ops.release_and_wait q.lock; connected = false } in
      let valid : WellFormed away =
        same_lists q q.last_request_id false (ops.release_and_wait q.lock) q.callbacks q.freed
          q.invoked w in
      if_intro WellFormed q.connected
        (if_intro WellFormed q.clear_on_disconnect (clear-empties away valid).0 valid) w

  deliver-WellFormed :
      (z : Sizes) (room : ℕ) (o : Option Request) (next : Bool) (q : Queue L)
      → ((r : Request) → o ≡ some r → HasMemory r)
      → WellFormed q
      → GetsValid (deliver ops z room o next q)
  unfolding deliver and_then GetsValid
  deliver-WellFormed z room none next q m w = (_, refl, release-WellFormed q w)
  deliver-WellFormed z room (some h) next q m w =
      let (q₁, e, w₁) = request_insert-WellFormed h true q (m h refl) w in
      if_intro GetsValid (leb (get_size z h) room) (_, refl, release-WellFormed q w)
        (
          record {
            status = buffer_too_small;
            buffer = none;
            needed = get_size z h;
            queue = release ops q₁;
          },
          rw e refl,
          release-WellFormed q₁ w₁,
        )

  -- RequestQueueGet ends for every buffer size, and keeps the invariant.
  pub queue_get-WellFormed :
      (z : Sizes) (room : ℕ) (q : Queue L)
      → WellFormed q
      → (g : Got L) × (queue_get ops z room q ≡ done g) × WellFormed g.queue
  unfolding queue_get get_acquired GetsValid
  queue_get-WellFormed z room q w =
      let a = ops.acquire q.lock in
      let locked = with_lock q a.1 w in
      let removed = request_remove (record q { lock = a.1 }) in
      let taken = request_remove-Valid (record q { lock = a.1 }) locked in
      if_intro GetsValid q.connected
        (if_intro GetsValid (nt_success a.0)
          (deliver-WellFormed z room removed.request removed.next removed.queue taken.marked
            taken.valid)
          (_, refl, locked))
        (_, refl, w)

  -- One call leads from one queue to the next: a routine of req-queue.c, or a change of the settings.
  pub data Step : Queue L → Queue L → Type 0 where
    inserts :
        {q q' : Queue L} (r : Request) → HasMemory r → queue_insert ops r q ≡ done q' → Step q q'
    gets :
        {q : Queue L} (z : Sizes) (room : ℕ) (g : Got L)
        → queue_get ops z room q ≡ done g
        → Step q g.queue
    connects :
        {q : Queue L} (processes drivers : Status × List Request) (o : Status × Queue L)
        → All HasMemory processes.1
        → All HasMemory drivers.1
        → connect ops processes drivers q ≡ done o
        → Step q o.1
    disconnects : {q : Queue L} → Step q (disconnect ops q)
    clears : {q : Queue L} → Step q (clear q)
    registers :
        {q : Queue L} (address : ℕ) (p : Pool)
        → Step q (record q { callbacks = (callback_register address p q.callbacks).2 })
    unregisters :
        {q : Queue L} (handle : ℕ)
        → Step q (record q { callbacks = (callback_unregister handle q.callbacks).1 })
    sets :
        {q : Queue L} (collect empties emulate listing : Bool)
        → Step q (record q {
          collect_when_disconnected = collect;
          clear_on_disconnect = empties;
          process_emulate_on_connect = emulate;
          driver_snapshot_on_connect = listing;
        })

  -- The queues that calls reach from the one after RequestQueueModuleInit with counters at zero.
  pub data Reachable : Queue L → Type 0 where
    initialised :
        (q : Queue L)
        → q.length ≡ 0
        → q.paged_length ≡ 0
        → q.nonpaged_length ≡ 0
        → Reachable (module_init ops q)
    stepped : {q q' : Queue L} → Reachable q → Step q q' → Reachable q'

  -- In every state that the routines reach, with any callbacks registered and unregistered and any
  -- settings changed between the calls, the counters are the lengths of the lists modulo 2^32
  -- and every request stands in the list of its kind of memory.
  pub Reachable-WellFormed : (q : Queue L) → Reachable q → WellFormed q
  unfolding module_init All
  Reachable-WellFormed _ (initialised q l p n) = record {
    all_paged = tt;
    all_nonpaged = tt;
    paged_count = p;
    nonpaged_count = n;
    total_count = l;
  }
  Reachable-WellFormed _ (stepped {q} before (inserts {q' = q'} r m e)) =
      let (q₁, e₁, w) = queue_insert-WellFormed r q m (Reachable-WellFormed q before) in
      let same : q₁ ≡ q' = cc (e, e₁) in subst WellFormed same w
  Reachable-WellFormed _ (stepped {q} before (gets z room g e)) =
      let (g₁, e₁, w) = queue_get-WellFormed z room q (Reachable-WellFormed q before) in
      let same : g₁ ≡ g = cc (e, e₁) in subst (λ o. WellFormed o.queue) same w
  Reachable-WellFormed _ (stepped {q} before (connects processes drivers o ps ds e)) =
      let (o₁, e₁, w) =
        connect-WellFormed processes drivers q ps ds (Reachable-WellFormed q before) in
      let same : o₁ ≡ o = cc (e, e₁) in subst (λ o. WellFormed o.1) same w
  Reachable-WellFormed _ (stepped {q} before disconnects) =
      disconnect-WellFormed q (Reachable-WellFormed q before)
  Reachable-WellFormed _ (stepped {q} before clears) =
      (clear-empties q (Reachable-WellFormed q before)).0
  Reachable-WellFormed _ (stepped {q} before (registers address p)) =
      same_lists q q.last_request_id q.connected q.lock _ q.freed q.invoked
        (Reachable-WellFormed q before)
  Reachable-WellFormed _ (stepped {q} before (unregisters handle)) =
      same_lists q q.last_request_id q.connected q.lock _ q.freed q.invoked
        (Reachable-WellFormed q before)
  Reachable-WellFormed _ (stepped {q} before (sets collect empties emulate listing)) =
      let w = Reachable-WellFormed q before in
      record {
        all_paged = w.all_paged;
        all_nonpaged = w.all_nonpaged;
        paged_count = w.paged_count;
        nonpaged_count = w.nonpaged_count;
        total_count = w.total_count;
      }
