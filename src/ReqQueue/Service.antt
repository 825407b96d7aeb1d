-- ===== src/ReqQueue/Service.antt =====
-- The public routines of kbase/req-queue.c: connecting, disconnecting, inserting, getting and
-- clearing.
use irpmon.Common.{
  ℕ, List, [], ◌∷◌, ◌++◌, Option, none, some, Bool, true, false, ◌||◌, if◌then◌else◌, leb,
}
use irpmon.Kernel.{
  Status, success, connection_disconnected, buffer_too_small, no_more_entries, already_registered,
  nt_success, Run, done, and_then,
}
use irpmon.Request.{Request, Sizes, has_flag, set_flag, get_size}
use irpmon.Request as Request
use irpmon.ReqQueue.{
  RemoveLock, increment, decrement, CallbackRecord, Queue, Got, request_insert, request_remove,
}
use irpmon.ReqQueue.Callbacks.{reference, last_of, invoke, dereference}

module _ {L : Type 0} where
  unfoldable pub free : Request → Queue L → Queue L
  free r q = record q { freed = r ∷ q.freed }

  -- The second half of RequestQueueInsert, for a queue that is not connected.
  unfoldable pub notify_with : List CallbackRecord → Request → Queue L → Queue L
  notify_with [] r q = free r q
  notify_with (c ∷ cs) r q =
      let id = increment q.last_request_id in
      let last = last_of c cs in
      let referenced = reference (c ∷ cs) in
      record q {
        last_request_id = id;
        invoked = q.invoked ++ invoke last (record r { id = id }) referenced;
        callbacks = (dereference last referenced).0;
      }

  -- What becomes of a request when the remove lock is not acquired.
  unfoldable pub refused : Status → Request → Queue L → Queue L
  refused connection_disconnected r q = notify_with q.callbacks r q
  refused _ r q = free r q

  -- The first loop of RequestQueueClear, over the list of nonpaged requests.
  unfoldable pub clear_nonpaged : List Request → Queue L → Queue L
  clear_nonpaged [] q = q
  clear_nonpaged (old ∷ rest) q = clear_nonpaged rest (record q {
    freed = old ∷ q.freed;
    nonpaged_length = decrement q.nonpaged_length;
    length = decrement q.length;
  })

  unfoldable pub clear_paged : List Request → Queue L → Queue L
  clear_paged [] q = q
  clear_paged (old ∷ rest) q = clear_paged rest (record q {
    freed = old ∷ q.freed;
    paged_length = decrement q.paged_length;
    length = decrement q.length;
  })

  unfoldable pub clear : Queue L → Queue L
  clear q =
      let q₁ = clear_nonpaged q.nonpaged_list (record q { nonpaged_list = [] }) in
      clear_paged q.paged_list (record q₁ { paged_list = [] })

  -- A request gets the next number and goes to the end of its list.
  unfoldable pub enqueue : Request → Queue L → Run (Queue L)
  enqueue r q =
      let id = increment q.last_request_id in
      request_insert (record r { id = id }) false (record q { last_request_id = id })

  -- The loop of RequestQueueConnect over the requests of the snapshot.
  unfoldable pub enqueue_all : List Request → Queue L → Run (Queue L)
  enqueue_all [] q = done q
  enqueue_all (old ∷ rest) q = and_then (enqueue old q) (λ q'. enqueue_all rest q')

  unfoldable pub free_all : List Request → Queue L → Queue L
  free_all [] q = q
  free_all (old ∷ rest) q = free_all rest (free old q)

  -- The snapshot of RequestQueueConnect: ListProcessesByEvents and ListDriversAndDevicesByEvents
  -- answer a status and the requests that they listed.
  unfoldable pub snapshot :
      Status → Status × List Request → Status × List Request → Queue L → Status × List Request
  snapshot status processes drivers q =
      let listed = if q.process_emulate_on_connect then processes else (status, []) in
      if nt_success listed.0
      then (if q.driver_snapshot_on_connect then (drivers.0, listed.1 ++ drivers.1) else listed)
      else listed

module _ {L : Type 0} (ops : RemoveLock L) where
  unfoldable pub release : Queue L → Queue L
  release q = record q { lock = ops.release q.lock }

  -- RequestQueueInsert after IoAcquireRemoveLock, which answered `acquired`.
  unfoldable pub insert_acquired : Status × L → Request → Queue L → Run (Queue L)
  insert_acquired acquired r q =
      let q' = record q { lock = acquired.1 } in
      if nt_success acquired.0
      then and_then (enqueue r q') (λ q''. done (release q''))
      else done (refused acquired.0 r q')

  unfoldable pub queue_insert : Request → Queue L → Run (Queue L)
  queue_insert r q =
      if q.connected || q.collect_when_disconnected
      then insert_acquired (ops.acquire q.lock) r q
      else done (refused connection_disconnected r q)

  -- RequestQueueConnect after the snapshot.
  unfoldable pub finish_connect : Status × List Request → Queue L → Run (Status × Queue L)
  finish_connect listed q =
      if nt_success listed.0
      then and_then (enqueue_all listed.1 q) (λ q'. done (listed.0, record q' { connected = true }))
      else done (listed.0, release (free_all listed.1 q))

  unfoldable pub connect_acquired :
      Status × L → Status × List Request → Status × List Request → Queue L → Run (Status × Queue L)
  connect_acquired acquired processes drivers q =
      let q' = record q { lock = acquired.1 } in
      if nt_success acquired.0
      then finish_connect (snapshot acquired.0 processes drivers q) q'
      else done (acquired.0, q')

  unfoldable pub connect :
      Status × List Request → Status × List Request → Queue L → Run (Status × Queue L)
  connect processes drivers q =
      if q.connected
      then done (already_registered, q)
      else connect_acquired (ops.acquire ops.initial) processes drivers q

  unfoldable pub disconnect : Queue L → Queue L
  disconnect q =
      let q' = record q { lock = ops.release_and_wait q.lock; connected = false } in
      if q.connected then (if q.clear_on_disconnect then clear q' else q') else q

  -- RequestQueueGet with what _RequestRemove answered, for a buffer of so many bytes.
  unfoldable pub deliver : Sizes → ℕ → Option Request → Bool → Queue L → Run (Got L)
  deliver z room none next q =
      done (record { status = no_more_entries; buffer = none; needed = 0; queue = release q })
  deliver z room (some h) next q =
      let flagged = record h {
        flags = if next then set_flag Request.next_available h.flags else h.flags;
      } in
      if leb (get_size z h) room
      then done (record {
        status = success;
        buffer = some flagged;
        needed = get_size z h;
        queue = release q;
      })
      else and_then (request_insert h true q) (λ q'. done (record {
        status = buffer_too_small;
        buffer = none;
        needed = get_size z h;
        queue = release q';
      }))

  unfoldable pub get_acquired : Status × L → Sizes → ℕ → Queue L → Run (Got L)
  get_acquired acquired z room q =
      let q' = record q { lock = acquired.1 } in
      let removed = request_remove q' in
      if nt_success acquired.0
      then deliver z room removed.request removed.next removed.queue
      else done (record { status = acquired.0; buffer = none; needed = room; queue = q' })

  unfoldable pub queue_get : Sizes → ℕ → Queue L → Run (Got L)
  queue_get z room q =
      if q.connected
      then get_acquired (ops.acquire q.lock) z room q
      else done
          (record { status = connection_disconnected; buffer = none; needed = room; queue = q })

  unfoldable pub module_init : Queue L → Queue L
  module_init q = record q {
    paged_list = [];
    nonpaged_list = [];
    lock = ops.initial;
    callbacks = [];
  }
