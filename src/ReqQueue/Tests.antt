-- ===== src/ReqQueue/Tests.antt =====
-- Runs of the request queue, and the theorems at concrete queues.
use irpmon.Common.{
  ℕ, ◌≡◌, refl, List, [], ◌∷◌, none, some, Bool, true, false, arith, inl, All, if◌then◌else◌,
}
use irpmon.Kernel.{
  Status, success, unsuccessful, delete_pending, buffer_too_small, done, and_then, pool_alloc,
}
use irpmon.Request.{Request, Sizes, has_flag, set_flag, body_size, get_size, irp, driver_unload}
use irpmon.ReqQueue.{
  RemoveLock, Queue, CallbackRecord, Got, place, request_insert, take_paged, take_nonpaged,
  remove_from, request_remove,
}
use irpmon.ReqQueue.Callbacks.{
  reference, last_of, invoke, drop_reference, dereference, callback_register, callback_unregister,
}
use irpmon.ReqQueue.Service.{
  free, notify_with, refused, clear_nonpaged, clear_paged, clear, enqueue, enqueue_all, free_all,
  snapshot, release, insert_acquired, queue_insert, finish_connect, connect_acquired, connect,
  disconnect, deliver, get_acquired, queue_get, module_init,
}
use irpmon.ReqQueue.Valid.{HasMemory, WellFormed}
use irpmon.ReqQueue.Steps.{clear-empties}
use irpmon.ReqQueue.Serving.{Reachable-serves}
use irpmon.ReqQueue.Machine.{Reachable, initialised, stepped, disconnects, Reachable-WellFormed}
use irpmon.ReqQueue.Ascending.{Ascending}
use irpmon.ReqQueue.Order.{Ordered, AllFrom, Appended, enqueue-Ordered, queue_get-First}
use irpmon.ReqQueue.Next.{Marked, queue_get-next}
use irpmon.ReqQueue.Answers.{RemoveLockLaws, queue_get-too_small, insert-disconnect}
use irpmon.ReqQueue.Sharing.{Distinct, Held}

program : Unit {0}
unfolding place request_insert take_paged take_nonpaged remove_from request_remove reference last_of
    invoke drop_reference dereference callback_register callback_unregister free notify_with refused
    clear_nonpaged clear_paged clear enqueue enqueue_all free_all snapshot release insert_acquired
    queue_insert finish_connect connect_acquired connect disconnect deliver get_acquired queue_get
    module_init and_then has_flag set_flag body_size get_size pool_alloc
program = tt

-- A remove lock that remembers whether it is removed.
abbrev pub simple : RemoveLock Bool
simple = record {
  initial = false;
  acquire = λ l. (if l then delete_pending else success, l);
  release = λ l. l;
  release_and_wait = λ l. true;
}

simple-Laws : RemoveLockLaws simple (λ l. l)
simple-Laws = record {
  initial_open = refl;
  acquire_open = λ l e. rw e refl;
  acquire_removed = λ l e. rw e refl;
  acquire_keeps = λ l. refl;
  release_keeps = λ l. refl;
  wait_removes = λ l. refl;
}

abbrev paged_request : ℕ → Request
paged_request n = record {
  id = n;
  flags = 128;
  driver = 0;
  device = 0;
  process_id = 4;
  thread_id = 8;
  body = irp 16;
}

abbrev nonpaged_request : ℕ → Request
nonpaged_request n = record (paged_request n) { flags = 256; body = driver_unload }

-- Requests 1 and 3 are paged, request 2 is not.
abbrev pub three : Queue Bool
three = record {
  paged_list = paged_request 1 ∷ paged_request 3 ∷ [];
  nonpaged_list = nonpaged_request 2 ∷ [];
  last_request_id = 3;
  length = 3;
  nonpaged_length = 1;
  paged_length = 2;
  connected = true;
  clear_on_disconnect = false;
  collect_when_disconnected = true;
  process_emulate_on_connect = true;
  driver_snapshot_on_connect = false;
  lock = false;
  callbacks = [];
  freed = [];
  invoked = [];
}

abbrev away : Queue Bool
away = record three { connected = false; collect_when_disconnected = false }

abbrev pub sizes : Sizes
sizes = record {
  irp_size = 200;
  irp_completion_size = 200;
  fast_io_size = 200;
  add_device_size = 100;
  unload_size = 100;
  start_io_size = 100;
  driver_size = 100;
  device_size = 100;
  name_assigned_size = 100;
  name_deleted_size = 100;
  process_created_size = 100;
  process_exitted_size = 100;
  image_load_size = 100;
  pointer_size = 8;
  word = 64;
}

pub three-WellFormed : WellFormed three
unfolding All has_flag
three-WellFormed = record {
  all_paged = (refl, (refl, tt));
  all_nonpaged = ((refl, refl), tt);
  paged_count = refl;
  nonpaged_count = refl;
  total_count = refl;
}

away-WellFormed : WellFormed away
unfolding All has_flag
away-WellFormed = record {
  all_paged = (refl, (refl, tt));
  all_nonpaged = ((refl, refl), tt);
  paged_count = refl;
  nonpaged_count = refl;
  total_count = refl;
}

three-Ordered : Ordered three
unfolding All Ascending
three-Ordered = record {
  paged_order = ((omega arith, tt), (tt, tt));
  nonpaged_order = (tt, tt);
  paged_old = (omega arith, (omega arith, tt));
  nonpaged_old = (omega arith, tt);
}

is_paged : (n : ℕ) → HasMemory (paged_request n)
unfolding has_flag
is_paged n = inl refl

-- The request that is handed out is the first, and is marked: another one waits.
abbrev got_first : Got Bool
got_first = record {
  status = success;
  buffer = some (record (paged_request 1) { flags = 160 });
  needed = 216;
  queue = record three { paged_list = paged_request 3 ∷ []; length = 2; paged_length = 1 };
}

get_runs : queue_get simple sizes 216 three ≡ done got_first
unfolding program
get_runs = refl

abbrev two_callbacks : List CallbackRecord
two_callbacks =
    record { address = 40; reference_count = 1; signalled = false }
    ∷ record { address = 80; reference_count = 1; signalled = false }
    ∷ []

-- While the driver is not connected, both callbacks get the request.
notify_runs :
    (inv : Queue Bool) × (queue_insert simple
        (paged_request 0)
        (record away { callbacks = two_callbacks })
      ≡ done inv)
    × (inv.invoked ≡ (40, paged_request 4) ∷ (80, paged_request 4) ∷ [])
unfolding program
notify_runs = (_, refl, refl)

-- A callback that is unregistered while it is called leaves with the last reference.
unregister_runs : dereference 80 (callback_unregister 40 (reference two_callbacks)).1 ≡ (
  record { address = 80; reference_count = 1; signalled = false } ∷ [],
  record { address = 40; reference_count = 0; signalled = true } ∷ [],
)
unfolding program
unregister_runs = refl

one_paged : (n : ℕ) → All HasMemory (paged_request n ∷ [])
unfolding All
one_paged n = (is_paged n, tt)

clear-empties_example :
    WellFormed (clear three) × ((clear three).nonpaged_list ≡ []) × ((clear three).paged_list ≡ [])
clear-empties_example = clear-empties three three-WellFormed

abbrev fresh : Queue Bool
fresh = record three { length = 0; paged_length = 0; nonpaged_length = 0 }

Reachable-WellFormed_example : WellFormed (disconnect simple (module_init simple fresh))
Reachable-WellFormed_example =
    Reachable-WellFormed simple (disconnect simple (module_init simple fresh))
      (stepped (initialised fresh refl refl refl) disconnects)

queue_get-First_example : Ordered got_first.queue × AllFrom 1 got_first.queue
queue_get-First_example =
    queue_get-First simple sizes 216 three got_first (record (paged_request 1) { flags = 160 })
      three-Ordered get_runs refl

abbrev four : Queue Bool
four = record three {
  paged_list = paged_request 1 ∷ paged_request 3 ∷ paged_request 4 ∷ [];
  last_request_id = 4;
  length = 4;
  paged_length = 3;
}

enqueue_runs : enqueue (paged_request 0) three ≡ done four
unfolding program
enqueue_runs = refl

enqueue-Ordered_example :
    (q : Queue Bool) × (enqueue (paged_request 0) three ≡ done q)
    × Ordered q
    × Appended (paged_request 0) three q
unfolding has_flag
enqueue-Ordered_example =
    enqueue-Ordered (paged_request 0) three (omega arith) (inl refl) three-Ordered

first_size : get_size sizes (paged_request 1) ≡ 216
unfolding program
first_size = refl

first_request : (request_remove three).request ≡ some (paged_request 1)
unfolding program
first_request = refl

queue_get-too_small_example :
    queue_get simple sizes 100 three
    ≡ done (record {
      status = buffer_too_small;
      buffer = none;
      needed = get_size sizes (paged_request 1);
      queue = three;
    })
queue_get-too_small_example =
    queue_get-too_small simple sizes 100 three (paged_request 1) three-WellFormed refl refl
      first_request (omega (arith, first_size))

insert-disconnect_example :
    queue_insert simple (paged_request 0) (disconnect simple three)
    ≡ done (record (disconnect simple three) {
      lock = (simple.acquire (disconnect simple three).lock).1;
      freed = paged_request 0 ∷ (disconnect simple three).freed;
    })
insert-disconnect_example =
    insert-disconnect simple (λ l. l) (paged_request 0) three simple-Laws refl refl

two-Distinct : Distinct two_callbacks
unfolding Distinct All
two-Distinct = (((λ e. absurd (omega arith)), tt), (tt, tt))

two-Held : All Held two_callbacks
unfolding All
two-Held = ((omega arith, omega arith), ((omega arith, omega arith), tt))

queue_get-next_example :
    Marked
      (request_remove (record three { lock = (simple.acquire three.lock).1 })).request
      got_first
      (record (paged_request 1) { flags = 160 })
queue_get-next_example =
    queue_get-next simple sizes 216 three got_first (record (paged_request 1) { flags = 160 })
      get_runs refl

Reachable-serves_example :
    ((q : Queue Bool) × (queue_insert simple (paged_request 0) (module_init simple fresh) ≡ done q)
      × Reachable simple q)
    × ((g : Got Bool) × (queue_get simple sizes 100 (module_init simple fresh) ≡ done g)
        × Reachable simple g.queue)
    × ((o : Status × Queue Bool) × (connect simple
            (success, paged_request 0 ∷ [])
            (unsuccessful, paged_request 0 ∷ [])
            (module_init simple fresh)
          ≡ done o)
        × Reachable simple o.1)
Reachable-serves_example =
    Reachable-serves simple (module_init simple fresh) (paged_request 0) sizes 100
      (success, paged_request 0 ∷ []) (unsuccessful, paged_request 0 ∷ [])
      (initialised fresh refl refl refl) (is_paged 0) (one_paged 0) (one_paged 0)
