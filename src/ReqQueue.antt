-- ===== src/ReqQueue.antt =====
-- kbase/req-queue.c: the queue of the requests that the driver has recorded, and the callbacks that
-- get the requests while no one is connected. Requests from paged and nonpaged memory stand in two
-- lists. Each routine runs as one step, except that referencing, invoking and dereferencing the
-- callbacks are three. IO_REMOVE_LOCK is the kernel's: `RemoveLock` says what its routines answer.
-- Counters are 32-bit LONGs, written as their remainders.
pub mod Callbacks
pub mod Service
pub mod Valid
pub mod Steps
pub mod Machine
pub mod Serving
pub mod Taking
pub mod Merged
pub mod Ascending
pub mod Order
pub mod Next
pub mod Answers
pub mod Sharing
pub mod Tests
use irpmon.Common.{
  ℕ, ◌+◌, ◌-◌, ◌%◌, ◌^◌, ◌≡◌, List, [], ◌∷◌, ◌++◌, Option, none, some, Bool, true, false, ◌||◌, not,
  if◌then◌else◌, ltb, leb, ◌==◌,
}
use irpmon.Kernel.{
  Status, success, insufficient_resources, connection_disconnected, buffer_too_small,
  no_more_entries, already_registered, delete_pending, nt_success, Run, done, bug_check, Pool,
  pool_alloc, pool_free, one, callback_record, and_then,
}
use irpmon.Request as Request
use irpmon.Request.{Request, Sizes, has_flag, set_flag, get_size}

-- IoInitializeRemoveLock, IoAcquireRemoveLock, IoReleaseRemoveLock, IoReleaseRemoveLockAndWait.
pub record RemoveLock (L : Type 0) : Type 0 where
  pub initial : L
  pub acquire : L → Status × L
  pub release : L → L
  pub release_and_wait : L → L

abbrev pub increment : ℕ → ℕ
increment n = (n + 1) % 2 ^ 32

abbrev pub decrement : ℕ → ℕ
decrement n = (n + 2 ^ 32 - 1) % 2 ^ 32

-- REQUEST_QUEUE_CALLBACK_RECORD at its address; `signalled` is its event.
pub record CallbackRecord : Type 0 where
  pub address : ℕ
  pub reference_count : ℕ
  pub signalled : Bool

-- The global variables, the settings that the queue reads and writes, and what became of the
-- requests that left it: `freed` by RequestMemoryFree, `invoked` for calls of callbacks.
pub record Queue (L : Type 0) : Type 0 where
  pub paged_list : List Request
  pub nonpaged_list : List Request
  pub last_request_id : ℕ
  pub length : ℕ
  pub nonpaged_length : ℕ
  pub paged_length : ℕ
  pub connected : Bool
  pub clear_on_disconnect : Bool
  pub collect_when_disconnected : Bool
  pub process_emulate_on_connect : Bool
  pub driver_snapshot_on_connect : Bool
  pub lock : L
  pub callbacks : List CallbackRecord
  pub freed : List Request
  pub invoked : List (ℕ × Request)

-- InsertHeadList and InsertTailList.
pub place : Bool → Request → List Request → List Request
place true r rs = r ∷ rs
place false r rs = rs ++ (r ∷ [])

-- The answer of _RequestRemove.
pub record Removed (L : Type 0) : Type 0 where
  pub request : Option Request
  pub next : Bool
  pub queue : Queue L

pub record Got (L : Type 0) : Type 0 where
  pub status : Status
  pub buffer : Option Request
  pub needed : ℕ
  pub queue : Queue L

abbrev pub is_empty : List Request → Bool
is_empty [] = true
is_empty (r ∷ rs) = false

module _ {L : Type 0} where
  pub request_insert : Request → Bool → Queue L → Run (Queue L)
  request_insert r head q =
      if has_flag Request.paged r.flags
      then done (record q {
        paged_list = place head r q.paged_list;
        paged_length = increment q.paged_length;
        length = increment q.length;
      })
      else (if has_flag Request.nonpaged r.flags
          then done (record q {
            nonpaged_list = place head r q.nonpaged_list;
            nonpaged_length = increment q.nonpaged_length;
            length = increment q.length;
          })
          else bug_check)

  -- Taking the head of one of the lists; the arguments are the lists.
  pub take_paged : Request → List Request → Queue L → Removed L
  take_paged r rs q = record {
    request = some r;
    next = not (is_empty rs) || not (is_empty q.nonpaged_list);
    queue = record q {
      paged_list = rs;
      paged_length = decrement q.paged_length;
      length = decrement q.length;
    };
  }

  pub take_nonpaged : Request → List Request → Queue L → Removed L
  take_nonpaged r rs q = record {
    request = some r;
    next = not (is_empty q.paged_list) || not (is_empty rs);
    queue = record q {
      nonpaged_list = rs;
      nonpaged_length = decrement q.nonpaged_length;
      length = decrement q.length;
    };
  }

  -- _RequestRemove on the two lists.
  pub remove_from : List Request → List Request → Queue L → Removed L
  remove_from [] [] q = record { request = none; next = false; queue = q }
  remove_from [] (n ∷ ns) q = take_nonpaged n ns q
  remove_from (p ∷ ps) [] q = take_paged p ps q
  remove_from (p ∷ ps) (n ∷ ns) q =
      if ltb n.id p.id then take_nonpaged n ns q else take_paged p ps q

  pub request_remove : Queue L → Removed L
  request_remove q = remove_from q.paged_list q.nonpaged_list q
