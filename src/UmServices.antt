-- ===== src/UmServices.antt =====
-- UMGetRequestRecord of irpmndrv/um-services.c: as many requests of the queue as fit go into the
-- buffer of an application, one behind the other.
-- The buffer is the sequence of copies, each at its offset. `access` says what each access to
-- the application's memory ends with, by the number of requests that were copied before it; it is
-- success throughout for a caller in kernel mode.
pub mod Filling
pub mod Snapshot
pub mod Oldest
mod Tests
use irpmon.Common.{
  ℕ, zero, suc, ◌+◌, ◌-◌, List, [], ◌∷◌, ◌++◌, Option, none, some, Bool, true, false, if◌then◌else◌,
  leb, ltb,
}
use irpmon.Kernel.{
  Status, success, buffer_too_small, no_more_entries, nt_success, Run, done, and_then,
}
use irpmon.Request.{Request, Sizes}
use irpmon.ReqQueue.{RemoveLock, Queue, Got}
use irpmon.ReqQueue.Service.{free, queue_get}
use irpmon.ReqQueue.Taking.{waiting}

-- A request of so many bytes at an offset in the buffer.
pub record Copied : Type 0 where
  pub at : ℕ
  pub bytes : ℕ
  pub request : Request

-- The variables of the loop: Buffer as an offset, requestSize, BufferLength, requestsAggregated,
-- *ReturnLength, and what was copied.
pub record Progress : Type 0 where
  pub offset : ℕ
  pub request_size : ℕ
  pub room : ℕ
  pub aggregated : ℕ
  pub return_length : ℕ
  pub copies : List Copied

-- How the routine ends; `null_link` is where Entry.Flink was set to NULL.
pub record Filled (L : Type 0) : Type 0 where
  pub status : Status
  pub return_length : ℕ
  pub copies : List Copied
  pub null_link : Option ℕ
  pub queue : Queue L

-- The statuses after which a buffer with requests in it is a success.
abbrev pub ends_well : Status → Bool
ends_well buffer_too_small = true
ends_well no_more_entries = true
ends_well _ = false

pub copy_request : Progress → ℕ → Request → Progress
copy_request p size h =
    let offset = p.offset + p.request_size in
    record {
      offset = offset;
      request_size = size;
      room = p.room - size;
      aggregated = p.aggregated + 1;
      return_length = p.return_length + size;
      copies = p.copies ++ (record { at = offset; bytes = size; request = h } ∷ []);
    }

-- RequestQueueGet answered without a request.
pub finish : {L : Type 0} → (ℕ → Status) → Progress → Status → Queue L → Filled L
finish access p status q =
    let final = if ends_well status then success else status in
    let linked = access p.aggregated in
    let written = nt_success linked in
    if ltb 0 p.aggregated
    then record {
      status = if written then final else linked;
      return_length = p.return_length;
      copies = p.copies;
      null_link = if written then some p.offset else none;
      queue = q;
    }
    else record {
      status = status;
      return_length = p.return_length;
      copies = p.copies;
      null_link = none;
      queue = q;
    }

-- The rest of a round after RequestQueueGet; its status is a success exactly with a request.
pub after_get :
    {L : Type 0}
    → (ℕ → Status)
    → (Progress → Queue L → Run (Option (Filled L)))
    → Progress
    → Got L
    → Option Request
    → Run (Option (Filled L))
after_get access loop p g none = done (some (finish access p g.status g.queue))
after_get access loop p g (some h) =
    let q = free h g.queue in
    let status = access p.aggregated in
    let next = loop (copy_request p g.needed h) q in
    if nt_success status
    then next
    else done (
        some (record {
          status = status;
          return_length = p.return_length;
          copies = p.copies;
          null_link = none;
          queue = q;
        }))

-- The loop, for at most so many rounds.
pub fill :
    {L : Type 0}
    → RemoveLock L
    → Sizes
    → (ℕ → Status)
    → ℕ
    → Progress
    → Queue L
    → Run (Option (Filled L))
fill ops z access zero p q = done none
fill ops z access (suc n) p q =
    and_then (queue_get ops z p.room q)
      (λ g. after_get access (λ p' q'. fill ops z access n p' q') p g g.buffer)

-- UMGetRequestRecord. `header` is sizeof(REQUEST_HEADER), `probed` the end of ProbeForWrite, and
-- `before` what *ReturnLength is before the call. Each round but the last takes a request.
pub get_request_record :
    {L : Type 0}
    → RemoveLock L
    → Sizes
    → (ℕ → Status)
    → ℕ
    → Status
    → ℕ
    → ℕ
    → Queue L
    → Run (Option (Filled L))
get_request_record {L = L} ops z access header probed before buffer_length q =
    let start : Progress = record {
      offset = 0;
      request_size = 0;
      room = buffer_length;
      aggregated = 0;
      return_length = 0;
      copies = [];
    } in
    let refused : Status → ℕ → Run (Option (Filled L)) = λ status length. done (
      some (record {
        status = status;
        return_length = length;
        copies = [];
        null_link = none;
        queue = q;
      })) in
    if leb header buffer_length
    then if nt_success probed then fill ops z access (suc (waiting q)) start q else refused probed 0
    else refused buffer_too_small before
