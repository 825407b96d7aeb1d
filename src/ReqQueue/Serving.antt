-- ===== src/ReqQueue/Serving.antt =====
-- No call of kbase/req-queue.c stops the queue from answering the next one.
use irpmon.Common.{ℕ, ◌≡◌, List, All}
use irpmon.Kernel.{Status, done}
use irpmon.Request.{Request, Sizes}
use irpmon.ReqQueue.{RemoveLock, Queue, Got}
use irpmon.ReqQueue.Service.{queue_insert, connect, queue_get}
use irpmon.ReqQueue.Valid.{HasMemory}
use irpmon.ReqQueue.Machine.{
  Reachable, stepped, inserts, gets, connects, Reachable-WellFormed, queue_insert-WellFormed,
  queue_get-WellFormed, connect-WellFormed,
}

-- In every state that the routines reach, with any callbacks registered and any settings,
-- RequestQueueInsert of a request with a memory mark,
-- RequestQueueGet with any room for the request, and RequestQueueConnect with any snapshots of
-- marked requests return, without a debug break, and leave a state that the routines reach, from
-- which the next call returns as well.
pub Reachable-serves :
    {L : Type 0} (ops : RemoveLock L) (q : Queue L) (r : Request) (z : Sizes) (room : ℕ)
    (processes drivers : Status × List Request)
    → Reachable ops q
    → HasMemory r
    → All HasMemory processes.1
    → All HasMemory drivers.1
    → ((q' : Queue L) × (queue_insert ops r q ≡ done q') × Reachable ops q')
      × ((g : Got L) × (queue_get ops z room q ≡ done g) × Reachable ops g.queue)
      × ((o : Status × Queue L) × (connect ops processes drivers q ≡ done o) × Reachable ops o.1)
Reachable-serves ops q r z room processes drivers reached marked ps ds =
    let w = Reachable-WellFormed ops q reached in
    let (q', inserted, wq) = queue_insert-WellFormed ops r q marked w in
    let (g, got, wg) = queue_get-WellFormed ops z room q w in
    let (o, connected, wo) = connect-WellFormed ops processes drivers q ps ds w in
    (
      (q', inserted, stepped reached (inserts r marked inserted)),
      (g, got, stepped reached (gets z room g got)),
      (o, connected, stepped reached (connects processes drivers o ps ds connected)),
    )
