-- ===== src/ReqQueue/Callbacks.antt =====
-- The callbacks of kbase/req-queue.c, on the list of their records: taking references, calling,
-- giving the references back, registering and unregistering.
use irpmon.Common.{ℕ, List, [], ◌∷◌, ◌++◌, Bool, true, false, if◌then◌else◌, ◌==◌}
use irpmon.Kernel.{Status, success, insufficient_resources, Pool, pool_alloc, one, callback_record}
use irpmon.Request.{Request}
use irpmon.ReqQueue.{increment, decrement, CallbackRecord}

-- _CallbackListReference takes a reference on every record, and answers the last one.
unfoldable pub reference : List CallbackRecord → List CallbackRecord
reference [] = []
reference (c ∷ cs) = record c { reference_count = increment c.reference_count } ∷ reference cs

unfoldable pub last_of : CallbackRecord → List CallbackRecord → ℕ
last_of c [] = c.address
last_of c (d ∷ ds) = last_of d ds

-- _CallbackListInvoke: the calls, from the first record up to the last one.
unfoldable pub invoke : ℕ → Request → List CallbackRecord → List (ℕ × Request)
invoke last r [] = []
invoke last r (c ∷ cs) =
    let rest = invoke last r cs in
    if c.address == last then (c.address, r) ∷ [] else (c.address, r) ∷ rest

-- Giving one reference back: the record stays in the list, or it leaves and its event is set.
unfoldable pub drop_reference : CallbackRecord → List CallbackRecord × List CallbackRecord
drop_reference c =
    let left = decrement c.reference_count in
    if left == 0
    then ([], record c { reference_count = left; signalled = true } ∷ [])
    else (record c { reference_count = left } ∷ [], [])

-- _CallbackListDereference: what stays in the list, and the records that left it.
unfoldable pub dereference : ℕ → List CallbackRecord → List CallbackRecord × List CallbackRecord
dereference last [] = ([], [])
dereference last (c ∷ cs) =
    let here = drop_reference c in
    let rest = dereference last cs in
    if c.address == last then (here.0 ++ cs, here.1) else (here.0 ++ rest.0, here.1 ++ rest.1)

-- RequestQueueCallbackRegister; the new record stands at `address` when memory is granted.
unfoldable pub callback_register :
    ℕ → Pool → List CallbackRecord → Status × Pool × List CallbackRecord
callback_register address p cs =
    let (granted, p') = pool_alloc (one callback_record) p in
    if granted
    then (
      success,
      p',
      cs ++ (record { address = address; reference_count = 1; signalled = false } ∷ []),
    )
    else (insufficient_resources, p', cs)

-- RequestQueueCallbackUnregister up to the wait: whether it waits for the record's event, and the
-- list. The record at the handle loses a reference, and leaves the list with the last one.
unfoldable pub callback_unregister : ℕ → List CallbackRecord → Bool × List CallbackRecord
callback_unregister handle [] = (false, [])
callback_unregister handle (c ∷ cs) =
    let left = decrement c.reference_count in
    let rest = callback_unregister handle cs in
    if c.address == handle
    then (if left == 0 then (false, cs) else (true, record c { reference_count = left } ∷ cs))
    else (rest.0, c ∷ rest.1)
