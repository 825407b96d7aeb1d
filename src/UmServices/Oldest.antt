-- ===== src/UmServices/Oldest.antt =====
-- Which requests UMGetRequestRecord hands to an application.
use irpmon.Common.{◌≤◌, ◌≡◌, List, [], ◌++◌, map, Option, some, true, length}
use irpmon.Kernel.{nt_success, Run, done}
use irpmon.Request.{Request}
use irpmon.ReqQueue.Merged.{content, pending}
use irpmon.UmServices.{Copied, Filled}

-- The requests that were copied.
abbrev pub handed : List Copied → List Request
handed cs = map (λ c. content c.request) cs

-- All requests are those that were copied, then at most one that was lost, then those that still
-- wait; after a success none is lost.
pub Handed : {L : Type 0} → List Request → Filled L → Type 0
Handed all f =
    (lost : List Request) × (all ≡ handed f.copies ++ (lost ++ map content (pending f.queue)))
    × (length lost ≤ 1)
    × (nt_success f.status ≡ true → lost ≡ [])

HandsOver : {L : Type 0} → List Request → Run (Option (Filled L)) → Type 0
HandsOver {L = L} all run = (f : Filled L) → run ≡ done (some f) → Handed all f
