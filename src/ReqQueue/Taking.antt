-- ===== src/ReqQueue/Taking.antt =====
-- How many requests RequestQueueGet of kbase/req-queue.c takes, and how long they are.
use irpmon.Common.{
  ℕ, ◌+◌, ◌≤◌, ◌≡◌, refl, List, [], ◌∷◌, Option, none, some, Bool, true, false, length, leb, leb→le,
  Bool-cases, inl, inr, if_intro, ltb, arith, ap, subst, sym, length-append, ◌∙◌,
}
use irpmon.Kernel.{success, nt_success, Run, done, bug_check, and_then, buffer_too_small}
use irpmon.Request as Request
use irpmon.Request.{Request, Sizes, get_size, get_size-set_next, has_flag}
use irpmon.ReqQueue.{
  RemoveLock, Queue, Removed, Got, place, request_insert, take_paged, take_nonpaged, remove_from,
  request_remove,
}
use irpmon.ReqQueue.Service.{release, deliver, get_acquired, queue_get}

length-place :
    (head : Bool) (r : Request) (rs : List Request) → length (place head r rs) ≡ length rs + 1
unfolding place
length-place true r rs = omega arith
length-place false r rs = length-append rs (r ∷ []) ∙ omega arith

module _ {L : Type 0} where
  -- The requests in the queue.
  unfoldable pub waiting : Queue L → ℕ
  waiting q = length q.paged_list + length q.nonpaged_list

  TakenOne : ℕ → Removed L → Type 0
  TakenOne n a =
      ((h : Request) → a.request ≡ some h → waiting a.queue + 1 ≡ n)
      × (a.request ≡ none → waiting a.queue ≡ n)

  remove_from-TakenOne :
      (ps ns : List Request) (q : Queue L)
      → q.paged_list ≡ ps
      → q.nonpaged_list ≡ ns
      → TakenOne (length ps + length ns) (remove_from ps ns q)
  unfolding TakenOne remove_from take_paged take_nonpaged waiting
  remove_from-TakenOne [] [] q p n =
      let none_paged : length q.paged_list ≡ 0 = ap length p in
      let none_nonpaged : length q.nonpaged_list ≡ 0 = ap length n in
      ((λ h e. absurd (cc e)), λ e. omega arith)
  remove_from-TakenOne [] (r ∷ ns) q p n =
      let none_paged : length q.paged_list ≡ 0 = ap length p in
      ((λ h e. omega arith), λ e. absurd (cc e))
  remove_from-TakenOne (r ∷ ps) [] q p n =
      let none_nonpaged : length q.nonpaged_list ≡ 0 = ap length n in
      ((λ h e. omega arith), λ e. absurd (cc e))
  remove_from-TakenOne (r ∷ ps) (r' ∷ ns) q p n =
      let paged : length q.paged_list ≡ length (r ∷ ps) = ap length p in
      let nonpaged : length q.nonpaged_list ≡ length (r' ∷ ns) = ap length n in
      if_intro (TakenOne (length (r ∷ ps) + length (r' ∷ ns))) (ltb r'.id r.id)
        ((λ h e. omega arith), λ e. absurd (cc e)) ((λ h e. omega arith), λ e. absurd (cc e))

  -- What an answer of RequestQueueGet says: a request fits with its size, and is taken off the queue; without a
  -- request the status is an error, and as many requests wait as before.
  unfoldable pub Took : Sizes → ℕ → ℕ → Option Request → Got L → Type 0
  Took z room n (some h) g =
      (g.status ≡ success)
      × (g.needed ≤ room)
      × (g.needed ≡ get_size z h)
      × (waiting g.queue + 1 ≡ n)
  Took z room n none g = (nt_success g.status ≡ false) × (waiting g.queue ≡ n)

  OneMore : ℕ → Run (Queue L) → Type 0
  OneMore n (done q) = waiting q ≡ n + 1
  OneMore n bug_check = Unit

  request_insert-OneMore :
      (h : Request) (head : Bool) (q : Queue L) → OneMore (waiting q) (request_insert h head q)
  unfolding request_insert OneMore waiting
  request_insert-OneMore h head q =
      if_intro (OneMore (waiting q)) (has_flag Request.paged h.flags)
        (omega (arith, length-place head h q.paged_list))
        (if_intro (OneMore (waiting q)) (has_flag Request.nonpaged h.flags)
          (omega (arith, length-place head h q.nonpaged_list)) tt)

  TookRun : Sizes → ℕ → ℕ → Run (Got L) → Type 0
  TookRun z room n (done g) = Took z room n g.buffer g
  TookRun z room n bug_check = Unit

  deliver-TookRun :
      (ops : RemoveLock L) (z : Sizes) (room n : ℕ) (o : Option Request) (next : Bool) (q : Queue L)
      → ((h : Request) → o ≡ some h → waiting q + 1 ≡ n) × (o ≡ none → waiting q ≡ n)
      → TookRun z room n (deliver ops z room o next q)
  unfolding deliver TookRun Took and_then release waiting OneMore
  deliver-TookRun ops z room n none next q taken = (refl, taken.1 refl)
  deliver-TookRun ops z room n (some h) next q taken = elim (Bool-cases (leb (get_size z h) room)) [
    | inl fits ↦
        rw fits
          (refl, leb→le (get_size z h) room fits, sym (get_size-set_next z h next), taken.0 h refl)
    | inr long ↦
        rw long
          (put_back (request_insert h true q) (taken.0 h refl) (request_insert-OneMore h true q))
  ]
    where
      put_back :
          (run : Run (Queue L))
          → waiting q + 1 ≡ n
          → OneMore (waiting q) run
          → TookRun z room n (
              and_then run (λ q'. done (record {
                status = buffer_too_small;
                buffer = none;
                needed = get_size z h;
                queue = release ops q';
              })))
      put_back (done q') e m = (refl, m ∙ e)
      put_back bug_check e m = tt

  pub queue_get-Took :
      (ops : RemoveLock L) (z : Sizes) (room : ℕ) (q : Queue L) (g : Got L)
      → queue_get ops z room q ≡ done g
      → Took z room (waiting q) g.buffer g
  unfolding queue_get get_acquired TookRun request_remove TakenOne waiting Took
  queue_get-Took ops z room q g e =
      let a = ops.acquire q.lock in
      let q' = record q { lock = a.1 } in
      let removed = request_remove q' in
      let whole : TookRun z room (waiting q) (queue_get ops z room q) =
        if_intro (TookRun z room (waiting q)) q.connected
          (elim (Bool-cases (nt_success a.0)) [
            | inl ok ↦ rw ok (
                deliver-TookRun ops z room (waiting q) removed.request removed.next removed.queue
                  (remove_from-TakenOne q.paged_list q.nonpaged_list q' refl refl))
            | inr bad ↦ rw bad (bad, refl)
          ])
          (refl, refl) in
      subst (TookRun z room (waiting q)) e whole
