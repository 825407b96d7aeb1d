-- ===== src/ReqQueue/Answers.antt =====
-- What RequestQueueGet and RequestQueueInsert of kbase/req-queue.c answer in their special cases.
use irpmon.Common.{
  ℕ, ◌<◌, ◌≡◌, refl, List, [], ◌∷◌, none, some, Bool, true, false, arith, inl, inr, All, subst, sym,
  ap, ◌∙◌, Bool-cases, ltb, leb, if_intro, if_true, if_false, ◌||◌,
}
use irpmon.Kernel.{success, delete_pending, buffer_too_small, nt_success, done, and_then}
use irpmon.Request.{Request, Sizes, get_size}
use irpmon.ReqQueue.{
  RemoveLock, Queue, Removed, increment, decrement, place, request_insert, request_remove,
  remove_from, take_paged, take_nonpaged,
}
use irpmon.ReqQueue.Service.{
  release, deliver, get_acquired, queue_get, queue_insert, insert_acquired, refused, free,
  disconnect, clear, clear_nonpaged, clear_paged,
}
use irpmon.ReqQueue.Valid.{Paged, Nonpaged, WellFormed}

-- The documented behaviour of a remove lock. IoAcquireRemoveLock succeeds until
-- IoReleaseRemoveLockAndWait has marked the lock as removed, and answers STATUS_DELETE_PENDING from
-- then on, until the lock is initialised again.
pub record RemoveLockLaws {L : Type 0} (ops : RemoveLock L) (removed : L → Bool) : Type 0 where
  pub initial_open : removed ops.initial ≡ false
  pub acquire_open : (l : L) → removed l ≡ false → (ops.acquire l).0 ≡ success
  pub acquire_removed : (l : L) → removed l ≡ true → (ops.acquire l).0 ≡ delete_pending
  pub acquire_keeps : (l : L) → removed (ops.acquire l).1 ≡ removed l
  pub release_keeps : (l : L) → removed (ops.release l) ≡ removed l
  pub wait_removes : (l : L) → removed (ops.release_and_wait l) ≡ true

module _ {L : Type 0} where
  -- The request that _RequestRemove took goes back to where it stood.
  unfoldable pub PutBack : Queue L → Removed L → Type 0
  PutBack q a = (r : Request) → a.request ≡ some r → request_insert r true a.queue ≡ done q

  take_paged-PutBack :
      (p : Request) (ps : List Request) (q : Queue L)
      → q.paged_list ≡ p ∷ ps
      → Paged p
      → increment (decrement q.paged_length) ≡ q.paged_length
      → increment (decrement q.length) ≡ q.length
      → PutBack q (take_paged p ps q)
  unfolding take_paged request_insert PutBack place
  take_paged-PutBack p ps q e m cp ct r same =
      let here : p ≡ r = cc same in
      let whole : record q {
        paged_list = p ∷ ps;
        paged_length = increment (decrement q.paged_length);
        length = increment (decrement q.length);
      }
          ≡ q =
        λ i. record q { paged_list = sym e i; paged_length = cp i; length = ct i } in
      subst (λ x. request_insert x true (take_paged p ps q).queue ≡ done q) here
        (rw m (ap done whole))

  take_nonpaged-PutBack :
      (n : Request) (ns : List Request) (q : Queue L)
      → q.nonpaged_list ≡ n ∷ ns
      → Nonpaged n
      → increment (decrement q.nonpaged_length) ≡ q.nonpaged_length
      → increment (decrement q.length) ≡ q.length
      → PutBack q (take_nonpaged n ns q)
  unfolding take_nonpaged request_insert PutBack place
  take_nonpaged-PutBack n ns q e (np, m) cp ct r same =
      let here : n ≡ r = cc same in
      let whole : record q {
        nonpaged_list = n ∷ ns;
        nonpaged_length = increment (decrement q.nonpaged_length);
        length = increment (decrement q.length);
      }
          ≡ q =
        λ i. record q { nonpaged_list = sym e i; nonpaged_length = cp i; length = ct i } in
      subst (λ x. request_insert x true (take_nonpaged n ns q).queue ≡ done q) here
        (rw (np, m) (ap done whole))

  pub remove_from-PutBack :
      (ps ns : List Request) (q : Queue L)
      → q.paged_list ≡ ps
      → q.nonpaged_list ≡ ns
      → WellFormed q
      → PutBack q (remove_from ps ns q)
  unfolding remove_from PutBack All
  remove_from-PutBack [] [] q e f w = λ r same. absurd (cc same)
  remove_from-PutBack [] (n ∷ ns) q e f w =
      take_nonpaged-PutBack n ns q f (subst (All Nonpaged) f w.all_nonpaged).0
        (omega (arith, w.nonpaged_count)) (omega (arith, w.total_count))
  remove_from-PutBack (p ∷ ps) [] q e f w =
      take_paged-PutBack p ps q e (subst (All Paged) e w.all_paged).0 (omega (arith, w.paged_count))
        (omega (arith, w.total_count))
  remove_from-PutBack (p ∷ ps) (n ∷ ns) q e f w =
      if_intro (PutBack q) (ltb n.id p.id)
        (take_nonpaged-PutBack n ns q f (subst (All Nonpaged) f w.all_nonpaged).0
          (omega (arith, w.nonpaged_count)) (omega (arith, w.total_count)))
        (take_paged-PutBack p ps q e (subst (All Paged) e w.all_paged).0
          (omega (arith, w.paged_count)) (omega (arith, w.total_count)))

  -- The request that is taken does not depend on the lock.
  request-lock :
      (ps ns : List Request) (q : Queue L) (l : L)
      → (remove_from ps ns (record q { lock = l })).request ≡ (remove_from ps ns q).request
  unfolding remove_from take_paged take_nonpaged
  request-lock [] [] q l = refl
  request-lock [] (n ∷ ns) q l = refl
  request-lock (p ∷ ps) [] q l = refl
  request-lock (p ∷ ps) (n ∷ ns) q l = elim (Bool-cases (ltb n.id p.id)) [
    | inl y ↦ rw y refl
    | inr y ↦ rw y refl
  ]

  deliver-too_small :
      (ops : RemoveLock L) (z : Sizes) (room : ℕ) (h : Request) (next : Bool) (q q' : Queue L)
      → leb (get_size z h) room ≡ false
      → request_insert h true q ≡ done q'
      → deliver ops z room (some h) next q
        ≡ done (record {
          status = buffer_too_small;
          buffer = none;
          needed = get_size z h;
          queue = release ops q';
        })
  unfolding deliver and_then
  deliver-too_small ops z room h next q q' small back = if_false _ _ small ∙ rw back refl

  -- When the buffer is too small for the next request, RequestQueueGet says so and how many bytes
  -- the request needs, and the queue is as before: the request stands first in its list again.
  pub queue_get-too_small :
      (ops : RemoveLock L) (z : Sizes) (room : ℕ) (q : Queue L) (h : Request)
      → WellFormed q
      → q.connected ≡ true
      → (ops.acquire q.lock).0 ≡ success
      → (request_remove q).request ≡ some h
      → room < get_size z h
      → queue_get ops z room q
        ≡ done (record {
          status = buffer_too_small;
          buffer = none;
          needed = get_size z h;
          queue = record q { lock = ops.release (ops.acquire q.lock).1 };
        })
  unfolding queue_get get_acquired request_remove PutBack release
  queue_get-too_small ops z room q h w c a e small =
      let l = (ops.acquire q.lock).1 in
      let q' = record q { lock = l } in
      let removed = request_remove q' in
      let same : removed.request ≡ some h = request-lock q.paged_list q.nonpaged_list q l ∙ e in
      let locked : WellFormed q' = record {
        all_paged = w.all_paged;
        all_nonpaged = w.all_nonpaged;
        paged_count = w.paged_count;
        nonpaged_count = w.nonpaged_count;
        total_count = w.total_count;
      } in
      let back : request_insert h true removed.queue ≡ done q' =
        remove_from-PutBack q.paged_list q.nonpaged_list q' refl refl locked h same in
      let short : leb (get_size z h) room ≡ false = ground arith in
      if_true _ _ c
      ∙ (if_true _ _ (ap nt_success a)
          ∙ (ap (λ o. deliver ops z room o removed.next removed.queue) same
              ∙ deliver-too_small ops z room h removed.next removed.queue q' short back))

  rejected :
      (ops : RemoveLock L) (r : Request) (q : Queue L)
      → q.connected || q.collect_when_disconnected ≡ true
      → (ops.acquire q.lock).0 ≡ delete_pending
      → queue_insert ops r q
        ≡ done (record q { lock = (ops.acquire q.lock).1; freed = r ∷ q.freed })
  unfolding queue_insert insert_acquired refused free
  rejected ops r q on e =
      if_true _ _ on
      ∙ (if_false _ _ (ap nt_success e)
          ∙ ap (λ s. done (refused s r (record q { lock = (ops.acquire q.lock).1 }))) e)

  -- Clearing leaves the lock and the settings as they are.
  clear_nonpaged-keeps :
      (rs : List Request) (q : Queue L)
      → ((clear_nonpaged rs q).lock ≡ q.lock)
        × ((clear_nonpaged rs q).collect_when_disconnected ≡ q.collect_when_disconnected)
  unfolding clear_nonpaged
  clear_nonpaged-keeps [] q = (refl, refl)
  clear_nonpaged-keeps (r ∷ rs) q = clear_nonpaged-keeps rs _

  clear_paged-keeps :
      (rs : List Request) (q : Queue L)
      → ((clear_paged rs q).lock ≡ q.lock)
        × ((clear_paged rs q).collect_when_disconnected ≡ q.collect_when_disconnected)
  unfolding clear_paged
  clear_paged-keeps [] q = (refl, refl)
  clear_paged-keeps (r ∷ rs) q = clear_paged-keeps rs _

  clear-keeps :
      (q : Queue L)
      → ((clear q).lock ≡ q.lock)
        × ((clear q).collect_when_disconnected ≡ q.collect_when_disconnected)
  unfolding clear
  clear-keeps q =
      let first = clear_nonpaged-keeps q.nonpaged_list (record q { nonpaged_list = [] }) in
      let q₁ = clear_nonpaged q.nonpaged_list (record q { nonpaged_list = [] }) in
      let second = clear_paged-keeps q.paged_list (record q₁ { paged_list = [] }) in
      (second.0 ∙ first.0, second.1 ∙ first.1)

  -- A queue behind a closed remove lock, in which requests are to be collected.
  Closed : (removed : L → Bool) → Queue L → Type 0
  Closed removed q = (removed q.lock ≡ true) × (q.collect_when_disconnected ≡ true)

  disconnect-Closed :
      (ops : RemoveLock L) (removed : L → Bool) (q : Queue L)
      → RemoveLockLaws ops removed
      → q.connected ≡ true
      → q.collect_when_disconnected ≡ true
      → Closed removed (disconnect ops q)
  unfolding disconnect Closed
  disconnect-Closed ops removed q laws c collect =
      let away = record q { lock = ops.release_and_wait q.lock; connected = false } in
      let plain : Closed removed away = (laws.wait_removes q.lock, collect) in
      let (lock, setting) = clear-keeps away in
      let emptied : Closed removed (clear away) =
        (ap removed lock ∙ laws.wait_removes q.lock, setting ∙ collect) in
      rw c (if_intro (Closed removed) q.clear_on_disconnect emptied plain)

  -- With `ReqQueueCollectWhenDisconnected` set, and a remove lock that behaves as documented: after
  -- RequestQueueDisconnect of a connected queue, RequestQueueInsert frees the request; it is neither
  -- stored nor given to a callback.
  pub insert-disconnect :
      (ops : RemoveLock L) (removed : L → Bool) (r : Request) (q : Queue L)
      → RemoveLockLaws ops removed
      → q.connected ≡ true
      → q.collect_when_disconnected ≡ true
      → queue_insert ops r (disconnect ops q)
        ≡ done (record (disconnect ops q) {
          lock = (ops.acquire (disconnect ops q).lock).1;
          freed = r ∷ (disconnect ops q).freed;
        })
  unfolding Closed
  insert-disconnect ops removed r q laws c collect =
      let (closed, collects) = disconnect-Closed ops removed q laws c collect in
      rejected ops r (disconnect ops q) (either (disconnect ops q).connected _ collects)
        (laws.acquire_removed _ closed)
    where
      either : (a b : Bool) → b ≡ true → a || b ≡ true
      either true b h = refl
      either false b h = h
