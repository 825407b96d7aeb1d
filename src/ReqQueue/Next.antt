-- ===== src/ReqQueue/Next.antt =====
-- The mark by which RequestQueueGet of kbase/req-queue.c tells that another request waits.
use irpmon.Common.{
  ℕ, ◌≡◌, refl, List, [], ◌∷◌, Option, none, some, Bool, true, false, ◌||◌, not, ◌⊎◌, inl, inr,
  subst, sym, ap, ◌∙◌, ltb, leb, if_intro,
}
use irpmon.Kernel.{Status, buffer_too_small, nt_success, Run, done, bug_check, and_then}
use irpmon.Request.{Request, Sizes, get_size, set_flag, next_available}
use irpmon.ReqQueue.{
  RemoveLock, Queue, Removed, Got, is_empty, request_insert, request_remove, remove_from,
  take_paged, take_nonpaged,
}
use irpmon.ReqQueue.Service.{release, deliver, get_acquired, queue_get}

abbrev flags_of : ℕ → Option Request → ℕ
flags_of default none = default
flags_of default (some r) = r.flags

waiting :
    (xs ys : List Request)
    → (not (is_empty xs) || not (is_empty ys) ≡ true)
      ⊎ ((not (is_empty xs) || not (is_empty ys) ≡ false) × (xs ≡ []) × (ys ≡ []))
waiting [] [] = inr (refl, refl, refl)
waiting [] (y ∷ ys) = inl refl
waiting (x ∷ xs) ys = inl refl

module _ {L : Type 0} where
  -- No request is left in the queue.
  unfoldable pub Drained : Queue L → Type 0
  Drained q = (q.paged_list ≡ []) × (q.nonpaged_list ≡ [])

  -- Whether a request is left in the queue.
  unfoldable pub has_more : Queue L → Bool
  has_more q = not (is_empty q.paged_list) || not (is_empty q.nonpaged_list)

  Announced : Bool → Queue L → Type 0
  Announced next q = ((next ≡ true) × (has_more q ≡ true)) ⊎ ((next ≡ false) × Drained q)

  take_paged-Announced :
      (p : Request) (ps : List Request) (q : Queue L)
      → Announced (take_paged p ps q).next (take_paged p ps q).queue
  unfolding take_paged Announced Drained has_more
  take_paged-Announced p ps q = elim (waiting ps q.nonpaged_list) [
    | inl e ↦ inl (e, e)
    | inr e ↦ inr (e.0, (e.1, e.2))
  ]

  take_nonpaged-Announced :
      (n : Request) (ns : List Request) (q : Queue L)
      → Announced (take_nonpaged n ns q).next (take_nonpaged n ns q).queue
  unfolding take_nonpaged Announced Drained has_more
  take_nonpaged-Announced n ns q = elim (waiting q.paged_list ns) [
    | inl e ↦ inl (e, e)
    | inr e ↦ inr (e.0, (e.1, e.2))
  ]

  remove_from-Announced :
      (ps ns : List Request) (q : Queue L)
      → q.paged_list ≡ ps
      → q.nonpaged_list ≡ ns
      → Announced (remove_from ps ns q).next (remove_from ps ns q).queue
  unfolding remove_from Announced Drained
  remove_from-Announced [] [] q e f = inr (refl, (e, f))
  remove_from-Announced [] (n ∷ ns) q e f = take_nonpaged-Announced n ns q
  remove_from-Announced (p ∷ ps) [] q e f = take_paged-Announced p ps q
  remove_from-Announced (p ∷ ps) (n ∷ ns) q e f =
      if_intro (λ (a : Removed L). Announced a.next a.queue) (ltb n.id p.id)
        (take_nonpaged-Announced n ns q) (take_paged-Announced p ps q)

  -- What was handed out is what was taken: with the mark if more requests are left, as it stood in
  -- the queue if none is.
  unfoldable pub Marked : Option Request → Got L → Request → Type 0
  Marked front g h =
      (r : Request) × (front ≡ some r)
      × (((has_more g.queue ≡ true) × (h ≡ record r { flags = set_flag next_available r.flags }))
          ⊎ (Drained g.queue × (h ≡ r)))

  GetsMarked : Option Request → Run (Got L) → Type 0
  GetsMarked front run =
      (g : Got L) (h : Request) → run ≡ done g → g.buffer ≡ some h → Marked front g h

  handed :
      (front : Option Request) (a : Got L)
      → ((h : Request) → a.buffer ≡ some h → Marked front a h)
      → GetsMarked front (done a)
  unfolding GetsMarked
  handed front a f g h e got =
      let same : g ≡ a = cc e in
      let buffer : a.buffer ≡ some h = ap (λ x. x.buffer) (sym same) ∙ got in
      subst (λ x. Marked front x h) (sym same) (f h buffer)

  kept :
      (front : Option Request) (ops : RemoveLock L) (s : Status) (n : ℕ) (run : Run (Queue L))
      → GetsMarked front (
          and_then run
            (λ q. done (record { status = s; buffer = none; needed = n; queue = release ops q })))
  unfolding and_then GetsMarked
  kept front ops s n (done q) = handed front _ (λ h same. absurd (cc same))
  kept front ops s n bug_check = λ g h e got. absurd (cc e)

  deliver-Marked :
      (ops : RemoveLock L) (z : Sizes) (room : ℕ) (o : Option Request) (next : Bool) (q : Queue L)
      → Announced next q
      → GetsMarked o (deliver ops z room o next q)
  unfolding deliver release Announced Drained Marked has_more
  deliver-Marked ops z room none next q a = handed none _ (λ h same. absurd (cc same))
  deliver-Marked ops z room (some r) true q a =
      if_intro (GetsMarked (some r)) (leb (get_size z r) room)
        (handed (some r) _ (λ h same.
          let flagged : h ≡ record r { flags = set_flag next_available r.flags } = cc same in
          elim a [ inl e ↦ (r, refl, inl (e.1, flagged)) | inr e ↦ absurd (cc (e.0)) ]))
        (kept (some r) ops buffer_too_small (get_size z r) (request_insert r true q))
  deliver-Marked ops z room (some r) false q a =
      if_intro (GetsMarked (some r)) (leb (get_size z r) room)
        (handed (some r) _ (λ h same.
          let plain : h ≡ r = cc same in
          elim a [ inl e ↦ absurd (cc (e.0)) | inr e ↦ (r, refl, inr (e.1, plain)) ]))
        (kept (some r) ops buffer_too_small (get_size z r) (request_insert r true q))

  -- What RequestQueueGet hands out is the request that _RequestRemove took from the queue. It is
  -- marked with REQUEST_FLAG_NEXT_AVAILABLE if a request is left in the queue, and unchanged if the
  -- queue is left empty.
  pub queue_get-next :
      (ops : RemoveLock L) (z : Sizes) (room : ℕ) (q : Queue L) (g : Got L) (h : Request)
      → queue_get ops z room q ≡ done g
      → g.buffer ≡ some h
      → Marked (request_remove (record q { lock = (ops.acquire q.lock).1 })).request g h
  unfolding queue_get get_acquired request_remove GetsMarked Marked
  queue_get-next ops z room q g h e got =
      let a = ops.acquire q.lock in
      let removed = request_remove (record q { lock = a.1 }) in
      if_intro (GetsMarked removed.request) q.connected
        (if_intro (GetsMarked removed.request) (nt_success a.0)
          (deliver-Marked ops z room removed.request removed.next removed.queue (
            remove_from-Announced q.paged_list q.nonpaged_list (record q { lock = a.1 }) refl refl))
          (handed removed.request _ (λ x same. absurd (cc same))))
        (handed removed.request _ (λ x same. absurd (cc same))) g h e got
