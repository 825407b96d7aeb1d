-- ===== src/ReqQueue/Merged.antt =====
-- The two lists of kbase/req-queue.c as one: the requests merged by their numbers.
use irpmon.Common.{
  ℕ, ◌≡◌, refl, ap, subst, List, [], ◌∷◌, Option, none, some, Bool, true, map, if◌then◌else◌, ltb,
  leb, Bool-cases, inl, inr, if_intro,
}
use irpmon.Kernel.{nt_success, Run, done, bug_check, and_then}
use irpmon.Request.{Request, Sizes, get_size}
use irpmon.ReqQueue.{
  RemoveLock, Queue, Removed, Got, request_insert, take_paged, take_nonpaged, remove_from,
  request_remove,
}
use irpmon.ReqQueue.Service.{release, deliver, get_acquired, queue_get}
use irpmon.ReqQueue.Valid.{WellFormed}
use irpmon.ReqQueue.Answers.{PutBack, remove_from-PutBack}

-- `r` and what is merged with the rest of its list, merged with another list.
weave : Request → (List Request → List Request) → List Request → List Request
weave r rest [] = r ∷ rest []
weave r rest (n ∷ ns) =
    let later = weave r rest ns in if ltb n.id r.id then n ∷ later else r ∷ rest (n ∷ ns)

-- Two lists merged by the numbers of their requests.
pub merged : List Request → List Request → List Request
merged [] ns = ns
merged (p ∷ ps) ns = weave p (merged ps) ns

-- A request without its flags.
abbrev pub content : Request → Request
content r = record r { flags = 0 }

module _ {L : Type 0} where
  -- All requests of the queue by their numbers.
  abbrev pub pending : Queue L → List Request
  pending q = merged q.paged_list q.nonpaged_list

  TakesHead : List Request → Removed L → Type 0
  TakesHead all a =
      ((h : Request) → a.request ≡ some h → all ≡ h ∷ pending a.queue)
      × (a.request ≡ none → pending a.queue ≡ all)

  remove_from-TakesHead :
      (ps ns : List Request) (q : Queue L)
      → q.paged_list ≡ ps
      → q.nonpaged_list ≡ ns
      → TakesHead (merged ps ns) (remove_from ps ns q)
  unfolding TakesHead remove_from take_paged take_nonpaged merged weave
  remove_from-TakesHead [] [] q e f = ((λ h k. absurd (cc k)), λ k. rw (e, f) refl)
  remove_from-TakesHead [] (n ∷ ns) q e f =
      ((λ h k. let same : n ≡ h = cc k in rw e (ap (λ x. x ∷ ns) same)), λ k. absurd (cc k))
  remove_from-TakesHead (p ∷ ps) [] q e f = (
    (λ h k. let same : p ≡ h = cc k in rw f (ap (λ x. x ∷ merged ps []) same)),
    λ k. absurd (cc k),
  )
  remove_from-TakesHead (p ∷ ps) (n ∷ ns) q e f = elim (Bool-cases (ltb n.id p.id)) [
    | inl newer ↦ rw newer (
      (λ h k. let same : n ≡ h = cc k in rw e (ap (λ x. x ∷ weave p (merged ps) ns) same)),
      λ k. absurd (cc k),
    )
    | inr older ↦ rw older (
      (λ h k. let same : p ≡ h = cc k in rw f (ap (λ x. x ∷ merged ps (n ∷ ns)) same)),
      λ k. absurd (cc k),
    )
  ]

  -- What RequestQueueGet answers, of all requests in their order: the first one, but for its flags,
  -- or none, and then all are still there.
  unfoldable pub GivesFirst : List Request → Option Request → Queue L → Type 0
  GivesFirst all (some r) q = map content all ≡ content r ∷ map content (pending q)
  GivesFirst all none q = pending q ≡ all

  FirstRun : List Request → Run (Got L) → Type 0
  FirstRun all (done g) = GivesFirst all g.buffer g.queue
  FirstRun all bug_check = Unit

  deliver-FirstRun :
      (ops : RemoveLock L) (z : Sizes) (room : ℕ) (all : List Request) (o : Option Request)
      (next : Bool) (q : Queue L) (before : Queue L)
      → ((h : Request) → o ≡ some h → all ≡ h ∷ pending q)
      → (o ≡ none → pending q ≡ all)
      → ((h : Request) → o ≡ some h → request_insert h true q ≡ done before)
      → pending before ≡ all
      → FirstRun all (deliver ops z room o next q)
  unfolding deliver FirstRun GivesFirst release and_then
  deliver-FirstRun ops z room all none next q before head same back e = same refl
  deliver-FirstRun ops z room all (some h) next q before head same back e =
      elim (Bool-cases (leb (get_size z h) room)) [
        | inl fits ↦ rw fits (ap (map content) (head h refl))
        | inr long ↦ rw (long, back h refl) e
      ]

  pub queue_get-GivesFirst :
      (ops : RemoveLock L) (z : Sizes) (room : ℕ) (q : Queue L) (g : Got L)
      → WellFormed q
      → queue_get ops z room q ≡ done g
      → GivesFirst (pending q) g.buffer g.queue
  unfolding queue_get get_acquired FirstRun request_remove TakesHead PutBack GivesFirst
  queue_get-GivesFirst ops z room q g w e =
      let a = ops.acquire q.lock in
      let q' = record q { lock = a.1 } in
      let locked : WellFormed q' = record {
        all_paged = w.all_paged;
        all_nonpaged = w.all_nonpaged;
        paged_count = w.paged_count;
        nonpaged_count = w.nonpaged_count;
        total_count = w.total_count;
      } in
      let removed = request_remove q' in
      let (head, same) = remove_from-TakesHead q.paged_list q.nonpaged_list q' refl refl in
      let back = remove_from-PutBack q.paged_list q.nonpaged_list q' refl refl locked in
      let whole : FirstRun (pending q) (queue_get ops z room q) =
        if_intro (FirstRun (pending q)) q.connected
          (if_intro (FirstRun (pending q)) (nt_success a.0)
            (deliver-FirstRun ops z room (pending q) removed.request removed.next removed.queue q'
              head same back refl)
            refl)
          refl in
      subst (FirstRun (pending q)) e whole
