-- ===== src/UmServices/Filling.antt =====
-- What UMGetRequestRecord leaves in the buffer and in the queue.
use irpmon.Common.{
  ℕ, zero, suc, ◌+◌, ◌≤◌, ◌<◌, ◌≡◌, refl, sym, ap, ◌∙◌, subst, List, [], ◌∷◌, ◌++◌, Option, none,
  some, true, false, le→leb, ltb, length, length-append, All, All-append, Bool-cases, inl, inr,
  arith,
}
use irpmon.Kernel.{Status, nt_success, Run, done, and_then}
use irpmon.Request.{Request, Sizes, get_size}
use irpmon.ReqQueue.{RemoveLock, Queue, Got}
use irpmon.ReqQueue.Service.{free}
use irpmon.ReqQueue.Valid.{WellFormed}
use irpmon.ReqQueue.Steps.{same_lists}
use irpmon.ReqQueue.Machine.{queue_get-WellFormed}
use irpmon.ReqQueue.Taking.{waiting, Took, queue_get-Took}
use irpmon.UmServices.{
  Copied, Progress, Filled, copy_request, finish, after_get, fill, get_request_record,
}

-- The copies lie one behind the other between two offsets.
pub Laid : ℕ → List Copied → ℕ → Type 0
Laid at [] end = at ≡ end
Laid at (c ∷ cs) end = (c.at ≡ at) × Laid (at + c.bytes) cs end

-- A copy takes the size of its request.
abbrev pub HasSize : Sizes → Copied → Type 0
HasSize z c = c.bytes ≡ get_size z c.request

Laid-snoc :
    (at : ℕ) (cs : List Copied) (end : ℕ) (c : Copied)
    → Laid at cs end
    → c.at ≡ end
    → Laid at (cs ++ (c ∷ [])) (end + c.bytes)
unfolding Laid
Laid-snoc at [] end c h e = (e ∙ sym h, ap (λ k. k + c.bytes) h)
Laid-snoc at (d ∷ cs) end c (first, h) e = (first, Laid-snoc (at + d.bytes) cs end c h e)

-- The loop in a buffer of `len` bytes, when `total` requests were waiting at first.
record Filling (z : Sizes) (len total : ℕ) (p : Progress) (left : ℕ) : Type 0 where
  laid : Laid 0 p.copies p.return_length
  behind : p.return_length ≡ p.offset + p.request_size
  fits : p.return_length + p.room ≡ len
  sized : All (HasSize z) p.copies
  counted : p.aggregated ≡ length p.copies
  conserved : left + length p.copies ≡ total

-- The result: the copies fill the buffer's beginning up to the length that is returned; at most
-- one request is neither copied nor waiting, and none after a success, which has a request.
pub record Delivered {L : Type 0} (z : Sizes) (len total : ℕ) (f : Filled L) : Type 0 where
  pub laid : Laid 0 f.copies f.return_length
  pub sized : All (HasSize z) f.copies
  pub bounded : f.return_length ≤ len
  pub lost : waiting f.queue + length f.copies ≤ total
  pub lost_one : total ≤ waiting f.queue + length f.copies + 1
  pub complete :
      nt_success f.status ≡ true
      → (waiting f.queue + length f.copies ≡ total) × (1 ≤ length f.copies)
  pub valid : WellFormed f.queue

copy_request-Filling :
    (z : Sizes) (len total : ℕ) (p : Progress) (left size : ℕ) (h : Request)
    → size ≤ p.room
    → size ≡ get_size z h
    → Filling z len total p (left + 1)
    → Filling z len total (copy_request p size h) left
unfolding copy_request All
copy_request-Filling z len total p left size h room exact f =
    let offset = p.offset + p.request_size in
    let c : Copied = record { at = offset; bytes = size; request = h } in
    let more : length (p.copies ++ (c ∷ [])) ≡ length p.copies + 1 =
      length-append p.copies (c ∷ []) in
    let behind = f.behind in
    let fits = f.fits in
    let counted = f.counted in
    let conserved = f.conserved in
    record {
      laid = Laid-snoc 0 p.copies p.return_length c f.laid (sym behind);
      behind = omega arith;
      fits = omega arith;
      sized = All-append (HasSize z) p.copies (c ∷ []) f.sized (exact, tt);
      counted = omega arith;
      conserved = omega arith;
    }

finish-Delivered :
    {L : Type 0} (z : Sizes) (len total : ℕ) (access : ℕ → Status) (p : Progress) (status : Status)
    (q : Queue L)
    → nt_success status ≡ false
    → Filling z len total p (waiting q)
    → WellFormed q
    → Delivered z len total (finish access p status q)
unfolding finish
finish-Delivered z len total access p status q bad f w =
    let fits = f.fits in
    let counted = f.counted in
    let conserved = f.conserved in
    elim (Bool-cases (ltb 0 p.aggregated)) [
      | inl some_copied ↦ rw some_copied (record {
        laid = f.laid;
        sized = f.sized;
        bounded = omega arith;
        lost = omega arith;
        lost_one = omega arith;
        complete = λ k. (conserved, ground arith);
        valid = w;
      })
      | inr none_copied ↦ rw none_copied (record {
        laid = f.laid;
        sized = f.sized;
        bounded = omega arith;
        lost = omega arith;
        lost_one = omega arith;
        complete = λ k. absurd (cc (bad, k));
        valid = w;
      })
    ]

-- A run that ends, with the right result.
Fills : {L : Type 0} → Sizes → ℕ → ℕ → Run (Option (Filled L)) → Type 0
Fills {L = L} z len total run = (f : Filled L) × (run ≡ done (some f)) × Delivered z len total f

pub free-WellFormed :
    {L : Type 0} (h : Request) (q : Queue L) → WellFormed q → WellFormed (free h q)
unfolding free
free-WellFormed h q w =
    same_lists q q.last_request_id q.connected q.lock q.callbacks (h ∷ q.freed) q.invoked w

after_get-Fills :
    {L : Type 0} (z : Sizes) (len total : ℕ) (access : ℕ → Status)
    (loop : Progress → Queue L → Run (Option (Filled L))) (p : Progress) (g : Got L) (n : ℕ)
    (o : Option Request)
    → Took z p.room n o g
    → Filling z len total p n
    → WellFormed g.queue
    → ((p' : Progress) (q' : Queue L)
        → waiting q' + 1 ≡ n
        → Filling z len total p' (waiting q')
        → WellFormed q'
        → Fills z len total (loop p' q'))
    → Fills z len total (after_get access loop p g o)
unfolding after_get Took Fills free waiting
after_get-Fills z len total access loop p g n none (bad, same) f w k = (
  finish access p g.status g.queue,
  refl,
  finish-Delivered z len total access p g.status g.queue bad
      (subst (Filling z len total p) (sym same) f) w,
)
after_get-Fills z len total access loop p g n (some h) (ok, room, exact, taken) f w k =
    let q = free h g.queue in
    let valid = free-WellFormed h g.queue w in
    let next =
      copy_request-Filling z len total p (waiting g.queue) g.needed h room exact
        (subst (Filling z len total p) (sym taken) f) in
    let fits = f.fits in
    let conserved = f.conserved in
    elim (Bool-cases (nt_success (access p.aggregated))) [
      | inl written ↦ rw written (k (copy_request p g.needed h) q taken next valid)
      | inr fault ↦ rw fault (
        _,
        refl,
        record {
          laid = f.laid;
          sized = f.sized;
          bounded = omega arith;
          lost = omega arith;
          lost_one = omega arith;
          complete = λ e. absurd (cc (fault, e));
          valid = valid;
        },
      )
    ]

fill-Fills :
    {L : Type 0} (ops : RemoveLock L) (z : Sizes) (access : ℕ → Status) (len total n : ℕ)
    (p : Progress) (q : Queue L)
    → waiting q < n
    → Filling z len total p (waiting q)
    → WellFormed q
    → Fills z len total (fill ops z access n p q)
unfolding fill and_then
fill-Fills ops z access len total zero p q l f w = absurd (omega arith)
fill-Fills ops z access len total (suc n) p q l f w =
    let (g, e, valid) = queue_get-WellFormed ops z p.room q w in
    rw e (
      after_get-Fills z len total access (λ p' q'. fill ops z access n p' q') p g (waiting q)
        g.buffer (queue_get-Took ops z p.room q g e) f valid
        (λ p' q' less f' w'. fill-Fills ops z access len total n p' q' (omega arith) f' w'))

-- UMGetRequestRecord on a buffer that takes a header and may be written to ends with such a result.
pub get_request_record-Fills :
    {L : Type 0} (ops : RemoveLock L) (z : Sizes) (access : ℕ → Status) (header : ℕ)
    (probed : Status) (before len : ℕ) (q : Queue L)
    → WellFormed q
    → header ≤ len
    → nt_success probed ≡ true
    → (f : Filled L) × (get_request_record ops z access header probed before len q ≡ done (some f))
      × Delivered z len (waiting q) f
unfolding get_request_record Laid Fills All
get_request_record-Fills ops z access header probed before len q w room ok =
    rw (le→leb header len room, ok)
      (fill-Fills ops z access len (waiting q) (suc (waiting q)) _ q (omega arith)
        (record {
          laid = refl;
          behind = omega arith;
          fits = omega arith;
          sized = tt;
          counted = refl;
          conserved = omega arith;
        })
        w)
