-- ===== src/ReqQueue/Ascending.antt =====
-- Lists of requests in the order of their numbers, as in the lists of kbase/req-queue.c.
use irpmon.Common.{
  ℕ, ◌<◌, ◌≤◌, ◌≡◌, List, [], ◌∷◌, ◌++◌, Option, none, some, false, arith, All, All-append, All-map,
  subst, sym,
}
use irpmon.Request.{Request}
use irpmon.ReqQueue.{place}

-- Each request has a smaller number than those behind it.
unfoldable pub Ascending : List Request → Type 0
Ascending [] = Unit
Ascending (x ∷ xs) = All (λ y. x.id < y.id) xs × Ascending xs

pub Ascending-snoc :
    (xs : List Request) (r : Request)
    → Ascending xs
    → All (λ x. x.id < r.id) xs
    → Ascending (xs ++ (r ∷ []))
unfolding Ascending All
Ascending-snoc [] r a h = (tt, tt)
Ascending-snoc (x ∷ xs) r (first, a) (hx, h) =
    (All-append (λ y. x.id < y.id) xs (r ∷ []) first (hx, tt), Ascending-snoc xs r a h)

-- A number up to that of an ascending list's head is up to all its numbers.
pub from_head :
    (x : ℕ) (y : Request) (ys rs : List Request)
    → rs ≡ y ∷ ys
    → Ascending rs
    → x ≤ y.id
    → All (λ z. x ≤ z.id) rs
unfolding Ascending All
from_head x y ys rs e a h =
    let order : Ascending (y ∷ ys) = subst Ascending e a in
    subst (All (λ z. x ≤ z.id)) (sym e)
      (h, All-map (λ z. y.id < z.id) (λ z. x ≤ z.id) (λ z k. omega arith) ys order.0)

abbrev pub number_of : ℕ → Option Request → ℕ
number_of default none = default
number_of default (some r) = r.id

-- The list with the next request at its end.
pub extended :
    (rs : List Request) (last id : ℕ) (r : Request)
    → last < id
    → r.id ≡ id
    → Ascending rs
    → All (λ x. x.id ≤ last) rs
    → Ascending (place false r rs) × All (λ x. x.id ≤ id) (place false r rs)
unfolding place All
extended rs last id r h e a old = (
  Ascending-snoc rs r a (All-map (λ x. x.id ≤ last) (λ x. x.id < r.id) (λ x k. omega arith) rs old),
  All-append (λ x. x.id ≤ id) rs (r ∷ [])
      (All-map (λ x. x.id ≤ last) (λ x. x.id ≤ id) (λ x k. omega arith) rs old) (omega arith, tt),
)

pub older :
    (rs : List Request) (last id : ℕ)
    → last ≤ id
    → All (λ x. x.id ≤ last) rs
    → All (λ x. x.id ≤ id) rs
older rs last id h = All-map (λ x. x.id ≤ last) (λ x. x.id ≤ id) (λ x k. omega arith) rs
