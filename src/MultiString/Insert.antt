-- ===== src/MultiString/Insert.antt =====
-- What _MultiStringInsert makes of the strings in a buffer.
use irpmon.Common.{
  ℕ, suc, ◌+◌, ◌-◌, ◌*◌, ◌/◌, ◌≡◌, refl, sym, ap, ◌∙◌, subst, List, [], ◌∷◌, ◌++◌, some, Bool, true,
  false, if◌then◌else◌, length, set, take, replicate, All, arith, length-append, length-replicate,
}
use irpmon.MultiString.{write, size, put, if_new, insert}
use irpmon.MultiString.Names.{
  IsName, body, laid, known, assoc, take-name, write-front, write-after, write-next, set-after,
  split, zeros, size-laid, exists-laid,
}

moved :
    (name p e m r : List ℕ) (c : ℕ)
    → length p ≡ length name
    → length e ≡ length m
    → set (write 0 name (write (suc (length name)) e (p ++ (c ∷ (m ++ r))))) (length name) 0
      ≡ name ++ (0 ∷ (e ++ r))
moved name p e m r c k same =
    let first : write (suc (length name)) e (p ++ (c ∷ (m ++ r))) ≡ p ++ (c ∷ (e ++ r)) =
      subst (λ n. write (suc n) e (p ++ (c ∷ (m ++ r))) ≡ p ++ (c ∷ (e ++ r))) k
        (write-next p c e (m ++ r) ∙ ap (λ l. p ++ (c ∷ l)) (write-front e m r same)) in
    ap (λ b. set (write 0 name b) (length name) 0) first
    ∙ ap (λ b. set b (length name) 0) (write-front name p (c ∷ (e ++ r)) (sym k))
    ∙ set-after name c 0 (e ++ r)

moved_all :
    (name p m e z r : List ℕ)
    → e ++ z ≡ p ++ m
    → length p ≡ length name
    → length z ≡ suc (length name)
    → set (write 0 name (write (suc (length name)) e ((e ++ z) ++ r))) (length name) 0
      ≡ name ++ (0 ∷ (e ++ r))
moved_all name p [] e z r h k room =
    absurd (omega (arith, length-append e z, length-append p [], ap length h))
moved_all name p (c ∷ m) e z r h k room =
    ap (λ b. set (write 0 name (write (suc (length name)) e b)) (length name) 0)
      (ap (λ l. l ++ r) h ∙ assoc p (c ∷ m) r)
    ∙ moved name p e m r c k
        (omega (arith, length-append e z, length-append p (c ∷ m), ap length h))

-- The order of the strings after the insertion.
abbrev pub inserted : Bool → List ℕ → List (List ℕ) → List (List ℕ)
inserted beginning name ns = if beginning then name ∷ ns else ns ++ (name ∷ [])

pub body-snoc :
    (ns : List (List ℕ)) (name : List ℕ) → body (ns ++ (name ∷ [])) ≡ body ns ++ (name ++ (0 ∷ []))
body-snoc [] name = refl
body-snoc (s ∷ ns) name =
    ap (λ l. s ++ (0 ∷ l)) (body-snoc ns name) ∙ sym (assoc s (0 ∷ body ns) (name ++ (0 ∷ [])))

put-laid :
    (name : List ℕ) (ns : List (List ℕ)) (rest : List ℕ) (beginning : Bool)
    → All IsName ns
    → put name beginning (laid ns (replicate (suc (length name)) 0 ++ rest))
      ≡ laid (inserted beginning name ns) rest
unfolding put
put-laid name ns rest true h =
    let z : List ℕ = replicate (suc (length name)) 0 in
    let zs : length z ≡ suc (length name) = length-replicate (suc (length name)) 0 in
    let e = laid ns [] in
    let whole : laid ns (z ++ rest) ≡ (e ++ z) ++ rest =
      sym (assoc e z rest ∙ assoc (body ns) (0 ∷ []) (z ++ rest)) in
    let all : size (laid ns (z ++ rest)) / 2 ≡ length e =
      ap (λ n. n / 2) (size-laid ns (z ++ rest) h)
      ∙ omega (arith, length-append (body ns) (0 ∷ [])) in
    let copied : take (length e) (laid ns (z ++ rest)) ≡ e =
      ap (take (length e)) (whole ∙ assoc e z rest) ∙ take-name e (z ++ rest) in
    let (p, m, parts, k) = split (length name) (e ++ z) (omega (arith, length-append e z, zs)) in
    let moves = moved_all name p m e z rest parts k zs in
    ap
      (λ n.
        set
          (write 0 name
            (write (suc (length name)) (take n (laid ns (z ++ rest))) (laid ns (z ++ rest))))
          (length name) 0)
      all
    ∙ ap
        (λ l.
          set (write 0 name (write (suc (length name)) l (laid ns (z ++ rest)))) (length name) 0)
        copied
    ∙ ap (λ b. set (write 0 name (write (suc (length name)) e b)) (length name) 0) whole
    ∙ moves
    ∙ ap (λ l. name ++ (0 ∷ l)) (assoc (body ns) (0 ∷ []) rest)
    ∙ sym (assoc name (0 ∷ body ns) (0 ∷ rest))
put-laid name ns rest false h =
    let room = replicate (suc (length name)) 0 ++ rest in
    let last : size (laid ns room) / 2 - 1 ≡ length (body ns) =
      ap (λ n. n / 2 - 1) (size-laid ns room h) ∙ omega arith in
    let behind : 0 ∷ room ≡ replicate (length name) 0 ++ (0 ∷ 0 ∷ rest) =
      ap (◌∷◌ 0) (zeros (length name) rest) ∙ zeros (length name) (0 ∷ rest) in
    ap (λ n. write n name (laid ns room)) last
    ∙ write-after (body ns) name (0 ∷ room)
    ∙ ap (λ l. body ns ++ write 0 name l) behind
    ∙ ap (λ l. body ns ++ l)
        (write-front name (replicate (length name) 0) (0 ∷ 0 ∷ rest)
          (sym (length-replicate (length name) 0)))
    ∙ ap (λ l. body ns ++ l) (sym (assoc name (0 ∷ []) (0 ∷ rest)))
    ∙ sym (assoc (body ns) (name ++ (0 ∷ [])) (0 ∷ rest))
    ∙ ap (λ l. l ++ (0 ∷ rest)) (sym (body-snoc ns name))

length-inserted :
    (beginning : Bool) (name : List ℕ) (ns : List (List ℕ))
    → (length (body ns) + 1) * 2 + (length name * 2 + 2)
      ≡ 2 * length (laid (inserted beginning name ns) [])
length-inserted true name ns =
    omega (arith, length-append (body (name ∷ ns)) (0 ∷ []), length-append name (0 ∷ body ns))
length-inserted false name ns = omega (
  arith,
  length-append (body (ns ++ (name ∷ []))) (0 ∷ []),
  ap length (body-snoc ns name),
  length-append (body ns) (name ++ (0 ∷ [])),
  length-append name (0 ∷ []),
)

-- A buffer holds non-empty strings without terminators inside, and behind them room for one more
-- with its terminator, filled with zeros. When none of the strings is equal to the name,
-- _MultiStringInsert makes it the buffer of the strings with the name in front of them or behind
-- them, as asked for, and its new length is that of these strings with all terminators.
pub insert-Names :
    (equal : List ℕ → List ℕ → Bool) (name : List ℕ) (ns : List (List ℕ)) (rest : List ℕ)
    (beginning : Bool)
    → All IsName ns
    → known equal name ns ≡ false
    → insert equal name beginning (laid ns (replicate (suc (length name)) 0 ++ rest))
      ≡ some (
        laid (inserted beginning name ns) rest,
        2 * length (laid (inserted beginning name ns) []),
      )
unfolding insert if_new
insert-Names equal name ns rest beginning h new =
    let room : List ℕ = replicate (suc (length name)) 0 ++ rest in
    let result : List ℕ × ℕ =
      (put name beginning (laid ns room), size (laid ns room) + (length name * 2 + 2)) in
    let bytes : size (laid ns room) + (length name * 2 + 2)
        ≡ 2 * length (laid (inserted beginning name ns) []) =
      ap (λ n. n + (length name * 2 + 2)) (size-laid ns room h)
      ∙ length-inserted beginning name ns in
    ap (λ o. if_new o result) (exists-laid equal name ns room h new)
    ∙ ap (λ b. some (b, size (laid ns room) + (length name * 2 + 2)))
        (put-laid name ns rest beginning h)
    ∙ ap (λ n. some (laid (inserted beginning name ns) rest, n)) bytes
