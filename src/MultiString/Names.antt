-- ===== src/MultiString/Names.antt =====
-- A buffer of multistring.c as the list of its strings.
use irpmon.Common.{
  ℕ, zero, suc, ◌+◌, ◌*◌, ◌≤◌, ◌≡◌, ◌≢◌, refl, ap, ◌∙◌, List, [], ◌∷◌, ◌++◌, none, some, Bool, true,
  false, ◌==◌, ◌||◌, length, get_or, set, take, drop, replicate, All, arith, length-append,
}
use irpmon.MultiString.{wcslen, write, size_from, size, exists_from, exists, first, next}

-- A string that can stand in a buffer: not empty, and without a terminator.
unfoldable pub IsName : List ℕ → Type 0
IsName s = (1 ≤ length s) × All (λ c. c ≢ 0) s

abbrev pub body : List (List ℕ) → List ℕ
body [] = []
body (s ∷ ns) = s ++ (0 ∷ body ns)

-- The buffer with these strings and this room behind them.
abbrev pub laid : List (List ℕ) → List ℕ → List ℕ
laid ns room = body ns ++ (0 ∷ room)

-- Whether one of the strings is equal to the name.
abbrev pub known : (List ℕ → List ℕ → Bool) → List ℕ → List (List ℕ) → Bool
known equal name [] = false
known equal name (s ∷ ns) = equal s name || known equal name ns

pub assoc : (xs ys zs : List ℕ) → (xs ++ ys) ++ zs ≡ xs ++ (ys ++ zs)
assoc [] ys zs = refl
assoc (x ∷ xs) ys zs = ap (◌∷◌ x) (assoc xs ys zs)

nonzero : (c : ℕ) → c ≢ 0 → (c == 0) ≡ false
nonzero c h = ground arith

pub wcslen-name : (s r : List ℕ) → All (λ c. c ≢ 0) s → wcslen (s ++ (0 ∷ r)) ≡ length s
unfolding wcslen All
wcslen-name [] r h = refl
wcslen-name (c ∷ s) r h = rw (nonzero c h.0) (ap suc (wcslen-name s r h.1))

pub drop-name : (s r : List ℕ) → drop (suc (length s)) (s ++ (0 ∷ r)) ≡ r
drop-name [] r = refl
drop-name (c ∷ s) r = drop-name s r

pub take-name : (s r : List ℕ) → take (length s) (s ++ r) ≡ s
take-name [] r = refl
take-name (c ∷ s) r = ap (◌∷◌ c) (take-name s r)

pub starts : (s r : List ℕ) → IsName s → (get_or (s ++ r) 0 0 == 0) ≡ false
unfolding IsName All
starts [] r h = absurd (omega arith)
starts (c ∷ s) r h = nonzero c h.1.0

pub write-front : (xs ys r : List ℕ) → length xs ≡ length ys → write 0 xs (ys ++ r) ≡ xs ++ r
unfolding write
write-front [] [] [] h = refl
write-front [] [] (c ∷ r) h = refl
write-front [] (y ∷ ys) r h = absurd (omega arith)
write-front (x ∷ xs) [] r h = absurd (omega arith)
write-front (x ∷ xs) (y ∷ ys) r h = ap (◌∷◌ x) (write-front xs ys r (omega arith))

pub write-after : (p xs r : List ℕ) → write (length p) xs (p ++ r) ≡ p ++ write 0 xs r
unfolding write
write-after [] xs r = refl
write-after (c ∷ p) xs r = ap (◌∷◌ c) (write-after p xs r)

pub write-next :
    (p : List ℕ) (c : ℕ) (xs r : List ℕ)
    → write (suc (length p)) xs (p ++ (c ∷ r)) ≡ p ++ (c ∷ write 0 xs r)
unfolding write
write-next [] c xs r = refl
write-next (d ∷ p) c xs r = ap (◌∷◌ d) (write-next p c xs r)

pub set-after : (p : List ℕ) (c v : ℕ) (r : List ℕ) → set (p ++ (c ∷ r)) (length p) v ≡ p ++ (v ∷ r)
set-after [] c v r = refl
set-after (d ∷ p) c v r = ap (◌∷◌ d) (set-after p c v r)

pub split : (n : ℕ) (l : List ℕ) → n ≤ length l → (p m : List ℕ) × (l ≡ p ++ m) × (length p ≡ n)
split zero l h = ([], l, refl, refl)
split (suc n) [] h = absurd (omega arith)
split (suc n) (c ∷ l) h =
    let (p, m, e, k) = split n l (omega arith) in (c ∷ p, m, ap (◌∷◌ c) e, omega arith)

pub zeros : (n : ℕ) (r : List ℕ) → 0 ∷ (replicate n 0 ++ r) ≡ replicate n 0 ++ (0 ∷ r)
zeros zero r = refl
zeros (suc n) r = ap (◌∷◌ 0) (zeros n r)

pub size_from-laid :
    (ns : List (List ℕ)) (room : List ℕ) (n bytes : ℕ)
    → All IsName ns
    → length ns ≤ n
    → size_from n (laid ns room) bytes ≡ bytes + length (body ns) * 2
unfolding size_from All IsName
size_from-laid [] room zero bytes h k = omega arith
size_from-laid [] room (suc n) bytes h k = omega arith
size_from-laid (s ∷ ns) room zero bytes h k = absurd (omega arith)
size_from-laid (s ∷ ns) room (suc n) bytes h k =
    rw
      (
        assoc s (0 ∷ body ns) (0 ∷ room),
        starts s (0 ∷ laid ns room) h.0,
        wcslen-name s (laid ns room) h.0.1,
        drop-name s (laid ns room),
        size_from-laid ns room n (bytes + (length s + 1) * 2) h.1 (omega arith),
        length-append s (0 ∷ body ns),
      )
      (omega arith)

pub neither : (a b : Bool) → (a || b) ≡ false → (a ≡ false) × (b ≡ false)
neither false b h = (refl, h)
neither true b h = absurd (cc h)

exists_from-laid :
    (equal : List ℕ → List ℕ → Bool) (name : List ℕ) (ns : List (List ℕ)) (room : List ℕ) (n at : ℕ)
    → All IsName ns
    → known equal name ns ≡ false
    → exists_from equal name n at (laid ns room) ≡ none
unfolding exists_from All IsName
exists_from-laid equal name ns room zero at h k = refl
exists_from-laid equal name [] room (suc n) at h k = refl
exists_from-laid equal name (s ∷ ns) room (suc n) at h k =
    let (other, others) = neither (equal s name) (known equal name ns) k in
    rw
      (
        assoc s (0 ∷ body ns) (0 ∷ room),
        starts s (0 ∷ laid ns room) h.0,
        wcslen-name s (laid ns room) h.0.1,
        take-name s (0 ∷ laid ns room),
        other,
        drop-name s (laid ns room),
      )
      (exists_from-laid equal name ns room n (at + (length s + 1)) h.1 others)

pub enough : (ns : List (List ℕ)) (room : List ℕ) → length ns ≤ length (laid ns room)
enough [] room = omega arith
enough (s ∷ ns) room =
    rw (assoc s (0 ∷ body ns) (0 ∷ room), length-append s (0 ∷ laid ns room))
      (omega (arith, enough ns room))

pub size-laid :
    (ns : List (List ℕ)) (room : List ℕ)
    → All IsName ns
    → size (laid ns room) ≡ (length (body ns) + 1) * 2
unfolding size
size-laid ns room h =
    size_from-laid ns room (length (laid ns room)) 2 h (enough ns room) ∙ omega arith

pub exists-laid :
    (equal : List ℕ → List ℕ → Bool) (name : List ℕ) (ns : List (List ℕ)) (room : List ℕ)
    → All IsName ns
    → known equal name ns ≡ false
    → exists equal name (laid ns room) ≡ none
unfolding exists
exists-laid equal name ns room h k =
    exists_from-laid equal name ns room (length (laid ns room)) 0 h k

-- From a string, _MultiStringNext goes to where _MultiStringFirst finds the rest of the strings.
pub next-first :
    (s : List ℕ) (ns : List (List ℕ)) (room : List ℕ)
    → IsName s
    → (first (laid (s ∷ ns) room) ≡ some (laid (s ∷ ns) room))
      × (next (laid (s ∷ ns) room) ≡ first (laid ns room))
unfolding first next IsName
next-first s ns room h =
    rw
      (
        assoc s (0 ∷ body ns) (0 ∷ room),
        starts s (0 ∷ laid ns room) h,
        wcslen-name s (laid ns room) h.1,
        drop-name s (laid ns room),
      )
      (refl, refl)
