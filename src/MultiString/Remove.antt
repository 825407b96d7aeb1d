-- ===== src/MultiString/Remove.antt =====
-- What _MultiStringRemove makes of the strings in a buffer.
use mathlib.Core.Option as Option
use irpmon.Common.{
  ℕ, zero, suc, ◌+◌, ◌-◌, ◌*◌, ◌/◌, ◌≤◌, ◌≡◌, refl, sym, ap, ◌∙◌, List, [], ◌∷◌, ◌++◌, some, Bool,
  true, false, length, set, take, drop, All, arith, length-append,
}
use irpmon.MultiString.{write, size, exists_from, exists, cut, remove}
use irpmon.MultiString.Names.{
  IsName, body, laid, known, assoc, take-name, drop-name, starts, wcslen-name, neither, write-front,
  write-after, set-after, split, enough, size-laid,
}

finds :
    (equal : List ℕ → List ℕ → Bool) (name : List ℕ) (before : List (List ℕ)) (s : List ℕ)
    (later : List (List ℕ)) (room : List ℕ) (n at : ℕ)
    → All IsName (before ++ (s ∷ later))
    → known equal name before ≡ false
    → equal s name ≡ true
    → length before + 1 ≤ n
    → exists_from equal name n at (laid (before ++ (s ∷ later)) room)
      ≡ some (at + length (body before))
unfolding exists_from All IsName
finds equal name before s later room zero at h k found m = absurd (omega arith)
finds equal name [] s later room (suc n) at h k found m =
    rw
      (
        assoc s (0 ∷ body later) (0 ∷ room),
        starts s (0 ∷ laid later room) h.0,
        wcslen-name s (laid later room) h.0.1,
        take-name s (0 ∷ laid later room),
        found,
      )
      (ap some (omega arith))
finds equal name (t ∷ before) s later room (suc n) at h k found m =
    let (other, others) = neither (equal t name) (known equal name before) k in
    let rest = before ++ (s ∷ later) in
    rw
      (
        assoc t (0 ∷ body rest) (0 ∷ room),
        starts t (0 ∷ laid rest room) h.0,
        wcslen-name t (laid rest room) h.0.1,
        take-name t (0 ∷ laid rest room),
        other,
        drop-name t (laid rest room),
      )
      (finds equal name before s later room n (at + (length t + 1)) h.1 others found (omega arith)
        ∙ ap some (omega (arith, length-append t (0 ∷ body before))))

drop-exact : (p r : List ℕ) → drop (length p) (p ++ r) ≡ r
drop-exact [] r = refl
drop-exact (c ∷ p) r = drop-exact p r

body-append : (before later : List (List ℕ)) → body (before ++ later) ≡ body before ++ body later
body-append [] later = refl
body-append (s ∷ before) later =
    ap (λ l. s ++ (0 ∷ l)) (body-append before later) ∙ sym (assoc s (0 ∷ body before) (body later))

laid-append :
    (before later : List (List ℕ)) (room : List ℕ)
    → laid (before ++ later) room ≡ body before ++ laid later room
laid-append before later room =
    ap (λ l. l ++ (0 ∷ room)) (body-append before later)
    ∙ assoc (body before) (body later) (0 ∷ room)

-- Closing the gap of a string: what stands behind it moves over it.
closed :
    (before s later room : List ℕ)
    → (tail : List ℕ) × (write (length before) later (before ++ (s ++ (0 ∷ (later ++ room))))
        ≡ before ++ (later ++ tail))
closed before s later room =
    let rest = s ++ (0 ∷ (later ++ room)) in
    let (p, m, parts, k) =
      split (length later) rest
        (omega (arith, length-append s (0 ∷ (later ++ room)), length-append later room)) in
    (
      m,
      write-after before later rest
          ∙ ap (λ l. before ++ write 0 later l) parts
          ∙ ap (λ l. before ++ l) (write-front later p m (sym k)),
    )

-- The characters that are moved.
behind_it :
    (before s later room : List ℕ) (n : ℕ)
    → length s ≡ n
    → take (length later) (drop (length before + (n + 1)) (before ++ (s ++ (0 ∷ (later ++ room)))))
      ≡ later
behind_it before s later room n same =
    let q = before ++ (s ++ (0 ∷ [])) in
    let whole : before ++ (s ++ (0 ∷ (later ++ room))) ≡ q ++ (later ++ room) =
      ap (λ l. before ++ l) (sym (assoc s (0 ∷ []) (later ++ room)))
      ∙ sym (assoc before (s ++ (0 ∷ [])) (later ++ room)) in
    let skipped : length before + (n + 1) ≡ length q =
      omega (arith, length-append before (s ++ (0 ∷ [])), length-append s (0 ∷ [])) in
    ap (λ k. take (length later) (drop k (before ++ (s ++ (0 ∷ (later ++ room)))))) skipped
    ∙ ap (λ l. take (length later) (drop (length q) l)) whole
    ∙ ap (take (length later)) (drop-exact q (later ++ room))
    ∙ take-name later room

module _ (name : List ℕ) (before : List (List ℕ)) (s : List ℕ) (later : List (List ℕ))
    (room : List ℕ) (same : length s ≡ length name)
    (names : All IsName (before ++ (s ∷ later))) where
  buffer : List ℕ
  buffer = laid (before ++ (s ∷ later)) room

  abbrev kept : List (List ℕ)
  kept = before ++ later

  opened : buffer ≡ body before ++ (s ++ (0 ∷ (laid later [] ++ room)))
  unfolding buffer
  opened =
      laid-append before (s ∷ later) room
      ∙ ap (λ l. body before ++ l) (assoc s (0 ∷ body later) (0 ∷ room))
      ∙ ap (λ l. body before ++ (s ++ (0 ∷ l))) (sym (assoc (body later) (0 ∷ []) room))

  new_size : size buffer - (length name * 2 + 2) ≡ length (laid kept []) * 2
  unfolding buffer
  new_size =
      ap (λ n. n - (length name * 2 + 2)) (size-laid (before ++ (s ∷ later)) room names)
      ∙ omega (
        arith,
        same,
        ap length (body-append before (s ∷ later)),
        length-append (body before) (body (s ∷ later)),
        length-append s (0 ∷ body later),
        length-append (body kept) (0 ∷ []),
        ap length (body-append before later),
        length-append (body before) (body later),
      )

  cut-laid :
      (tail : List ℕ) × (cut name buffer (length (body before))
        ≡ (laid kept tail, length (laid kept []) * 2))
  unfolding cut
  cut-laid =
      let at = length (body before) in
      let (tail, closes) = closed (body before) s (laid later []) room in
      let left : (size buffer - (length name * 2 + 2)) / 2 ≡ length (laid kept []) =
        ap (λ n. n / 2) new_size ∙ omega arith in
      let count : length (laid kept []) - at ≡ length (laid later []) = omega (
        arith,
        length-append (body kept) (0 ∷ []),
        ap length (body-append before later),
        length-append (body before) (body later),
        length-append (body later) (0 ∷ []),
      ) in
      let moves : take (length (laid kept []) - at) (drop (at + (length name + 1)) buffer)
          ≡ laid later [] =
        ap (λ n. take n (drop (at + (length name + 1)) buffer)) count
        ∙ ap (λ b. take (length (laid later [])) (drop (at + (length name + 1)) b)) opened
        ∙ behind_it (body before) s (laid later []) room (length name) same in
      let joined : body before ++ (laid later [] ++ tail) ≡ laid kept tail =
        ap (λ l. body before ++ l) (assoc (body later) (0 ∷ []) tail)
        ∙ sym (laid-append before later tail) in
      let ends : length (laid kept []) - 1 ≡ length (body kept) =
        omega (arith, length-append (body kept) (0 ∷ [])) in
      let result : set
            (write at (take (length (laid kept []) - at) (drop (at + (length name + 1)) buffer))
              buffer)
            (length (laid kept []) - 1) 0
          ≡ laid kept tail =
        ap (λ l. set (write at l buffer) (length (laid kept []) - 1) 0) moves
        ∙ ap (λ b. set (write at (laid later []) b) (length (laid kept []) - 1) 0) opened
        ∙ ap (λ b. set b (length (laid kept []) - 1) 0) (closes ∙ joined)
        ∙ ap (λ n. set (laid kept tail) n 0) ends
        ∙ set-after (body kept) 0 0 tail in
      let bytes : ℕ = size buffer - (length name * 2 + 2) in
      let ran : (
        set (write at (take (bytes / 2 - at) (drop (at + (length name + 1)) buffer)) buffer)
            (bytes / 2 - 1) 0,
        bytes,
      )
          ≡ (laid kept tail, length (laid kept []) * 2) =
        ap
          (λ n. (
            set (write at (take (n - at) (drop (at + (length name + 1)) buffer)) buffer) (n - 1) 0,
            bytes,
          ))
          left
        ∙ ap (λ b. (b, bytes)) result
        ∙ ap (λ n. (laid kept tail, n)) new_size in
      (tail, ran)

-- A buffer holds non-empty strings without terminators inside. When one of them is the first
-- that is equal to the name, and as long as the name, _MultiStringRemove leaves the buffer of the
-- other strings in their order, with something behind them, and answers their length with all
-- terminators.
pub remove-Names :
    (equal : List ℕ → List ℕ → Bool) (name : List ℕ) (before : List (List ℕ)) (s : List ℕ)
    (later : List (List ℕ)) (room : List ℕ)
    → All IsName (before ++ (s ∷ later))
    → known equal name before ≡ false
    → equal s name ≡ true
    → length s ≡ length name
    → (tail : List ℕ) × (remove equal name (laid (before ++ (s ∷ later)) room)
        ≡ some (laid (before ++ later) tail, length (laid (before ++ later) []) * 2))
unfolding remove exists buffer
remove-Names equal name before s later room names new found same =
    let b = laid (before ++ (s ∷ later)) room in
    let (tail, ran) = cut-laid name before s later room same names in
    let long : length before + 1 ≤ length b =
      omega (arith, enough (before ++ (s ∷ later)) room, length-append before (s ∷ later)) in
    let there : exists equal name b ≡ some (length (body before)) =
      finds equal name before s later room (length b) 0 names new found long
      ∙ ap some (omega arith) in
    (tail, ap (Option.map (cut name b)) there ∙ ap some ran)
