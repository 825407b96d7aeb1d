-- ===== src/MultiString/Tests.antt =====
-- Runs on a buffer of two strings, and the theorems at it.
use irpmon.Common.{
  ℕ, ◌≡◌, refl, List, [], ◌∷◌, ◌++◌, Bool, true, false, some, ◌*◌, ◌==◌, ◌&&◌, length, replicate,
  All, arith,
}
use irpmon.MultiString.{
  wcslen, write, size_from, size, exists_from, exists, put, if_new, insert, cut, remove,
}
use irpmon.MultiString.Names.{IsName, laid}
use irpmon.MultiString.Insert.{inserted, insert-Names}
use irpmon.MultiString.Remove.{remove-Names}

abbrev equal : List ℕ → List ℕ → Bool
equal [] [] = true
equal [] (d ∷ ds) = false
equal (c ∷ cs) [] = false
equal (c ∷ cs) (d ∷ ds) = let rest = equal cs ds in (c == d) && rest

abbrev two : List (List ℕ)
two = (65 ∷ 66 ∷ []) ∷ (67 ∷ []) ∷ []

two-IsName : All IsName two
unfolding All IsName
two-IsName = (
  (omega arith, (λ e. absurd (omega arith), (λ e. absurd (omega arith), tt))),
  ((omega arith, (λ e. absurd (omega arith), tt)), tt),
)

insert_runs :
    insert equal (68 ∷ []) false (laid two (0 ∷ 0 ∷ 9 ∷ []))
    ≡ some (65 ∷ 66 ∷ 0 ∷ 67 ∷ 0 ∷ 68 ∷ 0 ∷ 0 ∷ 9 ∷ [], 16)
unfolding insert if_new exists exists_from put size size_from write wcslen
insert_runs = refl

remove_runs : remove equal (65 ∷ 66 ∷ []) (laid two []) ≡ some (67 ∷ 0 ∷ 0 ∷ 67 ∷ 0 ∷ 0 ∷ [], 6)
unfolding remove cut exists exists_from size size_from write wcslen
remove_runs = refl

insert-Names_example :
    insert equal (68 ∷ []) true (laid two (replicate 2 0 ++ (9 ∷ [])))
    ≡ some (
      laid (inserted true (68 ∷ []) two) (9 ∷ []),
      2 * length (laid (inserted true (68 ∷ []) two) []),
    )
insert-Names_example = insert-Names equal (68 ∷ []) two (9 ∷ []) true two-IsName refl

remove-Names_example :
    (tail : List ℕ) × (remove equal (67 ∷ []) (laid two [])
      ≡ some (laid ((65 ∷ 66 ∷ []) ∷ []) tail, length (laid ((65 ∷ 66 ∷ []) ∷ []) []) * 2))
remove-Names_example =
    remove-Names equal (67 ∷ []) ((65 ∷ 66 ∷ []) ∷ []) (67 ∷ []) [] [] two-IsName refl refl refl
