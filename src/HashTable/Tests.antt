-- ===== src/HashTable/Tests.antt =====
-- Runs of the hash table's routines, and the theorems at concrete tables.
use mathlib.Core.List.{flatten}
use irpmon.Common.{
  ℕ, ◌+◌, ◌*◌, ◌≡◌, refl, [], ◌∷◌, some, Bool, true, false, ◌==◌, arith, if◌then◌else◌,
}
use irpmon.Kernel.{Status, success, other_error, pool_alloc, pool_free}
use irpmon.HashTable.{
  passive_level, dispatch_level, HashOps, HashTable, index, insert, unlink, unlinked, delete, find,
  get, perform, perform_chain, perform_buckets, perform_with_feedback, feedback_chain,
  feedback_buckets, clear, clear_buckets,
}
use irpmon.HashTable.Lookup.{IsValid, get-insert, delete-insert}
use irpmon.HashTable.Count.{Deleted, delete-IsValid}
use irpmon.HashTable.Setup.{
  Services, init_resources, sync_alloc, sync_free, is_known, argument_error, finish_create, create,
  destroy,
}
use irpmon.HashTable.Setup.Balance.{Holds}
use irpmon.HashTable.Setup.Release.{destroy-create_table, create_leaks}
use irpmon.HashTable.Iterator.{
  Iterator, unlock, seek, get_first, advance, next_item, get_next, iterator_finit,
  iterator_get_data,
}
use irpmon.HashTable.Iterator.Walk.{Finds, get_next-Finds}

program : Unit {0}
unfolding index insert unlink unlinked delete find get perform perform_chain perform_buckets
    perform_with_feedback feedback_chain feedback_buckets clear clear_buckets init_resources
    sync_alloc sync_free is_known argument_error finish_create create destroy pool_alloc pool_free
    unlock seek get_first advance next_item get_next iterator_finit iterator_get_data
program = tt

-- Items are pairs of a key and a value.
abbrev ops : HashOps (ℕ × ℕ) ℕ
ops = record { hash = λ k. k * 4; compare = λ i k. i.0 == k }

abbrev table : HashTable (ℕ × ℕ)
table = record {
  size = 3;
  type = dispatch_level;
  number_of_items = 3;
  buckets = ((3, 30) ∷ []) ∷ [] ∷ ((2, 20) ∷ (5, 50) ∷ []) ∷ [];
}

table-IsValid : IsValid table
table-IsValid = record { wide = refl; some_bucket = omega arith; counted = refl }

get_runs : get ops 5 table ≡ some (5, 50)
unfolding program
get_runs = refl

get-insert_example : get ops 4 (insert ops (4, 40) 4 table) ≡ some (4, 40)
get-insert_example = get-insert ops (4, 40) 4 4 table table-IsValid (λ k q. ground arith) refl

delete-insert_example : delete ops 4 (insert ops (4, 40) 4 table) ≡ (some (4, 40), table)
delete-insert_example = delete-insert ops (4, 40) 4 table table-IsValid (omega arith) refl

delete-IsValid_example :
    IsValid (delete ops 5 table).1
    × Deleted ops 5 table (delete ops 5 table).0 (delete ops 5 table).1
delete-IsValid_example = delete-IsValid ops 5 table table-IsValid

abbrev sum_up : ℕ → ℕ × ℕ → ℕ
sum_up s i = s + i.1

-- The callback that stops at the key 2.
abbrev until_two : ℕ → ℕ × ℕ → ℕ × Bool
until_two s i = (s + i.1, if i.0 == 2 then false else true)

feedback_runs : perform_with_feedback until_two table 0 ≡ 50
unfolding program
feedback_runs = refl

abbrev ample : Services
ample = record { pool = record { grants = λ n b. true; asked = 0; live = 0 }; resources = 0 }

-- The second lock cannot be initialised.
abbrev second_fails : ℕ → Status
second_fails i = if i == 1 then other_error 7 else success

abbrev empty : HashTable (ℕ × ℕ)
empty = record { size = 2; type = dispatch_level; number_of_items = 0; buckets = [] ∷ [] ∷ [] }

destroy-create_table_example :
    Holds 0 0 ample
      (destroy
        (some sum_up)
        empty
        (create {I = ℕ × ℕ} second_fails dispatch_level 2 true true ample).services
        0).0
unfolding program
destroy-create_table_example =
    destroy-create_table second_fails dispatch_level 2 ample true true (some sum_up) empty 0 refl

create_leaks_example :
    ((create {I = ℕ} second_fails passive_level 3 true true ample).status ≡ other_error 7)
    × Holds 1 0 ample (create {I = ℕ} second_fails passive_level 3 true true ample).services
unfolding program
create_leaks_example =
    create_leaks ℕ second_fails 3 1 ample (omega arith) (omega arith) refl refl
      (λ j h. ground arith) refl

abbrev at_three : Iterator (ℕ × ℕ)
at_three = record { current_index = 0; chain = (3, 30) ∷ []; points_to_end = false }

get_next-Finds_example :
    Finds table [] ((2, 20) ∷ (5, 50) ∷ []) (get_next table at_three (0 ∷ []))
    × (iterator_finit
          (get_next table at_three (0 ∷ [])).iterator
          (get_next table at_three (0 ∷ [])).locked
        ≡ [])
unfolding program flatten
get_next-Finds_example =
    get_next-Finds table at_three (3, 30) ((2, 20) ∷ (5, 50) ∷ []) [] table-IsValid (omega arith)
      refl refl
