-- ===== src/StringRefTable/Tests.antt =====
-- Runs of the table of reference-counted strings, and the theorems at concrete tables.
use irpmon.Common.{ℕ, ◌+◌, ◌%◌, ◌≡◌, refl, List, [], ◌∷◌, ◌++◌, none, some, arith, ◌==◌, replicate}
use irpmon.Kernel.{success, pool_alloc}
use irpmon.StringRefTable.{
  Strings, Owner, Table, later, keys_equal, chain_walk, put, insert_found, insert_hashed, insert,
  get_found, get_hashed, get, delete, delete_hashed, delete_dereference, drop_object, init, or_nop,
  nop_routine, clear, clear_buckets, clear_chain,
}
use irpmon.StringRefTable.Lookup.{Sized, get-insert_string, insert_collides}

program : Unit {0}
unfolding later keys_equal chain_walk put insert_found insert_hashed insert get_found get_hashed get
    delete delete_hashed delete_dereference drop_object init or_nop nop_routine clear clear_buckets
    clear_chain pool_alloc
program = tt

-- Strings are numbers, hashed by their remainder modulo ten.
abbrev numbers : Strings ℕ
numbers = record { hash = λ n. (success, n % 10); equal = λ m n. m == n }

-- The owner logs the references that are taken and given back.
abbrev logging : Owner (List ℕ)
logging = record {
  reference = λ object log. log ++ (object ∷ []);
  dereference = λ object log. log ++ ((object + 1000) ∷ []);
}

abbrev empty : Table ℕ
empty = record { bucket_count = 4; buckets = replicate 4 [] }

empty-Sized : Sized empty
empty-Sized = record { wide = refl; some_bucket = omega arith }

-- Inserted, found, deleted with its reference given back, and no longer there.
cycle :
    (get numbers logging 25
      (delete_dereference numbers logging 25 (insert numbers logging 7 25 empty []).table []).table
      []).object
    ≡ none
unfolding program
cycle = refl

delete_log :
    (delete_dereference numbers logging 25 (insert numbers logging 7 25 empty []).table []).state
    ≡ 1007 ∷ []
unfolding program
delete_log = refl

clear_log : clear numbers logging (insert numbers logging 7 25 empty []).table [] ≡ 1007 ∷ []
unfolding program
clear_log = refl

get-insert_string_example :
    (get numbers logging 25 (insert numbers logging 7 25 empty []).table []).object
    ≡ (insert numbers logging 7 25 empty []).object
get-insert_string_example = get-insert_string numbers logging 7 25 empty [] [] empty-Sized refl

insert_collides_example :
    insert numbers logging 8 35 (insert numbers logging 7 25 empty []).table [] ≡ record {
      object = some 7;
      table = (insert numbers logging 7 25 empty []).table;
      state = 7 ∷ [];
    }
insert_collides_example =
    insert_collides numbers logging 7 8 5 success 25 35 empty [] [] empty-Sized refl refl refl refl
