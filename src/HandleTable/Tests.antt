-- ===== src/HandleTable/Tests.antt =====
-- Runs of the handle table, and the theorems at concrete tables.
use irpmon.Common.{ℕ, ◌≡◌, refl, List, [], ◌∷◌, ◌++◌, none, some, true, arith, replicate}
use irpmon.Kernel.{
  Status, success, unsuccessful, invalid_handle, nt_success, paged_pool, Pool, pool_alloc,
  pool_free,
}
use irpmon.HashTable.{
  no_synchronization, passive_level, index, insert, delete, unlink, unlinked, find, get,
}
use irpmon.HashTable.Lookup.{IsValid}
use irpmon.HashTable.Setup.{
  finish_create, sync_alloc, is_known, argument_error, create as table_create,
}
use irpmon.HandleTable.{
  HandleTable, Procedures, add_mapping, handle_create, translated, translate, finish_duplicate,
  duplicate, closed, close, create, create_hash, keep_table, init_lock, delete_lock, free_block,
  pool_of,
}
use irpmon.HandleTable.Handles.{object_at, next_handle, close-add_mapping}

program : Unit {0}
unfolding index insert delete unlink unlinked find get add_mapping handle_create translated
    translate finish_duplicate duplicate closed close pool_alloc pool_free create create_hash
    keep_table init_lock delete_lock free_block pool_of table_create finish_create sync_alloc
    is_known argument_error
program = tt

abbrev ample : Pool
ample = record { grants = λ n b. true; asked = 0; live = 0 }

-- The owner logs what it is told.
abbrev logging : Procedures (List ℕ)
logging = record {
  created = λ t object handle log. log ++ (1 ∷ object ∷ handle ∷ []);
  deleted = λ t object handle log. log ++ (2 ∷ object ∷ handle ∷ []);
  translated = λ t object handle log. log ++ (3 ∷ object ∷ handle ∷ []);
}

-- Handle 2 stands for the object 900.
abbrev one_handle : HandleTable
one_handle = record {
  address = 500;
  hash_table = record {
    size = 37;
    type = no_synchronization;
    number_of_items = 1;
    buckets =
        [] ∷ [] ∷ (record { handle_value = 2; object = 900; table = 500 } ∷ []) ∷ replicate 34 [];
  };
  next_free_handle = 2;
  table_type = passive_level;
  pool_type = paged_pool;
}

one_handle-IsValid : IsValid one_handle.hash_table
one_handle-IsValid = record { wide = refl; some_bucket = omega arith; counted = refl }

create_runs :
    (create 500 success passive_level (record { pool = ample; resources = 0 })).services.pool.live
    ≡ 2
unfolding program
create_runs = refl

create_object : object_at (handle_create logging 700 ample one_handle []).table 3 ≡ some 700
unfolding program
create_object = refl

stands : object_at one_handle 2 ≡ some 900
unfolding program
stands = refl

stands_not : object_at one_handle 9 ≡ none
unfolding program
stands_not = refl

granted : (pool_alloc (irpmon.Kernel.one irpmon.Kernel.handle_mapping) ample).0 ≡ true
unfolding program
granted = refl

close_log : (close logging 2 ample one_handle []).state ≡ 2 ∷ 900 ∷ 2 ∷ []
unfolding program
close_log = refl

close-add_mapping_example :
    close logging (next_handle one_handle) ample (add_mapping logging 700 one_handle) [] ≡ record {
      status = unsuccessful;
      handle = none;
      pool = pool_free ample;
      table = record one_handle { next_free_handle = 3 };
      state = 2 ∷ 700 ∷ 3 ∷ [];
    }
close-add_mapping_example =
    close-add_mapping logging 700 ample one_handle [] one_handle-IsValid (omega arith)
