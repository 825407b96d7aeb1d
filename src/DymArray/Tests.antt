-- ===== src/DymArray/Tests.antt =====
-- Runs of the array routines, and the theorems at concrete arrays.
use irpmon.Common.{ℕ, ◌≡◌, refl, [], ◌∷◌, none, some, true, arith, replicate}
use irpmon.Kernel.{Pool, paged_pool, pool_alloc, pool_free, done}
use irpmon.DymArray.{
  DymArray, Outcome, sync_alloc, create_data, create, destroy, copy_cells, reserve, retry,
  make_room, push_back, push_front, push_array, push_array_no_alloc, push_back_no_alloc, pop_back,
  pop_front, item, shift_up, shift_down, sync_free,
}
use irpmon.DymArray.Spec.{Represents}
use irpmon.DymArray.Ends.{Pushed, push_back-Pushed, push_front-Pushed, push_array-Pushed}
use irpmon.DymArray.Memory.{destroy-create}

program : Unit {0}
unfolding sync_alloc create_data create destroy copy_cells reserve retry make_room push_back
    push_front push_array push_array_no_alloc push_back_no_alloc pop_back pop_front item shift_up
    shift_down pool_alloc pool_free sync_free
program = tt

abbrev ample : Pool
ample = record { grants = λ n b. true; asked = 0; live = 0 }

-- Two of three cells are in use.
abbrev two : DymArray ℕ
two = record {
  pool_type = paged_pool;
  valid_length = 2;
  allocated_length = 2;
  cells = some 5 ∷ some 7 ∷ [];
}

two-Represents : Represents two (5 ∷ 7 ∷ [])
two-Represents = record { buffer = refl; fits = omega arith; valid = refl }

-- The growth by twenty per cent is no growth at a length of two, so the second attempt adds a cell.
push_back_grows : (push_back 9 ample two).result.allocated_length ≡ 3
unfolding program
push_back_grows = refl

pop_front_runs :
    pop_front two ≡ done (some 5, record two { cells = some 7 ∷ some 7 ∷ []; valid_length = 1 })
unfolding program
pop_front_runs = refl

push_back-Pushed_example : Pushed ample (5 ∷ 7 ∷ []) (5 ∷ 7 ∷ 9 ∷ []) (push_back 9 ample two)
push_back-Pushed_example = push_back-Pushed 9 ample two two-Represents (omega arith)

push_front-Pushed_example : Pushed ample (5 ∷ 7 ∷ []) (9 ∷ 5 ∷ 7 ∷ []) (push_front 9 ample two)
push_front-Pushed_example = push_front-Pushed 9 ample two two-Represents (omega arith)

push_array-Pushed_example :
    (o : Outcome (DymArray ℕ)) × (push_array (1 ∷ 2 ∷ []) ample two ≡ done o)
    × Pushed ample (5 ∷ 7 ∷ []) (5 ∷ 7 ∷ 1 ∷ 2 ∷ []) o
push_array-Pushed_example = push_array-Pushed (1 ∷ 2 ∷ []) ample two two-Represents (omega arith)

item_runs : item two 1 ≡ done (some 7)
unfolding program
item_runs = refl

abbrev fresh : DymArray ℕ
fresh = record {
  pool_type = paged_pool;
  valid_length = 0;
  allocated_length = 16;
  cells = replicate 16 none;
}

destroy-create_example :
    (q : Pool) × (destroy fresh (create {A = ℕ} paged_pool ample).pool ≡ done q) × (q.live ≡ 0)
unfolding program
destroy-create_example = destroy-create paged_pool ample fresh refl
