-- ===== src/Swap/Tests.antt =====
-- The policies on a few pages.
use nku_os_ucore.Common.{◌≡◌, refl, none, some, List, [], ◌∷◌, arith, ok, ◌==◌}
use nku_os_ucore.DList.{update}
use nku_os_ucore.DList.Ring.{Ring}
use nku_os_ucore.Swap.Fifo.{Fifo, Op, arrive, evict, fifo_init_mm, run}
use nku_os_ucore.Swap.Fifo.Queue.{fifo_init_mm-Holds, run_refines, queue_run}
use nku_os_ucore.Swap.Clock.{Clock, clock_swap_out_victim}
use nku_os_ucore.Swap.Clock.Lap.{Evicted, clock_swap_out_victim-Evicted}

abbrev blank : Fifo
blank = record { links = record { prev = λ x. x; next = λ x. x }; sm_priv = none }

abbrev script : List Op
script = evict ∷ arrive 3 ∷ arrive 4 ∷ evict ∷ arrive 3 ∷ evict ∷ evict ∷ evict ∷ []

run_refines_example : run (fifo_init_mm blank) script ≡ ok (queue_run [] script)
run_refines_example =
    run_refines script (fifo_init_mm blank) [] (fifo_init_mm-Holds blank)
      (omega arith, tt, (omega arith, omega arith, (omega arith, omega arith, tt)))

queue_run-script : queue_run [] script ≡ none ∷ some 3 ∷ some 4 ∷ some 3 ∷ none ∷ []
unfolding queue_run
queue_run-script = refl

-- The hand stands behind 10; 20 is visited, 10 is not.
abbrev two_pages : Clock
two_pages = record {
  links = record {
    prev = update (update (update (λ x. x) 0 20) 10 0) 20 10;
    next = update (update (update (λ x. x) 0 10) 10 20) 20 0;
  };
  curr_ptr = 10;
  sm_priv = some 0;
  visited = λ x. x == 20;
}

two_pages-Ring : Ring two_pages.links 0 (10 ∷ 20 ∷ [])
two_pages-Ring = record {
  linked = (refl, refl, (refl, refl, (refl, refl)));
  distinct = omega arith;
}

clock_swap_out_victim-Evicted_example :
    Evicted two_pages (20 ∷ 10 ∷ []) (clock_swap_out_victim 3 0 two_pages)
clock_swap_out_victim-Evicted_example =
    clock_swap_out_victim-Evicted 3 two_pages (10 ∷ []) (20 ∷ []) 20 (10 ∷ []) two_pages-Ring refl
      refl refl (omega arith)
