-- ===== src/Tests/Containers.antt =====
-- include/event_hash.h, include/util.h and src/event/lockqueuemap.h at small contents.
use mms_svr.Prelude.{ℕ, ◌≡◌, refl, List, [], ◌∷◌, ◌++◌, Option, none, some}
use mms_svr.Prelude.Keys.{nat_eq}
use mms_svr.Prelude.Int.{int_eq}
use mms_svr.StateMap.{StateMap, add_state, del_state, get_state}
use mms_svr.StateMap.Laws.{UniqueKeys}
use mms_svr.StateMap.Refines.{Change, adds, dels, apply_all, updated_all, state_map_refines}
use mms_svr.Queues.Fifo.{Op, pushes, pops, served, sent, run}
use mms_svr.Queues.LockQueueMap.{LockQueueMap, lock_queue_map, lock_queue_map_fifo}
use mms_svr.Queues.LockQueueMap
use mms_svr.Queues.Bossworker.{Bossworker}

abbrev two_states : StateMap ℕ (Option ℕ)
two_states = record { hash_map = (5, some 50) ∷ (6, some 60) ∷ []; def_value = none }

two_states-UniqueKeys : UniqueKeys two_states.hash_map
unfolding mms_svr.StateMap.find
two_states-UniqueKeys = (refl, (refl, tt))

abbrev jobs : List (Op ℕ ℕ)
jobs = pushes 1 10 ∷ pushes 2 20 ∷ pushes 1 11 ∷ pops 1 ∷ pops 2 ∷ []

abbrev no_queues : LockQueueMap ℕ ℕ
no_queues = record { fd_queue_map = []; t_def_value = 0 }

lock_queue_map_fifo_example :
    served lock_queue_map no_queues jobs 1
      ++ LockQueueMap.contents (run lock_queue_map no_queues jobs) 1
    ≡ LockQueueMap.contents no_queues 1 ++ sent lock_queue_map no_queues jobs 1
lock_queue_map_fifo_example = lock_queue_map_fifo no_queues jobs 1

abbrev one_worker : Bossworker ℕ ℕ ℕ
one_worker = record {
  workers = record {
    hash_map = (1, some (record { jobs = []; touch = 9 })) ∷ [];
    def_value = none;
  };
  t_def_value = 0;
  t_def_touch = 0;
}

abbrev two_changes : List (Change ℕ (Option ℕ))
two_changes = adds 6 (some 61) ∷ dels 5 ∷ []

state_map_refines_example :
    (get_state (apply_all two_states two_changes) 5
      ≡ updated_all none (get_state two_states) two_changes 5)
    × UniqueKeys (apply_all two_states two_changes).hash_map
state_map_refines_example = state_map_refines two_states two_changes 5 two_states-UniqueKeys
