-- ===== src/Queue/Tests.antt =====
-- Runs of the queue.
use k_indexer.Prelude.{
  ℕ, ◌+◌, ◌*◌, ◌<◌, ◌≡◌, refl, true, false, none, some, List, [], ◌∷◌, get_elem?, arith,
}
use k_indexer.Text.{Text, codes}
use k_indexer.Queue.{NotificationQueue, new, start, distribute_to_worker, send, send_to}
use k_indexer.Queue.Share.{items_of}
use k_indexer.Queue.RoundRobin.{start_round_robin}

abbrev five_ids : List Text
five_ids = codes "a" ∷ codes "b" ∷ codes "c" ∷ codes "d" ∷ codes "e" ∷ []

-- Without workers the first id is a remainder by zero, which panics.
start_no_workers : start five_ids (new 0) ≡ none
unfolding new start distribute_to_worker
start_no_workers = refl

-- A worker that is gone loses its ids, and the others keep their turns.
start_one_gone :
    start five_ids (record {
      worker_senders =
          record { is_open = false; items = [] } ∷ record { is_open = true; items = [] } ∷ [];
      current_worker = 0;
    })
    ≡ some (record {
      worker_senders =
          record { is_open = false; items = [] }
          ∷ record { is_open = true; items = codes "b" ∷ codes "d" ∷ [] }
          ∷ [];
      current_worker = 1;
    })
unfolding start distribute_to_worker send_to send
start_one_gone = refl

start_round_robin_example :
    (q : NotificationQueue) × (start five_ids (new 2) ≡ some q)
    × ((j k : ℕ)
        → j < 2
        → get_elem? (items_of j q.worker_senders) k ≡ get_elem? five_ids (k * 2 + j))
start_round_robin_example = start_round_robin 2 five_ids (omega arith)
