-- ===== src/Queue.antt =====
-- `NotificationQueue` of K-transaction-processor/src/queue.rs, which hands the transaction ids that the
-- listener receives to the workers in turn. A tokio channel is its items, and whether its receiver
-- still exists.
pub mod Share
pub mod RoundRobin
pub mod Tests
use k_indexer.Prelude.{
  ℕ, zero, suc, ◌+◌, ◌%◌, Bool, true, false, Option, none, some, List, [], ◌∷◌, ◌++◌, ◌==◌,
  if◌then◌else◌, length, get_elem?, set,
}
use k_indexer.Text.{Text}
use k_indexer.Save.{◌>>=◌}

pub record Channel : Type 0 where
  pub is_open : Bool
  pub items : List Text

-- `sender.send(item)`: a failure is logged, and the item is gone.
unfoldable pub send : Text → Channel → Channel
send item c = if c.is_open then record c { items = c.items ++ (item ∷ []) } else c

pub record NotificationQueue : Type 0 where
  pub worker_senders : List Channel
  pub current_worker : ℕ

abbrev pub channels : ℕ → List Channel
channels zero = []
channels (suc n) = record { is_open = true; items = [] } ∷ channels n

unfoldable pub new : ℕ → NotificationQueue
new worker_count = record { worker_senders = channels worker_count; current_worker = 0 }

-- The id is sent where there is a worker of that index.
unfoldable pub send_to : ℕ → Text → List Channel → List Channel
unfolding send
send_to i item senders = elim (get_elem? senders i) [
  | some c ↦ set senders i (send item c)
  | none ↦ senders
]

-- The remainder by zero, where there is no worker, panics.
unfoldable pub distribute_to_worker : Text → NotificationQueue → Option NotificationQueue
unfolding send_to
distribute_to_worker transaction_id q =
    let n = length q.worker_senders in
    if n == 0
    then none
    else some record {
      worker_senders = send_to q.current_worker transaction_id q.worker_senders;
      current_worker = (q.current_worker + 1) % n;
    }

-- The loop over the ids that are received until the channel is closed.
unfoldable pub start : List Text → NotificationQueue → Option NotificationQueue
unfolding distribute_to_worker
start [] q = some q
start (transaction_id ∷ ids) q = distribute_to_worker transaction_id q >>= λ q'. start ids q'
