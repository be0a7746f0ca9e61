-- ===== src/Queue/RoundRobin.antt =====
-- Each worker receives every n-th id, in the order of arrival.
use k_indexer.Prelude.{
  ℕ, zero, suc, ◌+◌, ◌*◌, ◌%◌, ◌<◌, ◌≡◌, refl, sym, ap, ◌∙◌, some, List, [], ◌∷◌, ◌++◌, length,
  get_elem?, arith, All,
}
use mathlib.Core.List.{append-nil, append_assoc}
use k_indexer.Text.{Text}
use k_indexer.Queue.{
  Channel, NotificationQueue, send_to, channels, new, distribute_to_worker, start,
}
use k_indexer.Queue.Share.{
  items_of, IsOpen, items_of-send_to, length-send_to, send_to-IsOpen, share, next-lt, distance-zero,
  get_elem?-share,
}

-- The queue between two receptions: its workers all run, and the next index is one of theirs.
record IsRunning (n : ℕ) (q : NotificationQueue) : Type 0 where
  open_senders : All IsOpen q.worker_senders
  count : length q.worker_senders ≡ n
  in_range : q.current_worker < n

-- What distributing ids does to a running queue.
record Delivers (n : ℕ) (q : NotificationQueue) (ids : List Text) (q' : NotificationQueue)
    : Type 0 where
  runs : start ids q ≡ some q'
  delivered :
      (j : ℕ)
      → j < n
      → items_of j q'.worker_senders ≡ items_of j q.worker_senders ++ share n q.current_worker j ids

after : Text → NotificationQueue → NotificationQueue
after id q = record {
  worker_senders = send_to q.current_worker id q.worker_senders;
  current_worker = (q.current_worker + 1) % length q.worker_senders;
}

distribute-after :
    (n : ℕ) (id : Text) (q : NotificationQueue)
    → IsRunning n q
    → (distribute_to_worker id q ≡ some (after id q)) × IsRunning n (after id q)
unfolding distribute_to_worker after
distribute-after n id q r = (
  ground (arith, r.count, r.in_range),
  record {
    open_senders = send_to-IsOpen q.current_worker id q.worker_senders r.open_senders;
    count = length-send_to q.current_worker id q.worker_senders ∙ r.count;
    in_range = rw r.count (next-lt q.current_worker n r.in_range);
  },
)

items_of-share :
    (n c j : ℕ) (id : Text) (ids : List Text) (cs : List Channel)
    → All IsOpen cs
    → c < length cs
    → items_of j (send_to c id cs) ++ share n ((c + 1) % n) j ids
      ≡ items_of j cs ++ share n c j (id ∷ ids)
unfolding share
items_of-share n c j id ids cs o h = ground (
  arith,
  items_of-send_to c j id cs o h,
  append_assoc (items_of j cs) (id ∷ []) (share n ((c + 1) % n) j ids),
)

start-Delivers :
    (n : ℕ) (ids : List Text) (q : NotificationQueue)
    → IsRunning n q
    → (q' : NotificationQueue) × Delivers n q ids q'
unfolding start share after
start-Delivers n [] q r = (q, record { runs = refl; delivered = λ j h. sym (append-nil _) })
start-Delivers n (id ∷ ids) q r =
    let step = distribute-after n id q r in
    let rest = start-Delivers n ids (after id q) step.1 in
    (
      rest.0,
      record {
        runs = rw step.0 rest.1.runs;
        delivered = λ j h.
            rest.1.delivered j h
            ∙ (rw r.count (
                items_of-share n q.current_worker j id ids q.worker_senders r.open_senders
                  (rw r.count r.in_range)));
      },
    )

length-channels : (n : ℕ) → length (channels n) ≡ n
length-channels zero = refl
length-channels (suc n) = ap suc (length-channels n)

channels-IsOpen : (n : ℕ) → All IsOpen (channels n)
channels-IsOpen zero = tt
channels-IsOpen (suc n) = (refl, channels-IsOpen n)

items_of-channels : (j n : ℕ) → items_of j (channels n) ≡ []
items_of-channels j zero = refl
items_of-channels zero (suc n) = refl
items_of-channels (suc j) (suc n) = items_of-channels j n

new-IsRunning : (n : ℕ) → 0 < n → IsRunning n (new n)
unfolding new
new-IsRunning n h = record {
  open_senders = channels-IsOpen n;
  count = length-channels n;
  in_range = h;
}

-- A new queue of n workers, n positive, distributes every list of ids, as long as the workers run: the
-- k-th id that worker j receives is the one at position k * n + j of the list, and it receives none
-- where the list has no such position.
pub start_round_robin :
    (n : ℕ) (ids : List Text)
    → 0 < n
    → (q : NotificationQueue) × (start ids (new n) ≡ some q)
      × ((j k : ℕ) → j < n → get_elem? (items_of j q.worker_senders) k ≡ get_elem? ids (k * n + j))
unfolding new
start_round_robin n ids h =
    let d = start-Delivers n ids (new n) (new-IsRunning n h) in
    (
      d.0,
      d.1.runs,
      λ j k hj. rw (d.1.delivered j hj) (
          rw (items_of-channels j n) (
            get_elem?-share n 0 j k ids h hj
            ∙ ap (λ d. get_elem? ids (k * n + d)) (distance-zero n j))),
    )
