-- ===== src/Notification/Queue.antt =====
-- The queue between the poller and the workers, worker/queue.go: a buffered channel and its counters.
-- The counters are int64 and wrap around.
use my_go.Common.{
  ℕ, ℤ, pos, ◌+ℤ◌, ◌-ℤ◌, int64, List, [], ◌∷◌, ◌++◌, length, Option, none, some, Bool, true, false,
  leb, ltb, if◌then◌else◌,
}
use my_go.Notification.{NotificationTask}

pub record QueueStats : Type 0 where
  pub length_count : ℤ
  pub enqueued : ℤ
  pub dequeued : ℤ
  pub full_count : ℤ

-- `items` is what the channel holds, the oldest first.
pub record InMemoryQueue : Type 0 where
  pub items : List NotificationTask
  pub size : ℕ
  pub stats : QueueStats

unfoldable pub new_in_memory_queue : ℕ → InMemoryQueue
new_in_memory_queue size = record {
  items = [];
  size = size;
  stats = record { length_count = pos 0; enqueued = pos 0; dequeued = pos 0; full_count = pos 0 };
}

-- A send on the channel goes through while it is not full.
unfoldable pub enqueue : NotificationTask → InMemoryQueue → InMemoryQueue × Bool
enqueue task q =
    if ltb (length q.items) q.size
    then (
      record q {
        items = q.items ++ (task ∷ []);
        stats = record q.stats {
          enqueued = int64 (q.stats.enqueued +ℤ pos 1);
          length_count = int64 (q.stats.length_count +ℤ pos 1);
        };
      },
      true,
    )
    else (
      record q { stats = record q.stats { full_count = int64 (q.stats.full_count +ℤ pos 1) } },
      false,
    )

-- A receive on the channel alone, which the counters do not see.
abbrev pub receive_from :
    List NotificationTask → InMemoryQueue → InMemoryQueue × Option NotificationTask
receive_from [] q = (q, none)
receive_from (task ∷ rest) q = (record q { items = rest }, some task)

unfoldable pub receive : InMemoryQueue → InMemoryQueue × Option NotificationTask
receive q = receive_from q.items q

abbrev pub count_dequeued :
    InMemoryQueue × Option NotificationTask → InMemoryQueue × Option NotificationTask
count_dequeued (q, none) = (q, none)
count_dequeued (q, some task) = (
  record q {
    stats = record q.stats {
      dequeued = int64 (q.stats.dequeued +ℤ pos 1);
      length_count = int64 (q.stats.length_count -ℤ pos 1);
    };
  },
  some task,
)

unfoldable pub dequeue : InMemoryQueue → InMemoryQueue × Option NotificationTask
dequeue q = count_dequeued (receive q)

abbrev pub queue_length : InMemoryQueue → ℕ
queue_length q = length q.items

abbrev pub is_full : InMemoryQueue → Bool
is_full q = leb q.size (length q.items)
