-- ===== src/Notification/Fifo.antt =====
-- The queue between the poller and the workers, over any calls.
use my_go.Common.{
  ℕ, ◌+◌, ◌≤◌, ◌≡◌, refl, sym, ap, ◌∙◌, ℤ, pos, ◌+ℤ◌, int64, int64-int64_suc, List, [], ◌∷◌, ◌++◌,
  length, length-append, append_assoc, Option, none, some, Bool, true, false, Bool-cases, inl, inr,
  ltb, arith,
}
use my_go.Notification.{NotificationTask}
use my_go.Notification.Queue.{
  InMemoryQueue, new_in_memory_queue, enqueue, dequeue, receive, receive_from, count_dequeued,
}

-- A worker's provider receives from the channel; nothing else calls `Dequeue`.
pub data QueueCall : Type 0 where
  put : NotificationTask → QueueCall
  take_counted take_from_channel : QueueCall

-- A queue with the tasks that it accepted and that it gave, in order, and how many it refused.
pub record Log : Type 0 where
  pub queue : InMemoryQueue
  pub accepted : List NotificationTask
  pub given : List NotificationTask
  pub refused : ℕ

abbrev pub on_put : NotificationTask → Log → InMemoryQueue × Bool → Log
on_put task l (q, true) = record l { queue = q; accepted = l.accepted ++ (task ∷ []) }
on_put task l (q, false) = record l { queue = q; refused = l.refused + 1 }

abbrev pub on_take : Log → InMemoryQueue × Option NotificationTask → Log
on_take l (q, none) = record l { queue = q }
on_take l (q, some task) = record l { queue = q; given = l.given ++ (task ∷ []) }

abbrev pub call : QueueCall → Log → Log
call (put task) l = on_put task l (enqueue task l.queue)
call take_counted l = on_take l (dequeue l.queue)
call take_from_channel l = on_take l (receive l.queue)

unfoldable pub calls : List QueueCall → Log → Log
calls [] l = l
calls (c ∷ cs) l = calls cs (call c l)

abbrev pub empty_log : ℕ → Log
empty_log size = record { queue = new_in_memory_queue size; accepted = []; given = []; refused = 0 }

-- First in, first out, within the capacity, and with the counts as far as an int64 has them.
pub record IsFifo (size : ℕ) (l : Log) : Type 0 where
  pub in_order : l.accepted ≡ l.given ++ l.queue.items
  pub within_size : length l.queue.items ≤ l.queue.size
  pub same_size : l.queue.size ≡ size
  pub counts_enqueued : l.queue.stats.enqueued ≡ int64 (pos (length l.accepted))
  pub counts_full : l.queue.stats.full_count ≡ int64 (pos l.refused)

counted-suc : (n : ℤ) (m : ℕ) → n ≡ int64 (pos m) → int64 (n +ℤ pos 1) ≡ int64 (pos (m + 1))
counted-suc n m e = rw e (int64-int64_suc m)

counted-snoc :
    (n : ℤ) (ts : List NotificationTask) (t : NotificationTask)
    → n ≡ int64 (pos (length ts))
    → int64 (n +ℤ pos 1) ≡ int64 (pos (length (ts ++ (t ∷ []))))
counted-snoc n ts t e =
    counted-suc n (length ts) e ∙ ap (λ k. int64 (pos k)) (omega (arith, length-append ts (t ∷ [])))

IsFifo-put :
    (size : ℕ) (task : NotificationTask) (l : Log) → IsFifo size l → IsFifo size (call (put task) l)
unfolding enqueue
IsFifo-put size task l h = elim (Bool-cases (ltb (length l.queue.items) l.queue.size)) [
  | inl e ↦
      rw (enqueue, e)
        (record {
          in_order =
              ap (λ ts. ts ++ (task ∷ [])) h.in_order
              ∙ append_assoc l.given l.queue.items (task ∷ []);
          within_size = ground (arith, length-append l.queue.items (task ∷ []));
          same_size = h.same_size;
          counts_enqueued = counted-snoc _ l.accepted task h.counts_enqueued;
          counts_full = h.counts_full;
        })
  | inr e ↦
      rw (enqueue, e)
        (record {
          in_order = h.in_order;
          within_size = h.within_size;
          same_size = h.same_size;
          counts_enqueued = h.counts_enqueued;
          counts_full = counted-suc _ _ h.counts_full;
        })
]

moved :
    (l : Log) (t : NotificationTask) (ts : List NotificationTask)
    → l.queue.items ≡ t ∷ ts
    → l.accepted ≡ l.given ++ l.queue.items
    → l.accepted ≡ (l.given ++ (t ∷ [])) ++ ts
moved l t ts e h = h ∙ ap (λ xs. l.given ++ xs) e ∙ sym (append_assoc l.given (t ∷ []) ts)

shorter :
    (q : InMemoryQueue) (t : NotificationTask) (ts : List NotificationTask)
    → q.items ≡ t ∷ ts
    → length q.items ≤ q.size
    → length ts ≤ q.size
shorter q t ts e h = omega (arith, ap length e, h)

IsFifo-receive :
    (size : ℕ) (l : Log) (items : List NotificationTask)
    → l.queue.items ≡ items
    → IsFifo size l
    → IsFifo size (on_take l (receive_from items l.queue))
IsFifo-receive size l [] e h = h
IsFifo-receive size l (t ∷ ts) e h = record {
  in_order = moved l t ts e h.in_order;
  within_size = shorter l.queue t ts e h.within_size;
  same_size = h.same_size;
  counts_enqueued = h.counts_enqueued;
  counts_full = h.counts_full;
}

IsFifo-dequeue :
    (size : ℕ) (l : Log) (items : List NotificationTask)
    → l.queue.items ≡ items
    → IsFifo size l
    → IsFifo size (on_take l (count_dequeued (receive_from items l.queue)))
IsFifo-dequeue size l [] e h = h
IsFifo-dequeue size l (t ∷ ts) e h = record {
  in_order = moved l t ts e h.in_order;
  within_size = shorter l.queue t ts e h.within_size;
  same_size = h.same_size;
  counts_enqueued = h.counts_enqueued;
  counts_full = h.counts_full;
}

IsFifo-call : (size : ℕ) (c : QueueCall) (l : Log) → IsFifo size l → IsFifo size (call c l)
unfolding dequeue receive
IsFifo-call size (put task) l h = IsFifo-put size task l h
IsFifo-call size take_counted l h = IsFifo-dequeue size l l.queue.items refl h
IsFifo-call size take_from_channel l h = IsFifo-receive size l l.queue.items refl h

IsFifo-calls : (size : ℕ) (cs : List QueueCall) (l : Log) → IsFifo size l → IsFifo size (calls cs l)
unfolding calls
IsFifo-calls size [] l h = h
IsFifo-calls size (c ∷ cs) l h = IsFifo-calls size cs (call c l) (IsFifo-call size c l h)

-- A new queue is used by any sequence of `Enqueue`, `Dequeue` and receives from its channel. Then the
-- tasks that it accepted are, in order, those that it gave and those that it holds; it holds at most
-- `size`; `Enqueued` is the number of tasks accepted and `FullCount` the number refused, each as an
-- int64 that wraps around.
pub calls-IsFifo : (size : ℕ) (cs : List QueueCall) → IsFifo size (calls cs (empty_log size))
unfolding new_in_memory_queue int64
calls-IsFifo size cs = IsFifo-calls size cs (empty_log size) (record {
  in_order = refl;
  within_size = omega arith;
  same_size = refl;
  counts_enqueued = refl;
  counts_full = refl;
})
