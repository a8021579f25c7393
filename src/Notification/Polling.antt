-- ===== src/Notification/Polling.antt =====
-- What a poll does with the deliveries it finds, when the queue has room for only some of them.
use my_go.Common.{
  ℕ, zero, suc, ◌-◌, ◌≡◌, refl, sym, ap, ◌∙◌, Time, List, [], ◌∷◌, ◌++◌, length, length-append,
  take, drop, append_nil, append_assoc, true, false, ltb, lt→ltb, arith, ok,
}
use my_go.Notification.{NotificationTask}
use my_go.Notification.Queue.{InMemoryQueue, enqueue}
use my_go.Notification.Repository.{Database, reset_delivery_status}
use my_go.Notification.Delivering.{App}
use my_go.Notification.Poller.{
  NotificationPoller, start, stop, closed_once, closed_twice, enqueue_all, enqueue_or_reset,
}

module _ {D : Type 0} (db : Database D) (now : Time) where
  -- `ResetDeliveryStatus` for the targets of some tasks, in order.
  unfoldable pub reset_all : List NotificationTask → D → D
  reset_all [] d = d
  reset_all (task ∷ rest) d = reset_all rest (reset_delivery_status db now task.target_id d).0

  abbrev pub room : InMemoryQueue → ℕ
  room q = q.size - length q.items

  -- The first `n` tasks are in the queue, in order, and the others are reset.
  abbrev pub SplitsAt : ℕ → List NotificationTask → App D → App D → Type 0
  SplitsAt n tasks s s' =
      (s'.queue.items ≡ s.queue.items ++ take n tasks)
      × (s'.db_state ≡ reset_all (drop n tasks) s.db_state)

  SplitsAt-none : (n : ℕ) (s : App D) → SplitsAt n [] s s
  unfolding reset_all
  SplitsAt-none zero s = (sym (append_nil s.queue.items), refl)
  SplitsAt-none (suc n) s = (sym (append_nil s.queue.items), refl)

  enqueue-fits :
      (task : NotificationTask) (s : App D) (n : ℕ)
      → room s.queue ≡ suc n
      → (q : InMemoryQueue) × (enqueue_or_reset db now task s.db_state (enqueue task s.queue)
          ≡ record { db_state = s.db_state; queue = q })
        × (q.items ≡ s.queue.items ++ (task ∷ []))
        × (room q ≡ n)
  unfolding enqueue
  enqueue-fits task s n e =
      let full = lt→ltb (length s.queue.items) s.queue.size (omega (arith, e)) in
      rw (enqueue, full) (_, refl, refl, omega (arith, e, length-append s.queue.items (task ∷ [])))

  enqueue-full :
      (task : NotificationTask) (s : App D)
      → room s.queue ≡ 0
      → (q : InMemoryQueue) × (enqueue_or_reset db now task s.db_state (enqueue task s.queue)
          ≡ record {
            db_state = (reset_delivery_status db now task.target_id s.db_state).0;
            queue = q;
          })
        × (q.items ≡ s.queue.items)
        × (room q ≡ 0)
  unfolding enqueue
  enqueue-full task s e =
      let full : ltb (length s.queue.items) s.queue.size ≡ false = ground (arith, e) in
      rw (enqueue, full) (_, refl, refl, e)

  SplitsAt-enqueue_all :
      (n : ℕ) (ts : List NotificationTask) (s : App D)
      → room s.queue ≡ n
      → SplitsAt n ts s (enqueue_all db now ts s)
  unfolding enqueue_all reset_all
  SplitsAt-enqueue_all n [] s e = SplitsAt-none n s
  SplitsAt-enqueue_all zero (t ∷ ts) s e =
      let (q, made, same, left) = enqueue-full t s e in
      let (hi, hd) =
        SplitsAt-enqueue_all zero ts
          (record { db_state = (reset_delivery_status db now t.target_id s.db_state).0; queue = q })
          left in
      rw (enqueue_all, made) (hi ∙ ap (λ l. l ++ []) same, hd)
  SplitsAt-enqueue_all (suc n) (t ∷ ts) s e =
      let (q, made, more, left) = enqueue-fits t s n e in
      let (hi, hd) = SplitsAt-enqueue_all n ts (record { db_state = s.db_state; queue = q }) left in
      rw (enqueue_all, made)
        (hi ∙ ap (λ l. l ++ take n ts) more ∙ append_assoc s.queue.items (t ∷ []) (take n ts), hd)

  -- The loop that ends a poll puts as many of its tasks into the queue as there is room for, the
  -- first ones, in order and behind those that wait; exactly the targets of the others are reset to
  -- pending, in order.
  pub enqueue_all-splits :
      (tasks : List NotificationTask) (s : App D)
      → SplitsAt (room s.queue) tasks s (enqueue_all db now tasks s)
  enqueue_all-splits tasks s = SplitsAt-enqueue_all (room s.queue) tasks s refl

-- A poller that runs and was never stopped can be stopped and then started again, but the second
-- stop closes a closed channel, which panics.
pub stop-restarted :
    (p : NotificationPoller)
    → p.running ≡ true
    → p.stop_closed ≡ false
    → (p1 : NotificationPoller) × (p2 : NotificationPoller) × (stop p ≡ closed_once p1)
      × (start p1 ≡ ok p2)
      × (stop p2 ≡ closed_twice)
unfolding stop start
stop-restarted p r c = rw (stop, r) (rw c (_, _, refl, refl, refl))
