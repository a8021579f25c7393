-- ===== src/Notification/Rows.antt =====
-- The row of a delivery, repository/repository.go, and what the methods of the repository do to it.
use my_go.Common.{
  ℕ, suc, ◌≡◌, refl, ℤ, Time, String, Option, none, some, Bool, true, false, Bool-cases, inl, inr,
  ok, str_eq, arith,
}
use my_go.Notification.{
  NotificationDelivery, NotificationTask, delivery_pending, delivery_delivered, eq_ℤ,
}
use my_go.Notification.Repository.{
  Database, of_target, attempted, increment_attempt, mark_delivered, reset_delivery_status,
}
use my_go.Notification.Channels.{SendError}
use my_go.Notification.Delivering.{Texts, payload_of}

-- What the table of deliveries promises while the database works: at most one row for each target,
-- and an update that keeps the targets sets the rows that it is about.
pub record TableLaws {D : Type 0} (db : Database D) : Type 1 where
  pub delivery_of : ℤ → D → Option NotificationDelivery
  pub delivery_of_target :
      (id : ℤ) (d : D) (r : NotificationDelivery) → delivery_of id d ≡ some r → r.target_id ≡ id
  pub delivery_of_updated :
      (id : ℤ) (d : D) (r : NotificationDelivery) (cond : NotificationDelivery → Bool)
      (set : NotificationDelivery → NotificationDelivery)
      → ((q : NotificationDelivery) → (set q).target_id ≡ q.target_id)
      → delivery_of id d ≡ some r
      → cond r ≡ true
      → delivery_of id (db.update_deliveries cond set d).0 ≡ some (set r)
  pub counted :
      (id : ℤ) (d : D) (r : NotificationDelivery) (cond : NotificationDelivery → Bool)
      → delivery_of id d ≡ some r
      → cond r ≡ true
      → (n : ℕ) × (db.count_deliveries cond d ≡ ok (suc n))

-- The numbers of a task are printed as texts that are not empty and read back, its payload reads
-- back, and an error's text is not empty.
pub record TaskReadsBack (texts : Texts) (nt : NotificationTask) : Type 0 where
  pub delivery_id_some : str_eq (texts.print nt.delivery_id) "" ≡ false
  pub target_id_some : str_eq (texts.print nt.target_id) "" ≡ false
  pub scan_delivery_id : texts.scan (texts.print nt.delivery_id) ≡ some nt.delivery_id
  pub scan_target_id : texts.scan (texts.print nt.target_id) ≡ some nt.target_id
  pub unmarshal-marshal :
      texts.unmarshal (texts.marshal (payload_of texts nt)) ≡ ok (payload_of texts nt)
  pub text_some : (e : SendError) → str_eq (texts.text_of e) "" ≡ false

eq_ℤ-refl : (z : ℤ) → eq_ℤ z z ≡ true
eq_ℤ-refl z = ground arith

module _ {D : Type 0} (db : Database D) (table : TableLaws db) where
  open table use {delivery_of, delivery_of_target, delivery_of_updated, counted}

  abbrev pub Row : ℤ → D → NotificationDelivery → Type 0
  Row id d r = delivery_of id d ≡ some r

  of_target-Row : (id : ℤ) (d : D) (r : NotificationDelivery) → Row id d r → of_target id r ≡ true
  of_target-Row id d r e = rw (delivery_of_target id d r e) (eq_ℤ-refl id)

  attempted-target :
      (now : Time) (message : String) (q : NotificationDelivery)
      → (attempted db now message q).target_id ≡ q.target_id
  attempted-target now message q = elim (Bool-cases (str_eq message "")) [
    | inl e ↦ rw e refl
    | inr e ↦ rw e refl
  ]

  pub Row-increment_attempt :
      (now : Time) (id : ℤ) (message : String) (d : D) (r : NotificationDelivery)
      → Row id d r
      → Row id (increment_attempt db now id message d).0 (attempted db now message r)
  unfolding increment_attempt
  Row-increment_attempt now id message d r e =
      delivery_of_updated id d r (of_target id) _ (attempted-target now message) e
        (of_target-Row id d r e)

  pub Row-mark_delivered :
      (now : Time) (id : ℤ) (d : D) (r : NotificationDelivery)
      → Row id d r
      → Row id
          (mark_delivered db now id d).0
          (record r { status = delivery_delivered; delivered_at = some now; updated_at = now })
  unfolding mark_delivered
  Row-mark_delivered now id d r e =
      delivery_of_updated id d r (of_target id) _ (λ q. refl) e (of_target-Row id d r e)

  pub Row-reset_delivery_status :
      (now : Time) (id : ℤ) (d : D) (r : NotificationDelivery)
      → Row id d r
      → Row id
          (reset_delivery_status db now id d).0
          (record r { status = delivery_pending; updated_at = now; failed_at = none })
  unfolding reset_delivery_status
  Row-reset_delivery_status now id d r e =
      delivery_of_updated id d r (of_target id) _ (λ q. refl) e (of_target-Row id d r e)
