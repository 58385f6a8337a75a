-- ===== src/Notifications/Service/Claimable.antt =====
-- Which deliveries can be handed out: the query of `claim_next` in terms of the row.
use policy_project_managemen.Prelude.{
  and_parts, not, ◌||◌, ◌&&◌, ◌⊎◌, ◌≤◌, is_none, ℕ, ◌≡◌, refl, Bool, true, false, Option, none,
  some, arith, Bool-cases, inl, inr,
}
use policy_project_managemen.Notifications.Delivery.{
  DeliveryStatus, pending, retry_wait, delivery_status_eq, NotificationDelivery,
}
use policy_project_managemen.Notifications.Service.{due, is_claimable}

delivery_status_sound : (s t : DeliveryStatus) → delivery_status_eq s t ≡ true → s ≡ t
delivery_status_sound s t h = ground arith

-- A delivery that can be handed out: no other worker has it locked, it was never sent, and it is
-- new or its next attempt is due.
pub record CanBeClaimed (locked : ℕ → Bool) (now : ℕ) (d : NotificationDelivery) : Type 0 where
  pub unlocked : locked d.id ≡ false
  pub unsent : d.sent_at ≡ none
  pub ready :
      (d.status ≡ pending)
      ⊎ ((d.status ≡ retry_wait) × ((time : ℕ) × (d.next_attempt_at ≡ some time) × (time ≤ now)))

due_parts :
    (t : Option ℕ) (now : ℕ) → due t now ≡ true → (time : ℕ) × (t ≡ some time) × (time ≤ now)
due_parts none now h = cc
due_parts (some time) now h = (time, refl, ground arith)

unsent_parts : (t : Option ℕ) → is_none t ≡ true → t ≡ none
unsent_parts none h = refl
unsent_parts (some t) h = cc

claimable-ready :
    (now : ℕ) (d : NotificationDelivery)
    → (delivery_status_eq d.status pending
        || delivery_status_eq d.status retry_wait && due d.next_attempt_at now)
      ≡ true
    → (d.status ≡ pending)
      ⊎ ((d.status ≡ retry_wait) × ((time : ℕ) × (d.next_attempt_at ≡ some time) × (time ≤ now)))
claimable-ready now d h = elim (Bool-cases (delivery_status_eq d.status pending)) [
  | inl is_new ↦ inl (delivery_status_sound d.status pending is_new)
  | inr old ↦
      let (waits, is_due) =
        and_parts (delivery_status_eq d.status retry_wait) _ (ground (arith, old, h)) in
      inr (delivery_status_sound d.status retry_wait waits, due_parts d.next_attempt_at now is_due)
]

pub is_claimable-CanBeClaimed :
    (locked : ℕ → Bool) (now : ℕ) (d : NotificationDelivery)
    → is_claimable locked now d ≡ true
    → CanBeClaimed locked now d
unfolding is_claimable
is_claimable-CanBeClaimed locked now d h =
    let (rest, ready) = and_parts (not (locked d.id) && is_none d.sent_at) _ h in
    let (free, unsent) = and_parts (not (locked d.id)) (is_none d.sent_at) rest in
    record {
      unlocked = ground arith;
      unsent = unsent_parts d.sent_at unsent;
      ready = claimable-ready now d ready;
    }

CanBeClaimed-is_claimable :
    (locked : ℕ → Bool) (now : ℕ) (d : NotificationDelivery)
    → CanBeClaimed locked now d
    → is_claimable locked now d ≡ true
unfolding is_claimable
CanBeClaimed-is_claimable locked now d c = elim c.ready [
  | inl is_new ↦ rw (c.unlocked, c.unsent, is_new) refl
  | inr (waits, (time, e, le)) ↦ rw (c.unlocked, c.unsent, waits, e) (ground arith)
]

pub refused :
    (locked : ℕ → Bool) (now : ℕ) (d : NotificationDelivery)
    → is_claimable locked now d ≡ false
    → ¬ CanBeClaimed locked now d
refused locked now d h c = cc (h, CanBeClaimed-is_claimable locked now d c)

pub unclaimable :
    (locked : ℕ → Bool) (now : ℕ) (d : NotificationDelivery)
    → ¬ CanBeClaimed locked now d
    → is_claimable locked now d ≡ false
unclaimable locked now d h = elim (Bool-cases (is_claimable locked now d)) [
  | inl e ↦ absurd (h (is_claimable-CanBeClaimed locked now d e))
  | inr e ↦ e
]
