-- ===== src/Notifications/Delivery/Lifecycle.antt =====
-- The life of one delivery: its consistency, and what no sequence of operations can do to it.
use policy_project_managemen.Prelude.{
  ℕ, ◌+◌, ◌-◌, ◌*◌, ◌≤◌, ◌≡◌, ◌⊎◌, inl, inr, String, true, false, none, arith, is_some,
}
use policy_project_managemen.Notifications.Delivery.{
  DeliveryStatus, pending, sending, retry_wait, failed, NotificationDelivery, DeliveryResult,
  is_succeeded, claim, succeed, apply_failure, restart, has_current_attempt,
}
use policy_project_managemen.Notifications.Delivery.Attempts.{
  IsNumbered, IsClosed, IsOpen, successes, finish_attempt_lem, has_current_attempt_lem,
}

-- No worker holds a claim.
abbrev pub IsUnclaimed : NotificationDelivery → Type 0
IsUnclaimed d = (d.claim_token ≡ none) × (d.claimed_at ≡ none)

-- What the columns hold at each status.
abbrev pub AtStatus : DeliveryStatus → NotificationDelivery → Type 0
AtStatus pending d =
    (d.round_attempt_count ≡ 0)
    × (d.sent_at ≡ none)
    × IsUnclaimed d
    × IsClosed d.attempts
    × (successes d.attempts ≡ 0)
AtStatus sending d =
    (1 ≤ d.round_attempt_count)
    × (d.round_attempt_count ≤ 4)
    × (d.sent_at ≡ none)
    × (is_some d.claim_token ≡ true)
    × (is_some d.claimed_at ≡ true)
    × IsOpen d.attempts
    × (successes d.attempts ≡ 0)
AtStatus retry_wait d =
    (1 ≤ d.round_attempt_count)
    × (d.round_attempt_count ≤ 3)
    × (d.sent_at ≡ none)
    × (is_some d.next_attempt_at ≡ true)
    × IsUnclaimed d
    × IsClosed d.attempts
    × (successes d.attempts ≡ 0)
AtStatus DeliveryStatus.succeeded d =
    (1 ≤ d.round_attempt_count)
    × (d.round_attempt_count ≤ 4)
    × (is_some d.sent_at ≡ true)
    × IsUnclaimed d
    × IsClosed d.attempts
    × (successes d.attempts ≡ 1)
AtStatus failed d =
    (1 ≤ d.round_attempt_count)
    × (d.round_attempt_count ≤ 4)
    × (d.sent_at ≡ none)
    × IsUnclaimed d
    × IsClosed d.attempts
    × (successes d.attempts ≡ 0)

pub record IsConsistent (d : NotificationDelivery) : Type 0 where
  pub at_status : AtStatus d.status d
  pub numbered : IsNumbered d.attempt_count d.attempts
  pub round_positive : 1 ≤ d.send_round
  pub version_positive : 1 ≤ d.version
  pub bounded : d.attempt_count ≤ 4 * (d.send_round - 1) + d.round_attempt_count

module _ (d : NotificationDelivery) (c : IsConsistent d) where
  pub claim-IsConsistent :
      (now : ℕ) (token : String)
      → (d.status ≡ pending) ⊎ (d.status ≡ retry_wait)
      → IsConsistent (claim now token d)
  unfolding claim
  claim-IsConsistent now token (inl e) = ground (arith, c.at_status, c.numbered)
  claim-IsConsistent now token (inr e) = ground (arith, c.at_status, c.numbered)

  pub succeed-IsConsistent :
      (now : ℕ) (r : DeliveryResult)
      → d.status ≡ sending
      → is_succeeded r.outcome ≡ true
      → IsConsistent (succeed now r d)
  unfolding succeed
  succeed-IsConsistent now r e ok =
      ground (arith, finish_attempt_lem now r d.attempt_count d.attempts c.numbered)

  pub apply_failure-IsConsistent :
      (now : ℕ) (r : DeliveryResult)
      → d.status ≡ sending
      → is_succeeded r.outcome ≡ false
      → IsConsistent (apply_failure now r d)
  unfolding apply_failure
  apply_failure-IsConsistent now r e bad =
      ground (arith, finish_attempt_lem now r d.attempt_count d.attempts c.numbered)

  pub restart-IsConsistent : d.status ≡ failed → IsConsistent (restart d)
  unfolding restart
  restart-IsConsistent e = ground arith

  pub has_current_attempt-sending : d.status ≡ sending → has_current_attempt d ≡ true
  has_current_attempt-sending e = ground (arith, has_current_attempt_lem d c.numbered)
