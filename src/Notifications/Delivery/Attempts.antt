-- ===== src/Notifications/Delivery/Attempts.antt =====
-- The attempts of a delivery: numbered one by one, all but the current one with a result.
use policy_project_managemen.Prelude.{
  ℕ, ◌+◌, ◌-◌, ◌≤◌, ◌<◌, ◌≡◌, refl, Bool, true, false, none, some, List, [], ◌∷◌, arith,
  if◌then◌else◌, is_none, is_some, find, length,
}
use policy_project_managemen.Notifications.Delivery.{
  NotificationAttempt, NotificationDelivery, DeliveryResult, is_succeeded, has_number, finish,
  finish_attempt, has_current_attempt,
}

-- The numbers run from `n` at the newest attempt down to 1.
abbrev pub IsNumbered : ℕ → List NotificationAttempt → Type 0
IsNumbered n [] = n ≡ 0
IsNumbered n (a ∷ l) = (a.attempt_number ≡ n) × (1 ≤ n) × IsNumbered (n - 1) l

-- Every attempt of the list has a result.
abbrev pub IsClosed : List NotificationAttempt → Type 0
IsClosed [] = Unit
IsClosed (a ∷ l) = (is_some a.result ≡ true) × IsClosed l

-- The newest attempt alone has no result.
abbrev pub IsOpen : List NotificationAttempt → Type 0
IsOpen [] = ⊥
IsOpen (a ∷ l) = (a.result ≡ none) × IsClosed l

abbrev pub success : NotificationAttempt → ℕ
success a = elim a.result [ none ↦ 0 | some o ↦ if is_succeeded o then 1 else 0 ]

-- How many attempts succeeded.
abbrev pub successes : List NotificationAttempt → ℕ
successes [] = 0
successes (a ∷ l) = success a + successes l

pub length-IsNumbered : (n : ℕ) (l : List NotificationAttempt) → IsNumbered n l → length l ≡ n
length-IsNumbered n [] h = omega arith
length-IsNumbered n (a ∷ l) h = omega (arith, length-IsNumbered (n - 1) l h.2)

module _ (now : ℕ) (r : DeliveryResult) where
  -- Older attempts are out of reach of a write to the attempt `n`.
  finish_attempt_older :
      (n m : ℕ) (l : List NotificationAttempt)
      → m < n
      → IsNumbered m l
      → finish_attempt now r n l ≡ l
  unfolding finish_attempt
  finish_attempt_older n m [] lt h = refl
  finish_attempt_older n m (a ∷ l) lt h =
      ground (arith, finish_attempt_older n (m - 1) l (omega arith) h.2)

  finish_attempt_newest :
      (n : ℕ) (a : NotificationAttempt) (l : List NotificationAttempt)
      → IsNumbered n (a ∷ l)
      → finish_attempt now r n (a ∷ l) ≡ finish now r a ∷ l
  unfolding finish_attempt
  finish_attempt_newest n a l h = ground (arith, finish_attempt_older n (n - 1) l (omega arith) h.2)

  -- The newest attempt is open, so it is the current one, and finishing it closes the list.
  pub finish_attempt_lem :
      (n : ℕ) (l : List NotificationAttempt)
      → IsNumbered n l
      → IsOpen l
      → IsNumbered n (finish_attempt now r n l)
        × IsClosed (finish_attempt now r n l)
        × (successes (finish_attempt now r n l)
            ≡ successes l + (if is_succeeded r.outcome then 1 else 0))
  finish_attempt_lem n [] h o = absurd o
  finish_attempt_lem n (a ∷ l) h o = rw (finish_attempt_newest n a l h) (ground arith)

-- An open list has a current attempt.
pub has_current_attempt_lem :
    (d : NotificationDelivery)
    → IsNumbered d.attempt_count d.attempts
    → IsOpen d.attempts
    → has_current_attempt d ≡ true
unfolding has_current_attempt
has_current_attempt_lem d h o = current d.attempts d.attempt_count h o
  where
    current :
        (l : List NotificationAttempt) (n : ℕ)
        → IsNumbered n l
        → IsOpen l
        → elim (find (has_number n) l) as (λ _. Bool) [ none ↦ false | some a ↦ is_none a.result ]
          ≡ true
    current [] n h o = absurd o
    current (a ∷ l) n h o = ground arith
