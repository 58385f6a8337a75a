-- ===== src/Notifications/Service/Claims.antt =====
-- What a claim is worth: who gets one, and whom it keeps out.
use policy_project_managemen.Prelude.{
  not, ◌||◌, if◌then◌else◌, ℕ, ◌≡◌, ◌≢◌, ◌↔◌, refl, sym, ◌∙◌, String, Bool, true, false, Option,
  none, some, List, [], ◌∷◌, ok, arith, All, All-map, In, In-find, In-same_id, find, by_id,
  by_id-save_self, by_id-In, Option-cases, Bool-cases, inl, inr, find_holds, subst, ap,
}
use policy_project_managemen.Prelude.Text.{eq_iff}
use policy_project_managemen.Notifications.Delivery.{
  sending, NotificationDelivery, DeliveryResult, is_succeeded, claim,
}
use policy_project_managemen.Notifications.Service.{
  Outbox, delivery_id, is_claimable, first_of_order, precedes, choose, claim_next,
  is_matching_claim, has_token, write_result, complete_claimed, fail_claimed,
}
use policy_project_managemen.Notifications.Service.Validity.{
  Apart, IsValid, apart_id, first_of_order-In, claim_next-IsValid,
}
use policy_project_managemen.Notifications.Service.Claimable.{CanBeClaimed, refused, unclaimable}

first_of_order-none :
    (p : NotificationDelivery → Bool) (rows : List NotificationDelivery)
    → first_of_order p rows ≡ none
    → All (λ d. p d ≡ false) rows
unfolding first_of_order
first_of_order-none p [] h = tt
first_of_order-none p (x ∷ rows) h = ground (arith, first_of_order-none p rows)

none-first_of_order :
    (p : NotificationDelivery → Bool) (rows : List NotificationDelivery)
    → All (λ d. p d ≡ false) rows
    → first_of_order p rows ≡ none
unfolding first_of_order
none-first_of_order p [] h = refl
none-first_of_order p (x ∷ rows) h = ground (arith, none-first_of_order p rows h.1)

no_claim :
    (locked : ℕ → Bool) (now : ℕ) (token : String) (o : Outbox)
    → (claim_next locked now token o).0 ≡ none
    → first_of_order (is_claimable locked now) o.deliveries ≡ none
unfolding claim_next
no_claim locked now token o h = ground arith

-- A worker goes away with nothing exactly when no delivery is there that no other worker has locked,
-- that was never sent, and that is new or waits for a retry that is due.
pub claim_next-none_iff :
    (locked : ℕ → Bool) (now : ℕ) (token : String) (o : Outbox)
    → ((claim_next locked now token o).0 ≡ none)
      ↔ All (λ d. ¬ CanBeClaimed locked now d) o.deliveries
unfolding claim_next
claim_next-none_iff locked now token o = (
  λ h.
      All-map (λ d. is_claimable locked now d ≡ false) (λ d. ¬ CanBeClaimed locked now d)
        o.deliveries (refused locked now)
        (first_of_order-none (is_claimable locked now) o.deliveries
          (no_claim locked now token o h)),
  λ h. rw (
    none-first_of_order (is_claimable locked now) o.deliveries (
        All-map (λ d. ¬ CanBeClaimed locked now d) (λ d. is_claimable locked now d ≡ false)
          o.deliveries (unclaimable locked now) h),
    claim_next,
  ),
)

precedes_total : (d e : NotificationDelivery) → precedes d e ≡ false → precedes e d ≡ true
unfolding precedes
precedes_total d e h = ground arith

precedes_trans :
    (d e f : NotificationDelivery) → precedes d e ≡ true → precedes e f ≡ true → precedes d f ≡ true
unfolding precedes
precedes_trans d e f h k = ground arith

precedes_refl : (d : NotificationDelivery) → precedes d d ≡ true
unfolding precedes
precedes_refl d = ground arith

or_true : (a b : Bool) → b ≡ true → not a || b ≡ true
or_true a b h = ground arith

-- The row is before every row that passes.
abbrev pub IsFirst :
    (NotificationDelivery → Bool) → List NotificationDelivery → NotificationDelivery → Type 0
IsFirst p rows d = All (λ e. not (p e) || precedes d e ≡ true) rows

IsFirst-trans :
    (p : NotificationDelivery → Bool) (rows : List NotificationDelivery)
    (d e : NotificationDelivery)
    → precedes d e ≡ true
    → IsFirst p rows e
    → IsFirst p rows d
IsFirst-trans p rows d e h =
    All-map (λ f. not (p f) || precedes e f ≡ true) (λ f. not (p f) || precedes d f ≡ true) rows
      (λ f k. ground (arith, precedes_trans d e f h))

IsFirst-none :
    (p : NotificationDelivery → Bool) (rows : List NotificationDelivery) (d : NotificationDelivery)
    → All (λ e. p e ≡ false) rows
    → IsFirst p rows d
IsFirst-none p rows d =
    All-map (λ e. p e ≡ false) (λ e. not (p e) || precedes d e ≡ true) rows (λ e h. ground arith)

-- What is known of the result of the query over the rows.
abbrev Found :
    (NotificationDelivery → Bool) → List NotificationDelivery → Option NotificationDelivery → Type 0
Found p rows none = All (λ e. p e ≡ false) rows
Found p rows (some e) = IsFirst p rows e

choose_new : (x e : NotificationDelivery) → precedes x e ≡ true → choose x (some e) ≡ x
unfolding choose
choose_new x e h = rw h

choose_old : (x e : NotificationDelivery) → precedes x e ≡ false → choose x (some e) ≡ e
unfolding choose
choose_old x e h = rw h

choose-IsFirst :
    (p : NotificationDelivery → Bool) (x : NotificationDelivery) (rows : List NotificationDelivery)
    (rest : Option NotificationDelivery)
    → Found p rows rest
    → IsFirst p (x ∷ rows) (choose x rest)
unfolding choose
choose-IsFirst p x rows none h = (or_true (p x) _ (precedes_refl x), IsFirst-none p rows x h)
choose-IsFirst p x rows (some e) h = elim (Bool-cases (precedes x e)) [
  | inl before ↦
      subst (IsFirst p (x ∷ rows)) (sym (choose_new x e before))
        (or_true (p x) _ (precedes_refl x), IsFirst-trans p rows x e before h)
  | inr after ↦
      subst (IsFirst p (x ∷ rows)) (sym (choose_old x e after))
        (or_true (p x) _ (precedes_total x e after), h)
]

first_of_order-Found :
    (p : NotificationDelivery → Bool) (rows : List NotificationDelivery)
    → Found p rows (first_of_order p rows)
unfolding first_of_order
first_of_order-Found p [] = tt
first_of_order-Found p (x ∷ rows) = elim (Bool-cases (p x)) [
  | inl hit ↦ rw hit (choose-IsFirst p x rows (first_of_order p rows) (first_of_order-Found p rows))
  | inr miss ↦ rw miss (skip (first_of_order p rows) (first_of_order-Found p rows) miss)
]
  where
    skip :
        (rest : Option NotificationDelivery)
        → Found p rows rest
        → p x ≡ false
        → Found p (x ∷ rows) rest
    skip none h miss = (miss, h)
    skip (some e) h miss = (rw miss, h)

-- The claimed row `c` is what the claim makes of a row `d` of the table that can be claimed and
-- that is before every other that can.
abbrev pub IsClaimOf :
    (ℕ → Bool) → ℕ → String → Outbox → NotificationDelivery → NotificationDelivery → Type 0
IsClaimOf locked now token o c d =
    (c ≡ claim now token d)
    × In d o.deliveries
    × (is_claimable locked now d ≡ true)
    × IsFirst (is_claimable locked now) o.deliveries d

claim_next_chosen :
    (locked : ℕ → Bool) (now : ℕ) (token : String) (o : Outbox) (c d : NotificationDelivery)
    → (claim_next locked now token o).0 ≡ some c
    → first_of_order (is_claimable locked now) o.deliveries ≡ some d
    → c ≡ claim now token d
unfolding claim_next
claim_next_chosen locked now token o c d h e = ground arith

-- A delivery that is handed out is what the claim makes of the first claimable one in the order
-- of the query.
claim_next_takes_first :
    (locked : ℕ → Bool) (now : ℕ) (token : String) (o : Outbox) (c : NotificationDelivery)
    → (claim_next locked now token o).0 ≡ some c
    → (d : NotificationDelivery) × IsClaimOf locked now token o c d
unfolding claim_next
claim_next_takes_first locked now token o c h =
    elim (Option-cases (first_of_order (is_claimable locked now) o.deliveries)) [
      | inl e ↦ absurd (ground arith)
      | inr (d, e) ↦
          let (m, can) = first_of_order-In (is_claimable locked now) d o.deliveries e in
          (
            d,
            (
              claim_next_chosen locked now token o c d h e,
              m,
              can,
              subst (Found (is_claimable locked now) o.deliveries) e
                  (first_of_order-Found (is_claimable locked now) o.deliveries),
            ),
          )
    ]

-- A row that is being sent cannot be claimed.
sending_not_claimable :
    (locked : ℕ → Bool) (now : ℕ) (d : NotificationDelivery)
    → d.status ≡ sending
    → is_claimable locked now d ≡ false
unfolding is_claimable
sending_not_claimable locked now d h = ground arith

-- After a claim the row with its id is the claimed row, which is being sent.
pub claimed_row :
    (locked : ℕ → Bool) (now : ℕ) (token : String) (o : Outbox) (c : NotificationDelivery)
    → IsValid o
    → (claim_next locked now token o).0 ≡ some c
    → (by_id delivery_id c.id (claim_next locked now token o).1.deliveries ≡ some c)
      × (c.status ≡ sending)
      × (c.claim_token ≡ some token)
unfolding claim_next claim
claimed_row locked now token o c v h =
    elim (Option-cases (first_of_order (is_claimable locked now) o.deliveries)) [
      | inl e ↦ absurd (ground arith)
      | inr (d, e) ↦
          let (m, can) = first_of_order-In (is_claimable locked now) d o.deliveries e in
          ground (
            arith,
            by_id-save_self delivery_id (claim now token d) d o.deliveries
                (by_id-In delivery_id Apart apart_id d o.deliveries v.distinct m),
          )
    ]

claim-id : (now : ℕ) (token : String) (d : NotificationDelivery) → (claim now token d).id ≡ d.id
unfolding claim
claim-id now token d = refl

-- Until a claim ends, no worker is handed the same delivery: not at another time, and not with
-- other rows locked.
pub claim_exclusive :
    (locked locked' : ℕ → Bool) (now later : ℕ) (token token' : String) (o : Outbox)
    (c c' : NotificationDelivery)
    → IsValid o
    → (claim_next locked now token o).0 ≡ some c
    → (claim_next locked' later token' (claim_next locked now token o).1).0 ≡ some c'
    → c'.id ≢ c.id
claim_exclusive locked locked' now later token token' o c c' v h h' same =
    let o' : Outbox = (claim_next locked now token o).1 in
    let (d, (made, m, can, _)) = claim_next_takes_first locked' later token' o' c' h' in
    let (row, is_sending, _) = claimed_row locked now token o c v h in
    let found =
      by_id-In delivery_id Apart apart_id d o'.deliveries
        (claim_next-IsValid locked now token o v).distinct m in
    let d_id : d.id ≡ c.id = sym (claim-id later token' d) ∙ sym (ap delivery_id made) ∙ same in
    let d_is_c : d ≡ c = cc (found, row, d_id) in
    cc (can, sending_not_claimable locked' later d (ap (λ x. x.status) d_is_c ∙ is_sending))

pub has_token-eq : (t : Option String) (token : String) → has_token t token ≡ true → t ≡ some token
has_token-eq none token h = cc
has_token-eq (some t) token h = ap some ((eq_iff t token).0 h)

pub matching_parts :
    (n : ℕ) (token : String) (d : NotificationDelivery)
    → is_matching_claim n token d ≡ true
    → (d.id ≡ n) × (has_token d.claim_token token ≡ true)
matching_parts n token d h = ground arith

no_match :
    (token : String) (o : Outbox) (d : NotificationDelivery)
    → IsValid o
    → In d o.deliveries
    → d.claim_token ≢ some token
    → find (is_matching_claim d.id token) o.deliveries ≡ none
no_match token o d v m other =
    elim (Option-cases (find (is_matching_claim d.id token) o.deliveries)) [
      | inl e ↦ e
      | inr (x, e) ↦
          let p : NotificationDelivery → Bool = is_matching_claim d.id token in
          let (xid, held) = matching_parts d.id token x (find_holds p x o.deliveries e) in
          let same : x ≡ d =
            In-same_id delivery_id Apart apart_id x d o.deliveries v.distinct
              (In-find p x o.deliveries e) m xid in
          absurd
            (other (sym (ap (λ y. y.claim_token) same) ∙ has_token-eq x.claim_token token held))
    ]

-- A report under a token that the delivery does not hold any more, of a success or of a failure,
-- returns False and changes nothing.
pub late_report_ignored :
    (token : String) (now : ℕ) (r : DeliveryResult) (o : Outbox) (d : NotificationDelivery)
    → IsValid o
    → In d o.deliveries
    → d.claim_token ≢ some token
    → (if is_succeeded r.outcome
        then complete_claimed d.id token r now o
        else fail_claimed d.id token r now o)
      ≡ (ok false, o)
unfolding complete_claimed fail_claimed
late_report_ignored token now r o d v m other =
    let e = no_match token o d v m other in
    elim (Bool-cases (is_succeeded r.outcome)) [
      | inl good ↦ rw (good, e, write_result)
      | inr bad ↦ rw (bad, e, write_result)
    ]
