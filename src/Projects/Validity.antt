-- ===== src/Projects/Validity.antt =====
-- When the tables of the project ledger are as they should be.
use policy_project_managemen.Prelude.{
  Result, ok, err, ◌>>=◌, ℕ, ◌+◌, ◌≤◌, ◌<◌, ◌≡◌, ◌≢◌, Bool, true, false, ◌&&◌, any, Option, none,
  some, List, [], ◌∷◌, All, Distinct, arith, In, All-save, All-In, Distinct-save, save, refl,
}
use policy_project_managemen.Projects.Status.{
  ProjectError, ProjectStatus, pending_application, submitted, succeeded, rejected, terminated,
  status_eq, status_in,
}
use policy_project_managemen.Projects.Workflow.{normal_transitions}
use policy_project_managemen.Projects.Rows.{
  Project, ProjectStatusHistory, HistoryAction, created, transitioned, corrected, Ledger,
  project_id, row_is_accepted,
}
use policy_project_managemen.Notifications.Service.Validity

-- The entry of a termination of a project with the status.
abbrev pub terminates : ProjectStatus → ProjectStatusHistory → Bool
terminates s h =
    status_eq h.new_status terminated
    && elim h.previous_status [ none ↦ false | some old ↦ status_eq old s ]

-- The change that a history entry records is one that the workflow makes. Of the earlier entries,
-- `past`, one has the termination that a correction takes back.
abbrev pub IsLegal :
    HistoryAction → Option ProjectStatus → ProjectStatus → List ProjectStatusHistory → Type 0
IsLegal created none new past = new ≡ pending_application
IsLegal transitioned (some old) new past = status_in new (normal_transitions old) ≡ true
IsLegal corrected (some succeeded) new past = status_in new (submitted ∷ rejected ∷ []) ≡ true
IsLegal corrected (some rejected) new past = status_in new (submitted ∷ succeeded ∷ []) ≡ true
IsLegal corrected (some terminated) new past = any (terminates new) past ≡ true
IsLegal _ _ _ _ = ⊥

abbrev pub IsEntry : ProjectStatusHistory → ProjectStatus → ℕ → List ProjectStatusHistory → Type 0
IsEntry h s v past =
    (h.new_status ≡ s)
    × (h.to_version ≡ h.from_version + 1)
    × (h.to_version ≤ v)
    × IsLegal h.action h.previous_status h.new_status past

-- The entries, the newest first, lead from the creation to the status `s`, each from the status
-- that the one before it left, with versions that rise up to at most `v`.
abbrev pub IsChain : ProjectStatus → ℕ → List ProjectStatusHistory → Type 0
IsChain s v [] = ⊥
IsChain s v (h ∷ []) = IsEntry h s v [] × (h.action ≡ created) × (h.from_version ≡ 0)
IsChain s v (h ∷ g ∷ rest) =
    IsEntry h s v (g ∷ rest)
    × (h.previous_status ≡ some g.new_status)
    × IsChain g.new_status h.from_version (g ∷ rest)

pub record IsSound (p : Project) : Type 0 where
  pub accepted : row_is_accepted p ≡ true
  pub chain : IsChain p.status p.version p.history

-- The unique constraints: the key, the policy and the idempotency key.
abbrev pub Apart : Project → Project → Type 0
Apart p q =
    (p.id ≢ q.id)
    × (p.policy_id ≢ q.policy_id)
    × (p.creation_idempotency_key ≢ q.creation_idempotency_key)

pub record IsValid (l : Ledger) : Type 0 where
  pub sound : All IsSound l.projects
  pub distinct : Distinct Apart l.projects
  pub numbered : All (λ p. p.id < l.next_project_id) l.projects
  pub outbox_valid : Validity.IsValid l.outbox

pub apart_id : (p q : Project) → Apart p q → p.id ≢ q.id
apart_id p q a = a.0

-- A later status entry extends the chain.
pub IsChain-cons :
    (h : ProjectStatusHistory) (s : ProjectStatus) (v : ℕ) (rest : List ProjectStatusHistory)
    → IsChain s v rest
    → h.previous_status ≡ some s
    → h.from_version ≡ v
    → IsEntry h h.new_status (v + 1) rest
    → IsChain h.new_status (v + 1) (h ∷ rest)
IsChain-cons h s v [] c p f e = absurd c
IsChain-cons h s v (g ∷ []) c p f e = ground arith
IsChain-cons h s v (g ∷ k ∷ rest) c p f e = ground arith

-- A chain stays one when the version of the row rises.
pub IsChain-mono :
    (s : ProjectStatus) (v w : ℕ) (l : List ProjectStatusHistory)
    → v ≤ w
    → IsChain s v l
    → IsChain s w l
IsChain-mono s v w [] le c = c
IsChain-mono s v w (h ∷ []) le c = ground arith
IsChain-mono s v w (h ∷ g ∷ rest) le c = ground arith

-- Writing back a changed project of the ledger.
module _ (l : Ledger) (v : IsValid l) (p p' : Project) (m : In p l.projects) (ei : p'.id ≡ p.id)
    (ep : p'.policy_id ≡ p.policy_id)
    (ek : p'.creation_idempotency_key ≡ p.creation_idempotency_key) (s : IsSound p') where
  pub save-IsSound : All IsSound (save project_id p' l.projects)
  save-IsSound = All-save project_id IsSound p' l.projects s v.sound

  pub save-Distinct : Distinct Apart (save project_id p' l.projects)
  save-Distinct =
      Distinct-save project_id Apart apart_id p' p ei (λ x a. ground arith) (λ x a. ground arith)
        l.projects m v.distinct

  pub save-numbered : All (λ q. q.id < l.next_project_id) (save project_id p' l.projects)
  save-numbered =
      All-save project_id (λ q. q.id < l.next_project_id) p' l.projects
        (rw ei (All-In (λ q. q.id < l.next_project_id) p l.projects v.numbered m)) v.numbered

-- What holds of the project and the tables that a method leaves when it returns.
abbrev pub After : (Project → Ledger → Type 0) → Result ProjectError (Project × Ledger) → Type 0
After P (ok (p, l)) = P p l
After P (err e) = Unit

abbrev pub ValidAfter : Result ProjectError (Project × Ledger) → Type 0
ValidAfter = After (λ p l. IsValid l)

-- To follow a method through its steps.
pub After-bind {ℓ} :
    {A : Type ℓ} (P : Project → Ledger → Type 0) (m : Result ProjectError A)
    (f : A → Result ProjectError (Project × Ledger))
    → ((a : A) → m ≡ ok a → After P (f a))
    → After P (m >>= f)
After-bind P (ok a) f h = h a refl
After-bind P (err e) f h = tt

pub After-map :
    (P Q : Project → Ledger → Type 0) (m : Result ProjectError (Project × Ledger))
    → ((p : Project) (l : Ledger) → P p l → Q p l)
    → After P m
    → After Q m
After-map P Q (ok (p, l)) f h = f p l h
After-map P Q (err e) f h = tt
