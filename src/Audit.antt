-- ===== src/Audit.antt =====
-- The audit trail (`AuditService.record` in backend/app/modules/audit/service.py) and the JSON
-- values that events and notifications carry.
use policy_project_managemen.Prelude.{
  ℕ, String, Bool, true, false, not, ◌&&◌, ◌||◌, Option, List, [], ◌∷◌, ◌++◌, ◌==◌,
}
use policy_project_managemen.Prelude.Text.{str_eq}

pub data Value : Type 0 where
  null : Value
  text : String → Value
  number : ℕ → Value
  flag : Bool → Value
  -- the ISO text of a day
  iso_date : ℕ → Value
  numbers : List ℕ → Value
  texts : List String → Value
  levels : List (String × String) → Value

abbrev pub list_eq : {A : Type 0} → (A → A → Bool) → List A → List A → Bool
list_eq eq [] [] = true
list_eq eq (x ∷ xs) (y ∷ ys) = eq x y && list_eq eq xs ys
list_eq eq _ _ = false

abbrev pair_eq : String × String → String × String → Bool
pair_eq (k, v) (l, w) = str_eq k l && str_eq v w

-- `==` of two values
unfoldable pub value_eq : Value → Value → Bool
value_eq null null = true
value_eq (text s) (text t) = str_eq s t
value_eq (number m) (number n) = m == n
value_eq (flag a) (flag b) = a && b || not a && not b
value_eq (iso_date m) (iso_date n) = m == n
value_eq (numbers ms) (numbers ns) = list_eq (λ m n. m == n) ms ns
value_eq (texts ss) (texts ts) = list_eq (λ s t. str_eq s t) ss ts
value_eq (levels ls) (levels ks) = list_eq pair_eq ls ks
value_eq _ _ = false

-- The document `changes`.
pub data Changes : Type 0 where
  no_changes : Changes
  fields : List (String × Value) → Changes
  before_after : List (String × Value) → List (String × Value) → Changes

pub record AuditEvent : Type 0 where
  pub action : String
  pub actor_id : Option ℕ
  pub object_type : String
  pub object_id : ℕ
  pub reason : Option String
  pub changes : Changes

-- `record`: the event is added to the table.
unfoldable pub record_event : AuditEvent → List AuditEvent → List AuditEvent
record_event event trail = trail ++ event ∷ []
