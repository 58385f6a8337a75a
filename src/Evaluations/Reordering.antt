-- ===== src/Evaluations/Reordering.antt =====
-- The order of the entities in a confirmation: `_normalize_confirmation_values` sorts them.
use policy_project_managemen.Prelude.{
  ◌≡◌, ◌≢◌, ◌∙◌, refl, sym, ap, ap2, subst, true, false, List, [], ◌∷◌, All, Distinct, insert_by,
  sort_by, Bool-cases, inl, inr,
}
use mathlib.Core.List.{Permᴰ}
use policy_project_managemen.Prelude.TextOrder.{text_leb_total, text_leb_trans, text_leb_antisym}
use policy_project_managemen.Evaluations.Rows.{EntityEvaluationResult, EvaluationConfirmationInput}
use policy_project_managemen.Evaluations.Rows.{EvaluationConfirmation, EvaluationBook}
use policy_project_managemen.Evaluations.Decisions.{confirm_again}
use policy_project_managemen.Evaluations.Values.{code_leb, normalized}

-- Not of one code.
abbrev pub CodesApart : EntityEvaluationResult → EntityEvaluationResult → Type 0
CodesApart a b = a.entity_seed_code ≢ b.entity_seed_code

before_swap :
    (x y : EntityEvaluationResult) (l : List EntityEvaluationResult)
    → code_leb x y ≡ true
    → code_leb y x ≡ false
    → insert_by code_leb x (insert_by code_leb y l) ≡ insert_by code_leb y (insert_by code_leb x l)
before_swap x y [] h k = rw (h, k) refl
before_swap x y (z ∷ l) h k = elim (Bool-cases (code_leb y z)) [
  | inl e ↦
      rw (e, h, text_leb_trans x.entity_seed_code y.entity_seed_code z.entity_seed_code h e, k, e)
        refl
  | inr e ↦ elim (Bool-cases (code_leb x z)) [
    | inl f ↦ rw (e, f, k, e) refl
    | inr f ↦ rw (e, f, e) (ap (λ r. z ∷ r) (before_swap x y l h k))
  ]
]

insert_swap :
    (x y : EntityEvaluationResult) (l : List EntityEvaluationResult)
    → CodesApart x y
    → insert_by code_leb x (insert_by code_leb y l) ≡ insert_by code_leb y (insert_by code_leb x l)
insert_swap x y l a = elim (Bool-cases (code_leb x y)) [
  | inr e ↦ sym (before_swap y x l (text_leb_total x.entity_seed_code y.entity_seed_code e) e)
  | inl e ↦ elim (Bool-cases (code_leb y x)) [
    | inr f ↦ before_swap x y l e f
    | inl f ↦ absurd (a (text_leb_antisym x.entity_seed_code y.entity_seed_code e f))
  ]
]

All-Permᴰ : {A : Type 0} (P : A → Type 0) {xs ys : List A} → Permᴰ xs ys → All P xs → All P ys
All-Permᴰ P Permᴰ.nil h = tt
All-Permᴰ P (Permᴰ.cons e d) h = (subst P e h.0, All-Permᴰ P d h.1)
All-Permᴰ P (Permᴰ.swap e e') h = (subst P e' h.1.0, (subst P e h.0, h.1.1))
All-Permᴰ P (Permᴰ.trans d d') h = All-Permᴰ P d' (All-Permᴰ P d h)

Distinct-Permᴰ :
    {xs ys : List EntityEvaluationResult}
    → Permᴰ xs ys
    → Distinct CodesApart xs
    → Distinct CodesApart ys
Distinct-Permᴰ Permᴰ.nil h = tt
Distinct-Permᴰ (Permᴰ.cons {a = a} {l₂ = l} e d) h =
    (subst (λ a. All (CodesApart a) l) e (All-Permᴰ (CodesApart a) d h.0), Distinct-Permᴰ d h.1)
Distinct-Permᴰ (Permᴰ.swap {a = a} {b = b} {l = l} e e') h = (
  (
    λ q. h.0.0 (
        ap (λ (x : EntityEvaluationResult). x.entity_seed_code) e
        ∙ sym q
        ∙ sym (ap (λ (x : EntityEvaluationResult). x.entity_seed_code) e')),
    subst (λ a. All (CodesApart a) l) e' h.1.0,
  ),
  (subst (λ a. All (CodesApart a) l) e h.0.1, h.1.1),
)
Distinct-Permᴰ (Permᴰ.trans d d') h = Distinct-Permᴰ d' (Distinct-Permᴰ d h)

sorted_entities :
    {xs ys : List EntityEvaluationResult}
    → Permᴰ xs ys
    → Distinct CodesApart xs
    → sort_by code_leb xs ≡ sort_by code_leb ys
sorted_entities Permᴰ.nil h = refl
sorted_entities (Permᴰ.cons e d) h = ap2 (insert_by code_leb) e (sorted_entities d h.1)
sorted_entities (Permᴰ.swap {a = a} {b = b} {l = l} e e') h =
    insert_swap a b (sort_by code_leb l) h.0.0
    ∙ ap2 (λ p q. insert_by code_leb p (insert_by code_leb q (sort_by code_leb l))) e' e
sorted_entities (Permᴰ.trans d d') h = sorted_entities d h ∙ sorted_entities d' (Distinct-Permᴰ d h)

-- One confirmation: the entities in any order, and any reason.
pub record SameConfirmation (a b : EvaluationConfirmationInput) : Type 0 where
  pub conclusion : a.values.conclusion ≡ b.values.conclusion
  pub summary : a.values.summary ≡ b.values.summary
  pub key_conditions : a.values.key_conditions ≡ b.values.key_conditions
  pub entities : Permᴰ a.values.entities b.values.entities
  pub distinct : Distinct CodesApart a.values.entities
  pub primary_entity_seed_code : a.primary_entity_seed_code ≡ b.primary_entity_seed_code

pub normalized-SameConfirmation :
    (a b : EvaluationConfirmationInput)
    → SameConfirmation a b
    → normalized a.values ≡ normalized b.values
unfolding normalized
normalized-SameConfirmation a b s =
    rw (s.conclusion, s.summary, s.key_conditions, sorted_entities s.entities s.distinct) refl

-- Where a confirmation is there, the answer to both is one.
pub confirm_again-SameConfirmation :
    (c : EvaluationConfirmation) (payload repeated : EvaluationConfirmationInput)
    (book : EvaluationBook)
    → SameConfirmation payload repeated
    → confirm_again c repeated book ≡ confirm_again c payload book
unfolding confirm_again
confirm_again-SameConfirmation c payload repeated book s =
    rw (normalized-SameConfirmation payload repeated s, s.primary_entity_seed_code) refl
