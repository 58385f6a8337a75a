-- ===== src/Projects/Conversion/Unordered.antt =====
-- The order of the members in a request: `_creation_fingerprint` sorts them.
use policy_project_managemen.Prelude.{
  ℕ, ◌≡◌, ◌∙◌, refl, sym, ap2, subst, false, List, [], ◌∷◌, insert_by, sort_by, leb, ltb, ◌<◌,
  Bool-cases, inl, inr, arith,
}
use mathlib.Core.List.{Permᴰ}
use policy_project_managemen.Projects.Rows.{Policy}
use policy_project_managemen.Projects.Conversion.{ProjectCreateInput, creation_request}

less_first :
    (x y : ℕ) (l : List ℕ)
    → x < y
    → insert_by leb x (insert_by leb y l) ≡ insert_by leb y (insert_by leb x l)
less_first x y [] h = ground (arith, h)
less_first x y (z ∷ l) h = ground (arith, h, less_first x y l h)

pub insert_swap :
    (x y : ℕ) (l : List ℕ)
    → insert_by leb x (insert_by leb y l) ≡ insert_by leb y (insert_by leb x l)
insert_swap x y l = elim (Bool-cases (ltb x y)) [
  | inl e ↦ less_first x y l (ground (arith, e))
  | inr e ↦ elim (Bool-cases (ltb y x)) [
    | inl f ↦ sym (less_first y x l (ground (arith, f)))
    | inr f ↦
        subst (λ k. insert_by leb x (insert_by leb k l) ≡ insert_by leb k (insert_by leb x l))
          (equal_numbers x y e f) refl
  ]
]
  where
    equal_numbers : (x y : ℕ) → ltb x y ≡ false → ltb y x ≡ false → x ≡ y
    equal_numbers x y e f = ground (arith, e, f)

pub sorted_members : {xs ys : List ℕ} → Permᴰ xs ys → sort_by leb xs ≡ sort_by leb ys
sorted_members Permᴰ.nil = refl
sorted_members (Permᴰ.cons {b = b} e d) = ap2 (insert_by leb) e (sorted_members d)
sorted_members (Permᴰ.swap {a = a} {b = b} {l = l} e e') =
    insert_swap a b (sort_by leb l)
    ∙ ap2 (λ p q. insert_by leb p (insert_by leb q (sort_by leb l))) e' e
sorted_members (Permᴰ.trans d d') = sorted_members d ∙ sorted_members d'

-- One request: the members in any order.
pub record SameRequest (a b : ProjectCreateInput) : Type 0 where
  pub name : a.name ≡ b.name
  pub liaison_user_id : a.liaison_user_id ≡ b.liaison_user_id
  pub deadline_on : a.deadline_on ≡ b.deadline_on
  pub member_user_ids : Permᴰ a.member_user_ids b.member_user_ids

-- The document behind the fingerprint is that of the same request.
pub creation_request-SameRequest :
    (policy : Policy) (a b : ProjectCreateInput)
    → SameRequest a b
    → creation_request policy a ≡ creation_request policy b
unfolding creation_request
creation_request-SameRequest policy a b s =
    rw (s.name, s.liaison_user_id, s.deadline_on, sorted_members s.member_user_ids) refl
