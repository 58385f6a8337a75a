-- ===== src/Prelude/Tables.antt =====
-- Tables: lists of rows with a numeric primary key. A changed row is written back by its key.
use policy_project_managemen.Prelude.Tests.{◌==◌, ==-eq, Bool-cases, if◌then◌else◌}
use policy_project_managemen.Prelude.Lists.{
  find, find_holds, update, All, All-update, All-append, All-map, select, All-select, insert_by,
  sort_by, All-insert_by, All-sort_by,
}
use Prim.Native.Nat.{ℕ}
use mathlib.Core.Path.{◌≡◌, refl, sym, subst, ◌∙◌}
use mathlib.Core.Logic.{◌≢◌, ◌⊎◌, inl, inr}
use mathlib.Core.Bool.{Bool, true, false}
use mathlib.Core.Option.{Option, some}
use mathlib.Core.List.{List, [], ◌∷◌, ◌++◌}
use native.Mathlib.Omega.{arith}

module _ {ℓ} {A : Type ℓ} (row_id : A → ℕ) where
  abbrev pub has_id : ℕ → A → Bool
  has_id n a = row_id a == n

  -- `SELECT ... WHERE id = n`
  abbrev pub by_id : ℕ → List A → Option A
  by_id n = find (has_id n)

  -- `UPDATE ... WHERE id = a.id`, at the flush of the changed row `a`
  abbrev pub save : A → List A → List A
  save a = update (has_id (row_id a)) (λ _. a)

  pub by_id-save_self :
      (a b : A) (rows : List A)
      → by_id (row_id a) rows ≡ some b
      → by_id (row_id a) (save a rows) ≡ some a
  by_id-save_self a b [] h = cc
  by_id-save_self a b (x ∷ rows) h = ground (arith, by_id-save_self a b rows)

  pub by_id-save_ne :
      (n : ℕ) (a : A) (rows : List A) → n ≢ row_id a → by_id n (save a rows) ≡ by_id n rows
  by_id-save_ne n a [] h = refl
  by_id-save_ne n a (x ∷ rows) h = ground (arith, by_id-save_ne n a rows h)

  pub All-save {κ} :
      (P : A → Type κ) (a : A) (rows : List A) → P a → All P rows → All P (save a rows)
  All-save P a rows h hs = All-update P (has_id (row_id a)) (λ _. a) rows (λ _ _ _. h) hs

-- Membership, for rows that a query gives back.
module _ {A : Type 0} where
  abbrev pub In : A → List A → Type 0
  In a [] = ⊥
  In a (x ∷ rows) = (x ≡ a) ⊎ In a rows

  pub In-find : (p : A → Bool) (a : A) (rows : List A) → find p rows ≡ some a → In a rows
  In-find p a [] h = cc
  In-find p a (x ∷ rows) h = ground (arith, In-find p a rows)

  pub All-In {κ} : (P : A → Type κ) (a : A) (rows : List A) → All P rows → In a rows → P a
  All-In P a [] h m = absurd m
  All-In P a (x ∷ rows) h (inl e) = subst P e h.0
  All-In P a (x ∷ rows) h (inr m) = All-In P a rows h.1 m

  pub All-In_self : (rows : List A) → All (λ a. In a rows) rows
  All-In_self [] = tt
  All-In_self (x ∷ rows) = (
    inl refl,
    All-map (λ a. In a rows) (λ a. In a (x ∷ rows)) rows (λ a m. inr m) (All-In_self rows),
  )

  pub In-update :
      (p : A → Bool) (f : A → A) (a : A) (rows : List A)
      → p a ≡ false
      → In a rows
      → In a (update p f rows)
  In-update p f a [] h m = absurd m
  In-update p f a (x ∷ rows) h m = ground (arith, In-update p f a rows h)

  pub In-append : (a : A) (rows more : List A) → In a rows → In a (rows ++ more)
  In-append a [] more m = absurd m
  In-append a (x ∷ rows) more (inl e) = inl e
  In-append a (x ∷ rows) more (inr m) = inr (In-append a rows more m)

-- Rows that differ in their keys and in what else the unique constraints name.
module _ {A : Type 0} (Apart : A → A → Type 0) where
  abbrev pub Distinct : List A → Type 0
  Distinct [] = Unit
  Distinct (x ∷ rows) = All (Apart x) rows × Distinct rows

  pub Distinct-append_one :
      (rows : List A) (a : A)
      → Distinct rows
      → All (λ x. Apart x a) rows
      → Distinct (rows ++ a ∷ [])
  Distinct-append_one [] a h ha = (tt, tt)
  Distinct-append_one (x ∷ rows) a h ha =
      (All-append (Apart x) rows (a ∷ []) h.0 (ha.0, tt), Distinct-append_one rows a h.1 ha.1)

  All-select_sub :
      (P : A → Type 0) (p : A → Bool) (rows : List A) → All P rows → All P (select p rows)
  All-select_sub P p rows h =
      All-map (λ a. P a × (p a ≡ true)) P (select p rows) (λ a h. h.0) (All-select P p rows h)

  pub Distinct-select : (p : A → Bool) (rows : List A) → Distinct rows → Distinct (select p rows)
  Distinct-select p [] h = tt
  Distinct-select p (x ∷ rows) h =
      ground (arith, Distinct-select p rows h.1, All-select_sub (Apart x) p rows h.0)

  -- The rows that pass are replaced by rows that are apart from what they were apart from.
  pub Distinct-update :
      (p : A → Bool) (f : A → A)
      → ((x y : A) → Apart x y → Apart (f x) y)
      → ((x y : A) → Apart x y → Apart x (f y))
      → (rows : List A) → Distinct rows
      → Distinct (update p f rows)
  Distinct-update p f left right [] h = tt
  Distinct-update p f left right (x ∷ rows) h =
      (heads (Bool-cases (p x)), Distinct-update p f left right rows h.1)
    where
      tails : All (Apart x) (update p f rows)
      tails = All-update (Apart x) p f rows (λ a hx _. right x a hx) h.0

      heads : (p x ≡ true) ⊎ (p x ≡ false) → All (Apart (if p x then f x else x)) (update p f rows)
      heads (inl e) = rw e (All-map (Apart x) (Apart (f x)) (update p f rows) (left x) tails)
      heads (inr e) = rw e tails

  module _ (symmetric : (x y : A) → Apart x y → Apart y x) (le : A → A → Bool) where
    Distinct-insert_by :
        (x : A) (rows : List A)
        → All (Apart x) rows
        → Distinct rows
        → Distinct (insert_by le x rows)
    Distinct-insert_by x [] hx h = (tt, tt)
    Distinct-insert_by x (y ∷ rows) hx h = ground (
      arith,
      All-insert_by (Apart y) le x rows (symmetric x y hx.0) h.0,
      Distinct-insert_by x rows hx.1 h.1,
    )

    pub Distinct-sort_by : (rows : List A) → Distinct rows → Distinct (sort_by le rows)
    Distinct-sort_by [] h = tt
    Distinct-sort_by (x ∷ rows) h =
        Distinct-insert_by x (sort_by le rows) (All-sort_by (Apart x) le rows h.0)
          (Distinct-sort_by rows h.1)

module _ {A : Type 0} (row_id : A → ℕ) (Apart : A → A → Type 0)
    (apart_id : (x y : A) → Apart x y → row_id x ≢ row_id y) where
  pub save-Apart :
      (x a : A) (rows : List A)
      → row_id x ≡ row_id a
      → All (Apart x) rows
      → save row_id a rows ≡ rows
  save-Apart x a [] e h = refl
  save-Apart x a (y ∷ rows) e h = ground (arith, apart_id x y h.0, save-Apart x a rows e h.1)

  -- The row `b` is replaced by `a`, which is apart from the rows that `b` is apart from.
  module _ (a b : A) (e : row_id a ≡ row_id b) (before : (x : A) → Apart x b → Apart x a)
      (after : (x : A) → Apart b x → Apart a x) where
    Distinct-save_here :
        (rows : List A) → Distinct Apart (b ∷ rows) → Distinct Apart (save row_id a (b ∷ rows))
    Distinct-save_here rows h =
        rw (same_id, save-Apart b a rows (sym e) h.0)
          (All-map (Apart b) (Apart a) rows after h.0, h.1)
      where
        same_id : row_id b == row_id a ≡ true
        same_id = ground arith

    Distinct-save_there :
        (x : A) (rows : List A)
        → Apart x b
        → All (Apart x) rows
        → Distinct Apart (save row_id a rows)
        → Distinct Apart (save row_id a (x ∷ rows))
    Distinct-save_there x rows xb h rest =
        rw other_id (All-save row_id (Apart x) a rows (before x xb) h, rest)
      where
        other_id : row_id x == row_id a ≡ false
        other_id = ground (arith, apart_id x b xb)

    pub Distinct-save :
        (rows : List A) → In b rows → Distinct Apart rows → Distinct Apart (save row_id a rows)
    Distinct-save [] m h = absurd m
    Distinct-save (x ∷ rows) (inl first) h =
        subst (λ r. Distinct Apart (save row_id a (r ∷ rows))) (sym first)
          (Distinct-save_here rows (subst (λ r. Distinct Apart (r ∷ rows)) first h))
    Distinct-save (x ∷ rows) (inr m) h =
        Distinct-save_there x rows (All-In (Apart x) b rows h.0 m) h.0 (Distinct-save rows m h.1)

module _ {A : Type 0} (row_id : A → ℕ) where
  pub In-save_ne :
      (a b : A) (rows : List A) → row_id b ≢ row_id a → In b rows → In b (save row_id a rows)
  In-save_ne a b [] h m = absurd m
  In-save_ne a b (x ∷ rows) h m = ground (arith, In-save_ne a b rows h)

  -- Where the keys differ, a row of the table is the one that its key selects.
  pub by_id-In :
      (Apart : A → A → Type 0) (apart_id : (x y : A) → Apart x y → row_id x ≢ row_id y) (a : A)
      (rows : List A)
      → Distinct Apart rows
      → In a rows
      → by_id row_id (row_id a) rows ≡ some a
  by_id-In Apart apart_id a [] h m = absurd m
  by_id-In Apart apart_id a (x ∷ rows) h (inl e) = ground arith
  by_id-In Apart apart_id a (x ∷ rows) h (inr m) =
      ground
        (arith, by_id-In Apart apart_id a rows h.1 m, apart_id x a (All-In (Apart x) a rows h.0 m))

  -- Two rows of the table with one key are one row.
  pub In-same_id :
      (Apart : A → A → Type 0) (apart_id : (x y : A) → Apart x y → row_id x ≢ row_id y) (a b : A)
      (rows : List A)
      → Distinct Apart rows
      → In a rows
      → In b rows
      → row_id a ≡ row_id b
      → a ≡ b
  In-same_id Apart apart_id a b rows h ma mb e =
      cc (by_id-In Apart apart_id a rows h ma, by_id-In Apart apart_id b rows h mb)

  -- What a query by the key finds after the write.
  pub by_id-save :
      (n : ℕ) (a b : A) (rows : List A)
      → by_id row_id (row_id a) rows ≡ some b
      → by_id row_id n (save row_id a rows)
        ≡ (if n == row_id a then some a else by_id row_id n rows)
  by_id-save n a b rows h = elim (Bool-cases (n == row_id a)) [
    | inl e ↦ rw e (
        subst (λ k. by_id row_id k (save row_id a rows) ≡ some a) (sym (==-eq n (row_id a) e))
          (by_id-save_self row_id a b rows h))
    | inr e ↦ rw e (by_id-save_ne row_id n a rows (λ q. ground (arith, q)))
  ]

  -- The row that was found is written back changed.
  pub by_id-save_found :
      (n : ℕ) (a b : A) (rows : List A)
      → by_id row_id n rows ≡ some b
      → row_id a ≡ row_id b
      → by_id row_id n (save row_id a rows) ≡ some a
  by_id-save_found n a b rows h e =
      let same = e ∙ ==-eq (row_id b) n (find_holds (has_id row_id n) b rows h) in
      subst (λ k. by_id row_id k (save row_id a rows) ≡ some a) same
        (by_id-save_self row_id a b rows (subst (λ k. by_id row_id k rows ≡ some b) (sym same) h))
