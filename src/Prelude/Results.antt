-- ===== src/Prelude/Results.antt =====
-- Results of code that raises: a value or an exception, and methods that also change a store.
use mathlib.Core.Path.{◌≡◌, refl, subst}
use mathlib.Core.Bool.{Bool, true, false}
use mathlib.Core.Option.{Option, none, some}

pub data Result {ℓ κ} (E : Type κ) (A : Type ℓ) : Type (ℓ ⊔ κ) where
  ok : A → Result E A
  err : E → Result E A

-- whether the call returned
abbrev pub succeeds {ℓ κ} : {E : Type κ} {A : Type ℓ} → Result E A → Bool
succeeds (ok _) = true
succeeds (err _) = false

infixl 5 ◌>>=◌ ◌>>◌
abbrev pub ◌>>=◌ {ℓ κ μ} :
    {E : Type κ} {A : Type ℓ} {B : Type μ} → Result E A → (A → Result E B) → Result E B
ok a >>= f = f a
err e >>= f = err e

abbrev pub ◌>>◌ {κ μ} : {E : Type κ} {B : Type μ} → Result E (Unit {0}) → Result E B → Result E B
m >> k = m >>= λ _. k

-- `if b: raise e`
abbrev pub raise_if {κ} : {E : Type κ} → Bool → E → Result E (Unit {0})
raise_if true e = err e
raise_if false e = ok tt

-- `if x is None: raise e`
abbrev pub or_raise {ℓ κ} : {E : Type κ} {A : Type ℓ} → Option A → E → Result E A
or_raise none e = err e
or_raise (some a) e = ok a

-- What holds of the answer of a call that returns.
abbrev pub Ensures {ℓ κ μ} : {E : Type κ} {A : Type ℓ} → (A → Type μ) → Result E A → Type μ
Ensures P (ok a) = P a
Ensures P (err e) = Unit

-- To follow a call through its steps.
pub Ensures-bind {ℓ κ μ ν} :
    {E : Type κ} {A : Type ℓ} {B : Type μ} (P : B → Type ν) (m : Result E A) (f : A → Result E B)
    → ((a : A) → m ≡ ok a → Ensures P (f a))
    → Ensures P (m >>= f)
Ensures-bind P (ok a) f h = h a refl
Ensures-bind P (err e) f h = tt

pub Ensures-map {ℓ κ μ ν} :
    {E : Type κ} {A : Type ℓ} (P : A → Type μ) (Q : A → Type ν) (m : Result E A)
    → ((a : A) → P a → Q a)
    → Ensures P m
    → Ensures Q m
Ensures-map P Q (ok a) f h = f a h
Ensures-map P Q (err e) f h = tt

-- What is ensured holds of the answer.
pub Ensures-ok {ℓ κ μ} :
    {E : Type κ} {A : Type ℓ} (P : A → Type μ) (m : Result E A) (a : A)
    → Ensures P m
    → m ≡ ok a
    → P a
Ensures-ok P m a h e = subst (Ensures P) e h

-- What holds of the exception of a call that raises.
abbrev pub Raises {ℓ κ μ} : {E : Type κ} {A : Type ℓ} → (E → Type μ) → Result E A → Type μ
Raises P (ok a) = Unit
Raises P (err e) = P e

pub Raises-bind {ℓ κ μ ν} :
    {E : Type κ} {A : Type ℓ} {B : Type μ} (P : E → Type ν) (m : Result E A) (f : A → Result E B)
    → Raises P m
    → ((a : A) → m ≡ ok a → Raises P (f a))
    → Raises P (m >>= f)
Raises-bind P (ok a) f h g = g a refl
Raises-bind P (err e) f h g = h

pub Raises-raise_if {κ μ} :
    {E : Type κ} (P : E → Type μ) (b : Bool) (e : E) → P e → Raises P (raise_if b e)
Raises-raise_if P true e h = h
Raises-raise_if P false e h = tt

pub Raises-or_raise {ℓ κ μ} :
    {E : Type κ} {A : Type ℓ} (P : E → Type μ) (o : Option A) (e : E)
    → P e
    → Raises P (or_raise o e)
Raises-or_raise P none e h = h
Raises-or_raise P (some a) e h = tt

-- What holds of the end of a call, of its answer or of its exception.
abbrev pub Ends {ℓ κ} :
    {E : Type κ} {A : Type ℓ} → (A → Type 0) → (E → Type 0) → Result E A → Type 0
Ends P Q (ok a) = P a
Ends P Q (err e) = Q e

pub Ends-bind {ℓ κ μ} :
    {E : Type κ} {A : Type ℓ} {B : Type μ} (P : B → Type 0) (Q : E → Type 0) (m : Result E A)
    (f : A → Result E B)
    → Raises Q m
    → ((a : A) → m ≡ ok a → Ends P Q (f a))
    → Ends P Q (m >>= f)
Ends-bind P Q (ok a) f h g = g a refl
Ends-bind P Q (err e) f h g = h
