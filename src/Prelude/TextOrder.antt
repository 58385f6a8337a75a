-- ===== src/Prelude/TextOrder.antt =====
-- The order of texts by code points.
use Prim.Native.Char.{Char, code}
use Prim.Native.String.{String}
use mathlib.Core.Path.{◌≡◌, refl, sym}
use mathlib.Core.Bool.{true, false}
use text.Mathlib.TextEquality.{Char-path}
use native.Mathlib.Omega.{arith}
use policy_project_managemen.Prelude.Text.{text_leb}

pub text_leb_total : (s t : String) → text_leb s t ≡ false → text_leb t s ≡ true
unfolding text_leb
text_leb_total String.[] t h = cc
text_leb_total (String.◌∷◌ c s) String.[] h = refl
text_leb_total (String.◌∷◌ c s) (String.◌∷◌ d t) h = ground (arith, h, text_leb_total s t)

pub text_leb_trans :
    (s t u : String) → text_leb s t ≡ true → text_leb t u ≡ true → text_leb s u ≡ true
unfolding text_leb
text_leb_trans String.[] t u h k = refl
text_leb_trans (String.◌∷◌ c s) String.[] u h k = cc
text_leb_trans (String.◌∷◌ c s) (String.◌∷◌ d t) String.[] h k = cc
text_leb_trans (String.◌∷◌ c s) (String.◌∷◌ d t) (String.◌∷◌ e u) h k =
    ground (arith, h, k, text_leb_trans s t u)

codes_of :
    (c d : Char) (s t : String)
    → text_leb (String.◌∷◌ c s) (String.◌∷◌ d t) ≡ true
    → text_leb (String.◌∷◌ d t) (String.◌∷◌ c s) ≡ true
    → code c ≡ code d
unfolding text_leb
codes_of c d s t h k = ground (arith, h, k)

rest_of :
    (c d : Char) (s t : String)
    → code c ≡ code d
    → text_leb (String.◌∷◌ c s) (String.◌∷◌ d t) ≡ true
    → text_leb s t ≡ true
unfolding text_leb
rest_of c d s t e h = ground (arith, e, h)

pub text_leb_antisym : (s t : String) → text_leb s t ≡ true → text_leb t s ≡ true → s ≡ t
unfolding text_leb
text_leb_antisym String.[] String.[] h k = refl
text_leb_antisym String.[] (String.◌∷◌ d t) h k = cc
text_leb_antisym (String.◌∷◌ c s) String.[] h k = cc
text_leb_antisym (String.◌∷◌ c s) (String.◌∷◌ d t) h k =
    let same = codes_of c d s t h k in
    let rest = text_leb_antisym s t (rest_of c d s t same h) (rest_of d c t s (sym same) k) in
    λ i. String.◌∷◌ (Char-path c d same i) (rest i)
