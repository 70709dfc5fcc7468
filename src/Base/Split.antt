-- ===== src/Base/Split.antt =====
-- A separator in a text: `c in s`, `s.split(c, 1)`, `s.split(c)`, `c.join(xs)` and their laws.
use Prim.Native.Nat.{ℕ}
use Prim.Native.Char.{Char, code}
use Prim.Native.String.{String, [], ◌∷◌}
use mathlib.Core.Path.{◌≡◌, refl, sym, ap, ◌∙◌}
use mathlib.Core.Bool.{Bool, true, false, ◌||◌}
use native.Mathlib.Omega.{arith}
use text.Mathlib.TextLemmas.{nil-append, cons-append, cons-eq-cons}
use iox2_jsonrpc.Base.Tests.{eqb}
use iox2_jsonrpc.Base.Text.{◌&◌}

-- The code of the last character, and of `d` if there is none.
unfoldable pub last_code : ℕ → String → ℕ
last_code d [] = d
last_code d (c ∷ s) = last_code (code c) s

pub last_code-append : (d : ℕ) (s t : String) → last_code d (s & t) ≡ last_code (last_code d s) t
unfolding last_code
last_code-append d [] t = rw nil-append
last_code-append d (c ∷ s) t = rw cons-append (last_code-append (code c) s t)

-- `c in s`, for a single character `c`.
unfoldable pub has_char : Char → String → Bool
has_char c [] = false
has_char c (d ∷ s) = eqb (code d) (code c) || has_char c s

pub eqb_refl : (n : ℕ) → eqb n n ≡ true
eqb_refl n = ground arith

-- The first separator splits a text in one way.
pub separator_inj :
    (c : Char) (s t x y : String)
    → has_char c s ≡ false
    → has_char c t ≡ false
    → s & (c ∷ x) ≡ t & (c ∷ y)
    → (s ≡ t) × (x ≡ y)
unfolding has_char
separator_inj c [] [] x y p q e =
    (refl, (cons-eq-cons.0 (sym (nil-append (c ∷ x)) ∙ e ∙ nil-append (c ∷ y))).1)
separator_inj c [] (d ∷ t) x y p q e =
    let heads = (cons-eq-cons.0 (sym (nil-append (c ∷ x)) ∙ e ∙ cons-append d t (c ∷ y))).0 in
    ground (arith, ap code heads)
separator_inj c (d ∷ s) [] x y p q e =
    let heads = (cons-eq-cons.0 (sym (cons-append d s (c ∷ x)) ∙ e ∙ nil-append (c ∷ y))).0 in
    ground (arith, ap code heads)
separator_inj c (d ∷ s) (b ∷ t) x y p q e =
    let parts = cons-eq-cons.0 (sym (cons-append d s (c ∷ x)) ∙ e ∙ cons-append b t (c ∷ y)) in
    let (es, ex) = separator_inj c s t x y (ground arith) (ground arith) parts.1 in
    (cc (parts.0, es), ex)

pub has_char-append :
    (c : Char) (s t : String) → has_char c (s & t) ≡ (has_char c s || has_char c t)
unfolding has_char
has_char-append c [] t = rw nil-append refl
has_char-append c (d ∷ s) t =
    ap (has_char c) (cons-append d s t) ∙ ground (arith, has_char-append c s t)
