-- ===== src/Base/Text.antt =====
-- Python's `str`: the native `String`, with the methods that the program calls.
use Prim.Native.Char.{code}
use Prim.Native.String
use Prim.Native.String.{String, [], ◌∷◌}
use mathlib.Core.Path.{◌≡◌, refl, sym, ap, ◌∙◌}
use mathlib.Core.Logic.{inl, inr}
use mathlib.Core.Bool.{Bool, true, false, ◌&&◌}
use native.Mathlib.Omega.{arith}
use text.Mathlib.Text.{◌==◌}
use text.Mathlib.TextEquality.{eq_iff, Char-path}
use text.Mathlib.TextLemmas.{nil-append, cons-append, append_cancel_left}
use iox2_jsonrpc.Base.Tests.{eqb, if◌then◌else◌, Bool-cases, Bool-ext}

-- The parts of an f-string are joined by `&`.
infixr 60 ◌&◌
abbrev pub ◌&◌ : String → String → String
s & t = String.◌++◌ s t

-- `s.startswith(p)`
unfoldable pub startswith : String → String → Bool
startswith s [] = true
startswith [] (c ∷ p) = false
startswith (d ∷ s) (c ∷ p) = eqb (code d) (code c) && startswith s p

after_prefix : String → String → String
after_prefix s [] = s
after_prefix [] (c ∷ p) = []
after_prefix (d ∷ s) (c ∷ p) = after_prefix s p

-- `s.removeprefix(p)`
unfoldable pub removeprefix : String → String → String
unfolding startswith after_prefix
removeprefix s p = if startswith s p then after_prefix s p else s

startswith-append : (p s : String) → startswith (p & s) p ≡ true
unfolding startswith
startswith-append [] s = refl
startswith-append (c ∷ p) s = rw cons-append (ground (arith, startswith-append p s))

after_prefix-append : (p s : String) → after_prefix (p & s) p ≡ s
unfolding after_prefix
after_prefix-append [] s = nil-append s
after_prefix-append (c ∷ p) s = rw cons-append (after_prefix-append p s)

append-after_prefix : (s p : String) → startswith s p ≡ true → p & after_prefix s p ≡ s
unfolding startswith after_prefix
append-after_prefix s [] h = nil-append s
append-after_prefix [] (c ∷ p) h = cc
append-after_prefix (d ∷ s) (c ∷ p) h = cc (
  cons-append c p (after_prefix s p),
  append-after_prefix s p (ground arith),
  Char-path d c (ground arith),
)

pub removeprefix-append : (p s : String) → removeprefix (p & s) p ≡ s
unfolding removeprefix
removeprefix-append p s = rw (startswith-append p s) (after_prefix-append p s)

-- A text that starts with `p` is `p` and what `removeprefix` leaves.
pub append-removeprefix : (s p : String) → startswith s p ≡ true → p & removeprefix s p ≡ s
unfolding removeprefix
append-removeprefix s p h = rw h (append-after_prefix s p h)

pub append_cancel-== : (p n r : String) → (p & n == p & r) ≡ (n == r)
append_cancel-== p n r =
    Bool-ext _ _ (λ h. (eq_iff n r).1 (append_cancel_left p n r ((eq_iff _ _).0 h)))
      (λ h. (eq_iff _ _).1 (ap (λ t. p & t) ((eq_iff n r).0 h)))

-- Comparing `p + n` with `m` is testing the prefix and comparing the rest.
pub append-== : (p n m : String) → (p & n == m) ≡ (startswith m p && (n == removeprefix m p))
append-== p n m = elim (Bool-cases (startswith m p)) [
  | inl h ↦
      ap (λ t. p & n == t) (sym (append-removeprefix m p h))
      ∙ append_cancel-== p n (removeprefix m p)
      ∙ ap (λ b. b && (n == removeprefix m p)) (sym h)
  | inr h ↦
      Bool-ext _ _ (λ e. cc (startswith-append p n, ap (λ t. startswith t p) ((eq_iff _ m).0 e)))
        (λ e. ground arith)
]

pub ==-sym : (s t : String) → (s == t) ≡ false → (t == s) ≡ false
==-sym s t h = ground (arith, eq_iff s t, eq_iff t s)
