-- ===== src/Base/Join.antt =====
-- `s.split(c)` and `c.join(xs)` for a single character `c`, and that the first undoes the second.
use Prim.Native.Char.{Char, code}
use Prim.Native.String.{String}
use mathlib.Core.Path.{◌≡◌, refl, ap, ◌∙◌}
use mathlib.Core.Bool.{Bool, true, false, not}
use mathlib.Core.List.{List, [], ◌∷◌}
use native.Mathlib.Omega.{arith}
use text.Mathlib.Text.{◌==◌}
use text.Mathlib.TextLemmas.{nil-append, cons-append}
use iox2_jsonrpc.Base.Tests.{eqb, if◌then◌else◌}
use iox2_jsonrpc.Base.Lists.{All, filter}
use iox2_jsonrpc.Base.Text.{◌&◌}
use iox2_jsonrpc.Base.Split.{has_char, eqb_refl, has_char-append}

-- `s.split(c, 1)[1]`, for an `s` that has the character `c`.
unfoldable pub after_first : Char → String → String
after_first c String.[] = ""
after_first c (String.◌∷◌ d s) =
    let rest = after_first c s in if eqb (code d) (code c) then s else rest

abbrev push_front : Char → List String → List String
push_front d [] = String.◌∷◌ d "" ∷ []
push_front d (x ∷ xs) = String.◌∷◌ d x ∷ xs

-- `s.split(c)`
unfoldable pub split : Char → String → List String
split c String.[] = "" ∷ []
split c (String.◌∷◌ d s) =
    let rest = split c s in if eqb (code d) (code c) then "" ∷ rest else push_front d rest

-- `c.join(xs)`
unfoldable pub join : Char → List String → String
join c [] = ""
join c (x ∷ []) = x
join c (x ∷ y ∷ xs) = x & String.◌∷◌ c (join c (y ∷ xs))

-- `[item for item in items if item]`
abbrev pub nonempty : String → Bool
nonempty s = not (s == "")

pub split_plain : (c : Char) (s : String) → has_char c s ≡ false → split c s ≡ s ∷ []
unfolding split has_char
split_plain c String.[] h = refl
split_plain c (String.◌∷◌ d s) h = ground (arith, split_plain c s)

pub split-append :
    (c : Char) (s t : String) → has_char c s ≡ false → split c (s & String.◌∷◌ c t) ≡ s ∷ split c t
unfolding split has_char
split-append c String.[] t h = rw (nil-append, eqb_refl)
split-append c (String.◌∷◌ d s) t h = rw cons-append (ground (arith, split-append c s t))

split-join :
    (c : Char) (x : String) (xs : List String)
    → All (λ s. has_char c s ≡ false) (x ∷ xs)
    → split c (join c (x ∷ xs)) ≡ x ∷ xs
unfolding join
split-join c x [] h = split_plain c x h.0
split-join c x (y ∷ xs) h =
    split-append c x (join c (y ∷ xs)) h.0 ∙ ap (λ r. x ∷ r) (split-join c y xs h.1)

filter-All {ℓ} :
    {A : Type ℓ} (test : A → Bool) (xs : List A) → All (λ x. test x ≡ true) xs → filter test xs ≡ xs
filter-All test [] h = refl
filter-All test (x ∷ xs) h = rw (h.0, filter-All test xs h.1)

-- Texts with no separator in them, none of them empty, survive being joined and split.
pub filter-split-join :
    (c : Char) (xs : List String)
    → All (λ s. has_char c s ≡ false) xs
    → All (λ s. nonempty s ≡ true) xs
    → filter nonempty (split c (join c xs)) ≡ xs
filter-split-join c [] h k = unfold join split in refl
filter-split-join c (x ∷ xs) h k = rw (split-join c x xs h) (filter-All nonempty (x ∷ xs) k)

pub after_first-append :
    (c : Char) (s t : String) → has_char c s ≡ false → after_first c (s & t) ≡ after_first c t
unfolding after_first has_char
after_first-append c String.[] t h = ap (after_first c) (nil-append t)
after_first-append c (String.◌∷◌ d s) t h =
    ap (after_first c) (cons-append d s t) ∙ ground (arith, after_first-append c s t, h)

pub after_first-here : (c : Char) (t : String) → after_first c (String.◌∷◌ c "" & t) ≡ t
unfolding after_first
after_first-here c t =
    ap (after_first c) (cons-append c "" t) ∙ rw (eqb_refl (code c)) (nil-append t)

pub has_char-separator : (c : Char) (s t : String) → has_char c (s & String.◌∷◌ c "" & t) ≡ true
unfolding has_char
has_char-separator c s t =
    has_char-append c s (String.◌∷◌ c "" & t)
    ∙ ground (arith, has_char-append c (String.◌∷◌ c "") t, eqb_refl (code c))
