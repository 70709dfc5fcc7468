-- ===== src/Python/Repr.antt =====
-- Python's `repr` of a text and of a list of texts. Characters beyond Latin-1 are taken as printable.

use iox2_jsonrpc.Base.{
  ℕ, zero, suc, Char, code, String, ◌&&◌, ◌||◌, not, List, [], ◌∷◌, ◌&◌, eqb, ltb, leb, has_char,
  if◌then◌else◌,
}
use Prim.Native.Nat.{◌/◌, ◌%◌}

abbrev quote : Char
quote = "'"

abbrev double_quote : Char
double_quote = "\""

one_char : Char → String
one_char c = String.◌∷◌ c ""

digit_from : String → ℕ → String
unfolding one_char
digit_from String.[] n = ""
digit_from (String.◌∷◌ c s) zero = one_char c
digit_from (String.◌∷◌ c s) (suc n) = digit_from s n

hex_digit : ℕ → String
unfolding digit_from
hex_digit n = digit_from "0123456789abcdef" n

repr_char : Char → Char → String
unfolding hex_digit
repr_char q c =
    let n = code c in
    if eqb n (code q) || eqb n b'\\'
    then "\\" & one_char c
    else if eqb n 10
    then "\\n"
    else if eqb n 13
    then "\\r"
    else if eqb n 9
    then "\\t"
    else if ltb n 32 || (leb 127 n && leb n 160) || eqb n 173
    then "\\x" & hex_digit (n / 16) & hex_digit (n % 16)
    else one_char c

repr_chars : Char → String → String
unfolding repr_char
repr_chars q String.[] = ""
repr_chars q (String.◌∷◌ c s) = repr_char q c & repr_chars q s

repr_in : Char → String → String
unfolding repr_chars
repr_in q s = one_char q & repr_chars q s & one_char q

-- `repr(s)`
unfoldable pub repr : String → String
unfolding repr_in
repr s =
    if has_char quote s && not (has_char double_quote s)
    then repr_in double_quote s
    else repr_in quote s

repr_items : List String → String
unfolding repr
repr_items [] = ""
repr_items (x ∷ []) = repr x
repr_items (x ∷ y ∷ xs) = repr x & ", " & repr_items (y ∷ xs)

-- `str(xs)` for a list of texts.
unfoldable pub repr_list : List String → String
unfolding repr_items
repr_list xs = "[" & repr_items xs & "]"
