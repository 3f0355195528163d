-- ===== src/Prelude/Text.antt =====
-- Text: the parts of Go's `strings` and `strconv` that the operator calls.
use authentik_operator.Prelude.{◌==◌, nat_eq}
use Prim.Native.Char.{Char, code}
use Prim.Native.Nat.{ℕ, zero, suc, ◌/◌, ◌%◌}
use Prim.Native.String.{String, ◌++◌}
use mathlib.Core.List.{List, [], ◌∷◌}
use authentik_operator.Prelude.Tests.{ltb, if◌then◌else◌}
use authentik_operator.Prelude.Int.{ℤ, pos, negsuc}

-- `strings.Join`
unfoldable pub join : String → List String → String
join sep [] = ""
join sep (s ∷ []) = s
join sep (s ∷ t ∷ rest) = s ++ (sep ++ join sep (t ∷ rest))

-- the strings one after the other, as `fmt.Sprintf` puts them
unfoldable pub concat_text : List String → String
concat_text [] = ""
concat_text (s ∷ rest) = s ++ concat_text rest

digit : ℕ → String
digit zero = "0"
digit (suc zero) = "1"
digit (suc (suc zero)) = "2"
digit (suc (suc (suc zero))) = "3"
digit (suc (suc (suc (suc zero)))) = "4"
digit (suc (suc (suc (suc (suc zero))))) = "5"
digit (suc (suc (suc (suc (suc (suc zero)))))) = "6"
digit (suc (suc (suc (suc (suc (suc (suc zero))))))) = "7"
digit (suc (suc (suc (suc (suc (suc (suc (suc zero)))))))) = "8"
digit _ = "9"

-- The decimal digits; the fuel is one more than the number, which has at most that many.
print_ℕ : ℕ → ℕ → String
unfolding digit
print_ℕ zero n = ""
print_ℕ (suc fuel) n =
    let rest = print_ℕ fuel (n / 10) in if ltb n 10 then digit n else rest ++ digit (n % 10)

-- `strconv.Itoa`
unfoldable pub itoa : ℤ → String
unfolding print_ℕ
itoa (pos n) = print_ℕ (suc n) n
itoa (negsuc n) = "-" ++ print_ℕ (suc (suc n)) (suc n)

hex_digit : ℕ → String
unfolding digit
hex_digit n =
    if ltb n 10
    then digit n
    else if n == 10
    then "a"
    else if n == 11
    then "b"
    else if n == 12
    then "c"
    else if n == 13
    then "d"
    else if n == 14
    then "e"
    else "f"

-- One character of `strconv.Quote`; an unprintable character beyond ASCII is kept.
quote_char : Char → String
unfolding hex_digit
quote_char c =
    if code c == b'"'
    then "\\\""
    else if code c == b'\\'
    then "\\\\"
    else if code c == 7
    then "\\a"
    else if code c == 8
    then "\\b"
    else if code c == 12
    then "\\f"
    else if code c == 10
    then "\\n"
    else if code c == 13
    then "\\r"
    else if code c == 9
    then "\\t"
    else if code c == 11
    then "\\v"
    else if ltb (code c) 32
    then "\\x" ++ (hex_digit (code c / 16) ++ hex_digit (code c % 16))
    else if code c == 127
    then "\\x7f"
    else String.◌∷◌ c ""

quote_body : String → String
unfolding quote_char
quote_body String.[] = ""
quote_body (String.◌∷◌ c s) = quote_char c ++ quote_body s

-- `fmt.Sprintf` of a string by the verb `%q`
unfoldable pub quote : String → String
unfolding quote_body
quote s = "\"" ++ (quote_body s ++ "\"")
