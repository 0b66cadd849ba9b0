-- ===== src/Text/Decimal.antt =====
-- Decimal numbers: `str::parse` and `Display` of a u32 and a usize.

use Prim.Native.String.{[], ◌∷◌}
use gorp_rs.Base.{
  ℕ, zero, suc, ◌+◌, ◌*◌, ◌-◌, ◌/◌, ◌%◌, ◌^◌, String, code, ◌&&◌, ◌==◌, Option, some, none, ltb,
  leb, if◌then◌else◌,
}
use gorp_rs.Text.{◌^^◌, starts_with_char, drop_char}

-- The value of a text of digits that follow a number; none if another character occurs.
unfoldable pub digits : ℕ → String → Option ℕ
digits n [] = some n
digits n (c ∷ s) =
    let rest = digits (n * 10 + (code c - b'0')) s in
    if leb b'0' (code c) && leb (code c) b'9' then rest else none

-- A sign `+` is allowed; an empty text, another character or a value from the bound on is an error.
unfoldable pub parse_below : ℕ → String → Option ℕ
unfolding digits starts_with_char drop_char
parse_below bound s =
    let body = if starts_with_char s b'+' then drop_char s else s in
    if body == ""
    then none
    else elim (digits 0 body) [ none ↦ none | some n ↦ if ltb n bound then some n else none ]

unfoldable pub parse_u32 : String → Option ℕ
unfolding parse_below
parse_u32 s = parse_below (2 ^ 32) s

-- A usize has 64 bits.
unfoldable pub parse_usize : String → Option ℕ
unfolding parse_below
parse_usize s = parse_below (2 ^ 64) s

nth_char : ℕ → String → String
nth_char n [] = []
nth_char zero (c ∷ s) = c ∷ []
nth_char (suc n) (c ∷ s) = nth_char n s

-- The last `k` digits at most: ten are all digits of a u32, twenty those of a usize.
unfoldable pub show_digits : ℕ → ℕ → String
unfolding nth_char
show_digits zero n = []
show_digits (suc k) n =
    let rest = show_digits k (n / 10) in
    if ltb n 10 then nth_char n "0123456789" else rest ^^ nth_char (n % 10) "0123456789"

unfoldable pub show_u32 : ℕ → String
unfolding show_digits
show_u32 n = show_digits 10 n

unfoldable pub show_usize : ℕ → String
unfolding show_digits
show_usize n = show_digits 20 n
