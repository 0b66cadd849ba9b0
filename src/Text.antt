-- ===== src/Text.antt =====
-- The operations of `str`, `char` and `Path` that the stores use, over native texts.
pub mod Laws
pub mod Decimal
pub mod Chunks
use Prim.Native.String
use Prim.Native.Char.{len_utf8}
use Prim.Native.String.{[], ◌∷◌, len}
use gorp_rs.Base.{
  ℕ, ◌-◌, ◌≡◌, Char, code, String, Bool, true, false, ◌&&◌, ◌||◌, eqb, leb, if◌then◌else◌, ◌==◌,
  Option, some, none,
}

-- What the standard library's Unicode tables answer, with the fact that the code relies on: neither '.'
-- nor '/' is alphanumeric.
pub record Unicode : Type 0 where
  pub to_lowercase : String → String
  pub is_alphanumeric : Char → Bool
  pub dot_not_alphanumeric : (c : Char) → code c ≡ b'.' → is_alphanumeric c ≡ false
  pub slash_not_alphanumeric : (c : Char) → code c ≡ b'/' → is_alphanumeric c ≡ false

infixr 66 ◌^^◌
abbrev pub ◌^^◌ : String → String → String
s ^^ t = String.◌++◌ s t

-- `s.chars().all(p)`
unfoldable pub all_chars : (Char → Bool) → String → Bool
all_chars p [] = true
all_chars p (c ∷ s) = p c && all_chars p s

-- `s.starts_with(c)` and `s.ends_with(c)` for a character.
unfoldable pub starts_with_char : String → ℕ → Bool
starts_with_char [] k = false
starts_with_char (c ∷ s) k = eqb (code c) k

unfoldable pub ends_with_char : String → ℕ → Bool
ends_with_char [] k = false
ends_with_char (c ∷ []) k = eqb (code c) k
ends_with_char (c ∷ d ∷ s) k = ends_with_char (d ∷ s) k

-- `s.starts_with(t)`
unfoldable pub has_prefix : String → String → Bool
has_prefix s [] = true
has_prefix [] (d ∷ t) = false
has_prefix (c ∷ s) (d ∷ t) = eqb (code c) (code d) && has_prefix s t

-- `s.contains(t)`
unfoldable pub contains : String → String → Bool
unfolding has_prefix
contains [] t = has_prefix [] t
contains (c ∷ s) t = has_prefix (c ∷ s) t || contains s t

-- `Path::join` on Unix: an absolute path replaces the first.
unfoldable pub join : String → String → String
unfolding starts_with_char ends_with_char
join dir name =
    if starts_with_char name b'/' || dir == ""
    then name
    else if ends_with_char dir b'/'
    then dir ^^ name
    else dir ^^ "/" ^^ name

-- `s.len()`, in bytes.
abbrev pub byte_len : String → ℕ
byte_len s = len s

-- `s.trim()`, for the whitespace that `space` tells.
unfoldable pub trim_start : (Char → Bool) → String → String
trim_start space [] = []
trim_start space (c ∷ s) = let rest = trim_start space s in if space c then rest else c ∷ s

unfoldable pub trim_end : (Char → Bool) → String → String
trim_end space [] = []
trim_end space (c ∷ s) =
    let rest = trim_end space s in if space c && rest == "" then [] else c ∷ rest

unfoldable pub trim : (Char → Bool) → String → String
unfolding trim_start trim_end
trim space s = trim_end space (trim_start space s)

-- The characters before the first whitespace.
unfoldable pub until_space : (Char → Bool) → String → String
until_space space [] = []
until_space space (c ∷ s) = let rest = until_space space s in if space c then [] else c ∷ rest

-- `s.split_whitespace().next().unwrap_or("")`
unfoldable pub first_word : (Char → Bool) → String → String
unfolding trim_start until_space
first_word space s = until_space space (trim_start space s)

-- `s.strip_prefix(t)`
unfoldable pub strip_prefix : String → String → Option String
strip_prefix s [] = some s
strip_prefix [] (d ∷ t) = none
strip_prefix (c ∷ s) (d ∷ t) =
    let rest = strip_prefix s t in if eqb (code c) (code d) then rest else none

-- The text behind the first `t` in `s`: `s.find(t)` and the slice that follows it.
unfoldable pub after_first : String → String → Option String
unfolding strip_prefix
after_first [] t = strip_prefix [] t
after_first (c ∷ s) t =
    let rest = after_first s t in elim (strip_prefix (c ∷ s) t) [ some r ↦ some r | none ↦ rest ]

-- `&s[1..]` of a text that begins with a character of one byte.
unfoldable pub drop_char : String → String
drop_char [] = []
drop_char (c ∷ s) = s

-- `s.strip_suffix(t)`; `s.ends_with(t)` tells whether it finds one.
unfoldable pub strip_suffix : String → String → Option String
strip_suffix [] t = if t == "" then some [] else none
strip_suffix (c ∷ s) t =
    let rest = strip_suffix s t in
    if (c ∷ s) == t then some [] else elim rest [ some r ↦ some (c ∷ r) | none ↦ none ]

-- `s.split(c).next()` for a character.
unfoldable pub before_char : ℕ → String → String
before_char k [] = []
before_char k (c ∷ s) = let rest = before_char k s in if eqb (code c) k then [] else c ∷ rest

-- What follows the first whitespace of `s`, without any whitespace.
unfoldable pub without_space : (Char → Bool) → String → String
without_space space [] = []
without_space space (c ∷ s) = let rest = without_space space s in if space c then rest else c ∷ rest

unfoldable pub after_space : (Char → Bool) → String → String
after_space space [] = []
after_space space (c ∷ s) = let rest = after_space space s in if space c then s else rest

-- `s.split_whitespace().skip(1).join("")`
unfoldable pub other_words : (Char → Bool) → String → String
unfolding trim_start without_space after_space
other_words space s = without_space space (after_space space (trim_start space s))

-- `&s[n..]` at a number of bytes; none inside a character or behind the end, where it panics.
unfoldable pub drop_bytes : ℕ → String → Option String
drop_bytes n [] = if eqb n 0 then some [] else none
drop_bytes n (c ∷ s) =
    let rest = drop_bytes (n - len_utf8 c) s in
    if eqb n 0 then some (c ∷ s) else if leb (len_utf8 c) n then rest else none
