-- ===== src/Commands.antt =====
-- gorp-core/src/commands.rs: what a chat message asks for. The tables of Unicode are parameters.
pub mod Quotes
use Prim.Native.String.{[], ◌∷◌, len}
use gorp_rs.Base.{
  ℕ, zero, suc, ◌+◌, ◌-◌, Char, code, String, Bool, true, false, ◌&&◌, ◌||◌, ◌==◌, ltb, leb, eqb,
  List, Option, none, some, Result, ok, err, if◌then◌else◌, length,
}
use gorp_rs.Base
use gorp_rs.Text.{
  Unicode, ◌^^◌, trim, has_prefix, strip_prefix, starts_with_char, drop_char, until_space,
  after_space, drop_bytes,
}

pub record Command : Type 0 where
  pub name : String
  pub args : List String
  pub raw_args : String

-- `args.get(index)`
unfoldable pub get_arg : ℕ → List String → Option String
get_arg i Base.[] = none
get_arg zero (Base.◌∷◌ x args) = some x
get_arg (suc i) (Base.◌∷◌ x args) = get_arg i args

abbrev pub first_arg : Command → Option String
first_arg cmd = get_arg 0 cmd.args

abbrev pub arg : ℕ → Command → Option String
arg index cmd = get_arg index cmd.args

abbrev pub has_args : ℕ → Command → Bool
has_args count cmd = leb count (length cmd.args)

pub data ParseResult : Type 0 where
  command : Command → ParseResult
  message : String → ParseResult
  ignore : ParseResult

abbrev pub as_command : ParseResult → Option Command
as_command (command cmd) = some cmd
as_command (message msg) = none
as_command ignore = none

abbrev pub as_message : ParseResult → Option String
as_message (command cmd) = none
as_message (message msg) = some msg
as_message ignore = none

-- An argument that is complete, unless it is empty.
abbrev pub push_arg : String → List String → List String
push_arg current rest = if current == "" then rest else Base.◌∷◌ current rest

abbrev pub is_quote : Char → Bool
is_quote c = eqb (code c) b'"' || eqb (code c) b'\''

abbrev is_blank : Char → Bool
is_blank c = eqb (code c) b' ' || eqb (code c) b'\t'

-- The loop of `parse_args`: `quote` is the code of `quote_char` while `in_quotes`.
unfoldable pub scan : Option ℕ → String → String → List String
scan quote current [] = push_arg current Base.[]
scan none current (c ∷ s) =
    let opened = scan (some (code c)) current s in
    let parted = scan none [] s in
    let longer = scan none (current ^^ (c ∷ [])) s in
    if is_quote c then opened else if is_blank c then push_arg current parted else longer
scan (some k) current (c ∷ s) =
    let closed = scan none [] s in
    let longer = scan (some k) (current ^^ (c ∷ [])) s in
    if eqb (code c) k then push_arg current closed else longer

unfoldable pub parse_args : String → List String
unfolding scan
parse_args input = scan none [] input

module _ (u : Unicode) (is_whitespace is_alphabetic : Char → Bool) where
  unfoldable pub parse_command_from_text : String → ParseResult
  unfolding trim until_space after_space parse_args
  parse_command_from_text text =
      let input = trim is_whitespace text in
      let raw_args = trim is_whitespace (after_space is_whitespace input) in
      if input == ""
      then command (record { name = ""; args = Base.[]; raw_args = "" })
      else command (record {
        name = u.to_lowercase (until_space is_whitespace input);
        args = parse_args raw_args;
        raw_args = raw_args;
      })

  -- Whether the character at an index, and the first one, passes a test.
  unfoldable pub char_passes : (Char → Bool) → ℕ → String → Bool
  char_passes p i [] = false
  char_passes p zero (c ∷ s) = p c
  char_passes p (suc i) (c ∷ s) = char_passes p i s

  -- The slice behind the prefix panics if it begins inside a character: then there is no result.
  unfoldable pub behind_prefix : Option String → Option ParseResult
  unfolding trim parse_command_from_text
  behind_prefix none = none
  behind_prefix (some rest) =
      let remainder = trim is_whitespace rest in
      some (
        if remainder == ""
        then command (record { name = ""; args = Base.[]; raw_args = "" })
        else parse_command_from_text remainder)

  unfoldable pub escaped_message : String → ParseResult
  unfolding trim
  escaped_message stripped =
      let escaped = trim is_whitespace stripped in if escaped == "" then ignore else message escaped

  unfoldable pub simple_message : String → ParseResult
  unfolding starts_with_char drop_char char_passes parse_command_from_text
  simple_message trimmed =
      if starts_with_char trimmed b'!'
        && ltb 1 (len trimmed)
        && char_passes is_alphabetic 0 (drop_char trimmed)
      then parse_command_from_text (drop_char trimmed)
      else message trimmed

  unfoldable pub parse_message : String → String → Option ParseResult
  unfolding trim strip_prefix has_prefix char_passes behind_prefix escaped_message simple_message
      drop_bytes
  parse_message body bot_prefix =
      let trimmed = trim is_whitespace body in
      if trimmed == "" then some ignore else elim (strip_prefix trimmed "!!") [
        | some stripped ↦ some (escaped_message stripped)
        | none ↦
            if has_prefix (u.to_lowercase trimmed) (u.to_lowercase bot_prefix)
              && ltb (len bot_prefix) (len trimmed)
              && char_passes is_whitespace (len bot_prefix) trimmed
            then behind_prefix (drop_bytes (len bot_prefix) trimmed)
            else some (simple_message trimmed)
      ]

-- What a handler gives: it answers, declines or fails.
pub data Answer (R E : Type 0) : Type 0 where
  answered : R → Answer R E
  declined : Answer R E
  failed : E → Answer R E

abbrev pub Handler : Type 0 → Type 0 → Type 0 → Type 0
Handler C R E = Command → C → Answer R E

unfoldable pub register :
    {C R E : Type 0} → Handler C R E → List (Handler C R E) → List (Handler C R E)
register handler handlers = Base.◌++◌ handlers (Base.◌∷◌ handler Base.[])

-- The handlers are asked in the order of their registration.
unfoldable pub handle : {C R E : Type 0} → List (Handler C R E) → Command → C → Answer R E
handle Base.[] cmd context = declined
handle (Base.◌∷◌ handler handlers) cmd context =
    let rest = handle handlers cmd context in
    elim (handler cmd context) [ answered r ↦ answered r | declined ↦ rest | failed e ↦ failed e ]
