-- ===== src/Orchestrator/Commands.antt =====
-- src/orchestrator.rs, lines 20-141: the DISPATCH commands and their parser.
use mathlib.Core.Option
use Prim.Native.String.{len, slice}
use gorp_rs.Base.{ℕ, String, ◌==◌, ltb, Option, none, some, if◌then◌else◌}
use gorp_rs.Text.{trim, starts_with_char, before_char, after_first}
use gorp_rs.Text.Decimal.{parse_usize}
use gorp_rs.Scheduler.Execute.{Env}

pub data DispatchCommand : Type 0 where
  create : String → Option String → DispatchCommand
  delete : String → DispatchCommand
  list : DispatchCommand
  status : String → DispatchCommand
  join : String → DispatchCommand
  leave : DispatchCommand
  tell : String → String → DispatchCommand
  read : String → Option ℕ → DispatchCommand
  broadcast : String → DispatchCommand
  help : DispatchCommand
  unknown : String → DispatchCommand

-- The second and the third part of `input.splitn(3, ' ')`; the first is what stands before a space.
unfoldable pub second_part : String → Option String
unfolding before_char after_first
second_part input = Option.map (before_char b' ') (after_first input " ")

unfoldable pub third_part : String → Option String
unfolding after_first
third_part input = elim (after_first input " ") [ none ↦ none | some rest ↦ after_first rest " " ]

-- A command with one argument that is not empty.
abbrev pub with_name : String → (String → DispatchCommand) → DispatchCommand
with_name input make = elim (second_part input) [
  | none ↦ unknown input
  | some name ↦ if name == "" then unknown input else make name
]

abbrev tell_command : String → DispatchCommand
tell_command input = elim (third_part input) [
  | none ↦ unknown input
  | some message ↦
      with_name input (λ name. if message == "" then unknown input else tell name message)
]

-- `input[prefix.len()..]`
abbrev broadcast_command : String → DispatchCommand
broadcast_command input =
    let message = slice input 11 (len input) in
    if ltb 11 (len input)
    then if message == "" then unknown input else broadcast message
    else unknown input

-- The count of `!read`, if it is a number.
abbrev count_part : String → Option ℕ
count_part input = elim (third_part input) [ none ↦ none | some s ↦ parse_usize s ]

-- Trimmed input that begins with `!`, by its first part in lower case.
unfoldable pub parse_named : String → String → DispatchCommand
unfolding second_part third_part parse_usize
parse_named cmd input =
    if cmd == "!create"
    then with_name input (λ name. create name (third_part input))
    else if cmd == "!delete"
    then with_name input delete
    else if cmd == "!list"
    then list
    else if cmd == "!status"
    then with_name input status
    else if cmd == "!join"
    then with_name input join
    else if cmd == "!leave"
    then leave
    else if cmd == "!tell"
    then tell_command input
    else if cmd == "!read"
    then with_name input (λ name. read name (count_part input))
    else if cmd == "!broadcast"
    then broadcast_command input
    else if cmd == "!help"
    then help
    else unknown input

unfoldable pub parse : Env → String → DispatchCommand
unfolding parse_named trim starts_with_char before_char
parse env body =
    let input = trim env.is_whitespace body in
    if starts_with_char input b'!'
    then parse_named (env.unicode.to_lowercase (before_char b' ' input)) input
    else unknown input
