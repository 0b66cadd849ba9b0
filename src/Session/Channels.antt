-- ===== src/Session/Channels.antt =====
-- gorp-core/src/session.rs, lines 108-649: the struct Channel and the methods on `channels`.
pub mod Laws
pub mod Keys
pub mod Reachable
pub mod Creation
use mathlib.Core.List.{reverse}
use gorp_rs.Base.{
  String, Bool, true, false, ◌||◌, ◌==◌, List, [], ◌∷◌, Option, none, some, Result, ok, err, Error,
  message, unique_violation, Char, ltb, eqb, code, has_key, if◌then◌else◌, is_some, ◌>>=◌ as bind,
  not, Distinct,
}
use gorp_rs.Text.{Unicode, all_chars, starts_with_char, contains, join, byte_len}
use gorp_rs.Sql.{update, query_row, insert}
use gorp_rs.Sql.Order.{order_by}
use gorp_rs.Database.{
  Channel, Db, Op, ◌>>=◌, ◌>>◌, return, bail, lift, execute, query, delete_channels,
}
use gorp_rs.Session.Files.{FileSystem, provision}

pub cli_args : Channel → List String
cli_args c =
    if c.started then "--resume" ∷ c.session_id ∷ [] else "--session-id" ∷ c.session_id ∷ []

abbrev pub traversal : Error
traversal = message "Invalid channel directory: contains path traversal"

unfoldable pub validate_directory : Channel → Result (Unit {0})
validate_directory c = if contains c.directory ".." then err traversal else ok tt

-- The row that a query found, checked.
unfoldable pub validated : Option Channel → Result (Option Channel)
unfolding validate_directory
validated none = ok none
validated (some c) = bind (validate_directory c) (λ _. ok (some c))

unfoldable pub get_by_room : String → Op (Option Channel)
get_by_room room_id = query λ db. validated (query_row (λ c. c.room_id == room_id) db.channels)

unfoldable pub get_by_name : Unicode → String → Op (Option Channel)
get_by_name u channel_name =
    query
      λ db. validated (query_row (λ c. c.channel_name == u.to_lowercase channel_name) db.channels)

unfoldable pub get_by_session_id : String → Op (Option Channel)
get_by_session_id session_id =
    query λ db. validated (query_row (λ c. c.session_id == session_id) db.channels)

-- The character test of `create_channel`.
abbrev pub name_char : Unicode → Char → Bool
name_char u = λ c. u.is_alphanumeric c || eqb (code c) b'-' || eqb (code c) b'_'

unfoldable pub validate_name : Unicode → String → Result (Unit {0})
unfolding all_chars starts_with_char
validate_name u name =
    if not (all_chars (name_char u) name)
    then err (message "Invalid channel name: must be alphanumeric with dashes/underscores")
    else if name == "" || ltb 64 (byte_len name)
    then err (message "Channel name must be 1-64 characters")
    else if starts_with_char name b'.' || starts_with_char name b'-'
    then err (message "Channel name cannot start with . or -")
    else ok tt

-- PRIMARY KEY (channel_name), UNIQUE (room_id).
abbrev pub channel_taken : Channel → Db → Bool
channel_taken c db =
    has_key (λ d. d.channel_name) c.channel_name db.channels
    || has_key (λ d. d.room_id) c.room_id db.channels

unfoldable pub insert_channel : Channel → Op (Unit {0})
insert_channel c = execute λ db.
    bind (insert (channel_taken c db) c db.channels) (λ rows. ok (record db { channels = rows }))

abbrev pub new_channel : Unicode → String → String → String → String → String → Channel
new_channel u workspace_path channel_name room_id uuid now = record {
  channel_name = u.to_lowercase channel_name;
  room_id = room_id;
  session_id = uuid;
  directory = join workspace_path (u.to_lowercase channel_name);
  started = false;
  created_at = now;
  backend_type = none;
  is_dispatch_room = false;
}

-- The error that `create_channel` reports for a failed INSERT.
abbrev pub insert_error : Error → Error
insert_error unique_violation = message "Channel name or room already exists"
insert_error e = e

module _ (fs : FileSystem) where
  abbrev pub Outcome : Type 0
  Outcome = Db × fs.State × Result Channel

  abbrev provisioned : Channel → Db → fs.State × Result (Unit {0}) → Outcome
  provisioned c db (st, ok _) = (db, st, ok c)
  provisioned c db (st, err e) = (db, st, err e)

  inserted : String → Channel → fs.State → Db × Result (Unit {0}) → Outcome
  inserted workspace_path c st (db, ok _) =
      provisioned c db (provision fs workspace_path c.directory st)
  inserted workspace_path c st (db, err e) = (db, st, err (insert_error e))

  -- `uuid` and `now` are the fresh session ID and the time.
  unfoldable pub create_channel :
      Unicode → String → String → String → String → String → Db → fs.State → Outcome
  unfolding insert_channel inserted
  create_channel u workspace_path channel_name room_id uuid now db st =
      let c = new_channel u workspace_path channel_name room_id uuid now in
      elim (validate_name u c.channel_name) [
        | err e ↦ (db, st, err e)
        | ok _ ↦ inserted workspace_path c st (insert_channel c db)
      ]

-- ORDER BY created_at DESC.
unfoldable pub list_all : Op (List Channel)
list_all = query λ db. ok (reverse (order_by (λ c. c.created_at) db.channels))

unfoldable pub delete_channel : String → Op (Unit {0})
delete_channel channel_name =
    execute λ db. ok (delete_channels (λ c. c.channel_name == channel_name) db)

unfoldable pub delete_by_room : String → Op (Option String)
delete_by_room room_id = do
  found ← query λ db. ok (query_row (λ c. c.room_id == room_id) db.channels)
  elim found [
    | none ↦ return none
    | some c ↦ do
      execute λ db. ok (delete_channels (λ d. d.room_id == room_id) db)
      return (some c.channel_name)
  ]

-- UPDATE channels SET … WHERE …
abbrev pub update_channels : (Channel → Bool) → (Channel → Channel) → Op (Unit {0})
update_channels p f = execute λ db. ok (record db { channels = update p f db.channels })

unfoldable pub mark_started : String → Op (Unit {0})
mark_started room_id =
    update_channels (λ c. c.room_id == room_id) (λ c. record c { started = true })

unfoldable pub reset_orphaned_session : String → String → Op (Unit {0})
reset_orphaned_session new_session_id room_id =
    update_channels (λ c. c.room_id == room_id)
      (λ c. record c { session_id = new_session_id; started = false })

unfoldable pub reset_session : String → String → Op (Unit {0})
reset_session channel_name new_session_id =
    update_channels (λ c. c.channel_name == channel_name)
      (λ c. record c { session_id = new_session_id; started = false })

unfoldable pub update_backend_type : String → Option String → Op (Unit {0})
update_backend_type channel_name backend_type =
    update_channels (λ c. c.channel_name == channel_name)
      (λ c. record c { backend_type = backend_type })

unfoldable pub update_session_id : String → String → Op (Unit {0})
update_session_id room_id new_session_id =
    update_channels (λ c. c.room_id == room_id) (λ c. record c { session_id = new_session_id })
