-- ===== src/Session/Dispatch.antt =====
-- gorp-core/src/session.rs, lines 651-792: DISPATCH channels.
pub mod Laws
use gorp_rs.Base.{
  String, Bool, true, false, ◌&&◌, ◌==◌, List, [], Option, none, some, Result, ok, err, Error,
  message, unique_violation, keep,
}
use gorp_rs.Text.{◌^^◌}
use gorp_rs.Sql.{query_row, select}
use gorp_rs.Database.{Channel, Db, Op, ◌>>=◌, ◌>>◌, return, bail, query}
use gorp_rs.Session.Channels.{insert_channel}

unfoldable pub get_dispatch_channel : String → Op (Option Channel)
get_dispatch_channel room_id =
    query λ db. ok (query_row (λ c. c.room_id == room_id && c.is_dispatch_room) db.channels)

abbrev pub dispatch_row : String → String → String → Channel
dispatch_row room_id uuid now = record {
  channel_name = "dispatch:" ^^ room_id;
  room_id = room_id;
  session_id = uuid;
  directory = "";
  started = false;
  created_at = now;
  backend_type = some "mux";
  is_dispatch_room = true;
}

unfoldable pub create_dispatch_channel : String → String → String → Op Channel
create_dispatch_channel room_id uuid now = do
  insert_channel (dispatch_row room_id uuid now)
  return (dispatch_row room_id uuid now)

-- `ok_or_else` on the second look-up.
abbrev or_disappeared : Option Channel → Op Channel
or_disappeared none = bail (message "Channel disappeared after UNIQUE constraint error")
or_disappeared (some c) = return c

-- What happens to the outcome of `create_dispatch_channel`: a UNIQUE violation is looked into, after
-- `later`, which is what other threads do before the second look-up.
recover : (Db → Db) → String → Db × Result Channel → Db × Result Channel
unfolding get_dispatch_channel
recover later room_id (db, ok c) = (db, ok c)
recover later room_id (db, err unique_violation) =
    (get_dispatch_channel room_id >>= or_disappeared) (later db)
recover later room_id (db, err e) = (db, err e)

-- The lock is free between the steps: `meanwhile` is what other threads do to the database between
-- the first look-up and the INSERT.
unfoldable pub get_or_create_dispatch_channel :
    (Db → Db) → (Db → Db) → String → String → String → Op Channel
unfolding recover get_dispatch_channel create_dispatch_channel
get_or_create_dispatch_channel meanwhile later room_id uuid now = do
  existing ← get_dispatch_channel room_id
  elim existing [
    | some c ↦ return c
    | none ↦ λ db. recover later room_id (create_dispatch_channel room_id uuid now (meanwhile db))
  ]

unfoldable pub list_dispatch_channels : Op (List Channel)
list_dispatch_channels = query λ db. ok (select (λ c. c.is_dispatch_room) db.channels)
