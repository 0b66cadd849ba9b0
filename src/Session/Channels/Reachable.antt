-- ===== src/Session/Channels/Reachable.antt =====
-- gorp-core/src/session.rs: the table `channels` after any sequence of calls of the methods that write it.
use gorp_rs.Base.{String, Bool, refl, Option, ◌==◌}
use gorp_rs.Text.{Unicode}
use gorp_rs.Database.{Db, empty_db}
use gorp_rs.Session.Files.{FileSystem}
use gorp_rs.Session.Channels.{
  create_channel, delete_channel, delete_by_room, mark_started, reset_orphaned_session,
  reset_session, update_backend_type, update_session_id,
}
use gorp_rs.Session.Dispatch.{create_dispatch_channel}
use gorp_rs.Session.Channels.Keys.{
  HasKeys, create_channel-HasKeys, create_dispatch_channel-HasKeys, delete_by_room-HasKeys,
  delete-HasKeys, update-HasKeys,
}

-- One call of a method that writes the table, whatever its arguments and the state of the file system.
pub data Writes : Db → Db → Type 1 where
  created :
      (fs : FileSystem) (u : Unicode) (ws name room_id uuid now : String) (db : Db) (st : fs.State)
      → Writes db (create_channel fs u ws name room_id uuid now db st).0
  dispatch_created :
      (room_id uuid now : String) (db : Db)
      → Writes db (create_dispatch_channel room_id uuid now db).0
  deleted : (name : String) (db : Db) → Writes db (delete_channel name db).0
  deleted_room : (room_id : String) (db : Db) → Writes db (delete_by_room room_id db).0
  started : (room_id : String) (db : Db) → Writes db (mark_started room_id db).0
  orphaned :
      (session_id room_id : String) (db : Db)
      → Writes db (reset_orphaned_session session_id room_id db).0
  reset : (name session_id : String) (db : Db) → Writes db (reset_session name session_id db).0
  backend :
      (name : String) (backend_type : Option String) (db : Db)
      → Writes db (update_backend_type name backend_type db).0
  renewed :
      (room_id session_id : String) (db : Db)
      → Writes db (update_session_id room_id session_id db).0

-- What any number of calls makes of a new database.
pub data Reachable : Db → Type 1 where
  opened : (enforced : Bool) → Reachable (empty_db enforced)
  then_write : (db db' : Db) → Reachable db → Writes db db' → Reachable db'

Writes-HasKeys : (db db' : Db) → Writes db db' → HasKeys db → HasKeys db'
unfolding delete_channel mark_started reset_orphaned_session reset_session update_backend_type
    update_session_id
Writes-HasKeys _ _ (created fs u ws name room_id uuid now db st) h =
    create_channel-HasKeys fs u ws name room_id uuid now db st h
Writes-HasKeys _ _ (dispatch_created room_id uuid now db) h =
    create_dispatch_channel-HasKeys room_id uuid now db h
Writes-HasKeys _ _ (deleted name db) h = delete-HasKeys (λ c. c.channel_name == name) db h
Writes-HasKeys _ _ (deleted_room room_id db) h = delete_by_room-HasKeys room_id db h
Writes-HasKeys _ _ (started room_id db) h = update-HasKeys _ _ (λ c. refl) (λ c. refl) db h
Writes-HasKeys _ _ (orphaned session_id room_id db) h =
    update-HasKeys _ _ (λ c. refl) (λ c. refl) db h
Writes-HasKeys _ _ (reset name session_id db) h = update-HasKeys _ _ (λ c. refl) (λ c. refl) db h
Writes-HasKeys _ _ (backend name backend_type db) h =
    update-HasKeys _ _ (λ c. refl) (λ c. refl) db h
Writes-HasKeys _ _ (renewed room_id session_id db) h =
    update-HasKeys _ _ (λ c. refl) (λ c. refl) db h

-- From a new database, every sequence of calls that write `channels` leaves no two channels with one
-- name and no two with one room.
pub Reachable-HasKeys : (db : Db) → Reachable db → HasKeys db
Reachable-HasKeys _ (opened enforced) = (tt, tt)
Reachable-HasKeys _ (then_write db db' before call) =
    Writes-HasKeys db db' call (Reachable-HasKeys db before)
