-- ===== src/Session/Channels/Laws.antt =====
-- What the look-ups of gorp-core/src/session.rs read after an UPDATE of `channels`.
use mathlib.Core.Option
use gorp_rs.Base.{
  String, Bool, true, false, ◌≡◌, refl, ap, Option, none, some, Result, ok, err, ◌==◌, List, [],
  ◌∷◌, if◌then◌else◌, arith,
}
use gorp_rs.Text.{Unicode, contains}
use gorp_rs.Sql.{update, query_row}
use gorp_rs.Sql.Laws.{first-update, updated, has_key_of_first}
use gorp_rs.Database.{Channel, Db, query, execute_ok}
use gorp_rs.Session.Channels.{
  get_by_room, get_by_name, validated, validate_directory, traversal, update_channels, mark_started,
  reset_orphaned_session, update_session_id, cli_args,
}

pub get_by_room_eq :
    (room_id : String) (db : Db)
    → db.fault ≡ none
    → (get_by_room room_id db).1 ≡ validated (query_row (λ c. c.room_id == room_id) db.channels)
unfolding get_by_room query
get_by_room_eq room_id db sound = ground arith

pub get_by_name_eq :
    (u : Unicode) (name : String) (db : Db)
    → db.fault ≡ none
    → (get_by_name u name db).1
      ≡ validated (query_row (λ c. c.channel_name == u.to_lowercase name) db.channels)
unfolding get_by_name query
get_by_name_eq u name db sound = ground arith

abbrev pub with_channels : List Channel → Db → Db
with_channels rows db = record db { channels = rows }

-- The directory check, as one equation.
pub validated-some :
    (c : Channel)
    → validated (some c) ≡ (if contains c.directory ".." then err traversal else ok (some c))
unfolding validated validate_directory
validated-some c = ground arith

pub validated-some_iff :
    (o : Option Channel) (c : Channel)
    → validated o ≡ ok (some c)
    → (o ≡ some c) × (contains c.directory ".." ≡ false)
unfolding validated validate_directory
validated-some_iff none c h = ground arith
validated-some_iff (some d) c h = ground arith

-- A change of a row that keeps its room and directory.
module _ (f : Channel → Channel) (keeps_room : (c : Channel) → (f c).room_id ≡ c.room_id)
    (keeps_directory : (c : Channel) → (f c).directory ≡ c.directory) where
  validated-map :
      (b : Bool) (o : Option Channel) (before : Option Channel)
      → validated o ≡ ok before
      → validated (Option.map (λ c. if b then f c else c) o)
        ≡ ok (Option.map (λ c. if b then f c else c) before)
  unfolding validated validate_directory
  validated-map b none before h = ground arith
  validated-map true (some c) before h = ground (arith, keeps_directory c)
  validated-map false (some c) before h = ground arith

  map-updated :
      (room other : String) (o : Option Channel)
      → ((c : Channel) → o ≡ some c → c.room_id ≡ other)
      → Option.map (updated (λ c. c.room_id == room) f) o
        ≡ Option.map (λ c. if other == room then f c else c) o
  map-updated room other none k = refl
  map-updated room other (some c) k = ap (λ r. some (if r == room then f c else c)) (k c refl)

  -- An UPDATE by room changes what the look-up of that room reads, and no other room.
  pub get_by_room-update :
      (room other : String) (db : Db) (before : Option Channel)
      → db.fault ≡ none
      → (get_by_room other db).1 ≡ ok before
      → (get_by_room other (update_channels (λ c. c.room_id == room) f db).0).1
        ≡ ok (Option.map (λ c. if other == room then f c else c) before)
  get_by_room-update room other db before sound h =
      let rows = update (λ c. c.room_id == room) f db.channels in
      rw
        (
          execute_ok _ db (with_channels rows db) sound refl,
          get_by_room_eq other (with_channels rows db) sound,
          first-update (λ c. c.room_id == room) f (λ c. c.room_id == other)
              (λ c. ap (λ r. r == other) (keeps_room c)) db.channels,
          map-updated room other (query_row (λ c. c.room_id == other) db.channels)
              (λ c e. has_key_of_first (λ c. c.room_id) other db.channels e),
        )
        (validated-map (other == room) (query_row (λ c. c.room_id == other) db.channels) before
          (rw (get_by_room_eq other db sound) at h))

-- The arguments that the CLI is started with for the channel of a room.
abbrev pub args_of : String → Db → Result (Option (List String))
args_of room db = elim (get_by_room room db).1 [
  | ok found ↦ ok (Option.map cli_args found)
  | err e ↦ err e
]

-- After a channel of a room is marked as started, its session is resumed; after it is reset, a session
-- with the new ID is begun; a new session ID alone changes the ID and nothing else. Other rooms keep
-- their arguments. (`before` is what the look-up of `other` read, with a sound connection.)
pub args_of-lifecycle :
    (room other uuid : String) (db : Db) (before : Option Channel)
    → db.fault ≡ none
    → (get_by_room other db).1 ≡ ok before
    → (args_of other (mark_started room db).0
        ≡ ok (
            Option.map
              (λ c. if other == room then "--resume" ∷ c.session_id ∷ [] else cli_args c)
              before))
      × (args_of other (reset_orphaned_session uuid room db).0
          ≡ ok (
              Option.map
                (λ c. if other == room then "--session-id" ∷ uuid ∷ [] else cli_args c)
                before))
      × (args_of other (update_session_id room uuid db).0
          ≡ ok (
              Option.map
                (λ c.
                  if other == room
                  then (if c.started then "--resume" else "--session-id") ∷ uuid ∷ []
                  else cli_args c)
                before))
unfolding mark_started reset_orphaned_session update_session_id cli_args
args_of-lifecycle room other uuid db before sound h = (
  ground (
    arith,
    get_by_room-update (λ c. record c { started = true }) (λ c. refl) (λ c. refl) room other db
        before sound h,
  ),
  ground (
    arith,
    get_by_room-update (λ c. record c { session_id = uuid; started = false }) (λ c. refl)
        (λ c. refl) room other db before sound h,
  ),
  ground (
    arith,
    get_by_room-update (λ c. record c { session_id = uuid }) (λ c. refl) (λ c. refl) room other db
        before sound h,
  ),
)
