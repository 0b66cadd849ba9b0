-- ===== src/Database.antt =====
-- The SQLite database that SessionStore (gorp-core/src/session.rs) and SchedulerStore
-- (gorp-core/src/scheduler.rs) share: the tables of SessionStore::new and
-- SchedulerStore::initialize_schema, and the effect of an operation on them.
-- `fault` is what every statement reports while the mutex is poisoned or the file does not answer;
-- `foreign_keys` tells whether the SQLite build enforces foreign keys.
use gorp_rs.Base.{
  ℕ, String, Bool, Option, none, some, List, [], Result, ok, err, Error, any, ◌==◌, ◌&&◌,
  if◌then◌else◌, ◌≡◌, arith,
}
use gorp_rs.Sql.{delete}

-- A row of `channels`, which is also the struct that the store returns.
pub record Channel : Type 0 where
  pub channel_name : String
  pub room_id : String
  pub session_id : String
  pub directory : String
  pub started : Bool
  pub created_at : String
  pub backend_type : Option String
  pub is_dispatch_room : Bool

-- A row of `settings`.
pub record Setting : Type 0 where
  pub key : String
  pub value : String

-- A row of `mux_sessions`.
pub record MuxRow : Type 0 where
  pub session_id : String
  pub messages_json : String
  pub system_prompt : Option String
  pub created_at : String
  pub updated_at : String

-- A row of `dispatch_events`; the payload is JSON text.
pub record EventRow : Type 0 where
  pub id : String
  pub source_room_id : String
  pub event_type : String
  pub payload : String
  pub created_at : String
  pub acknowledged_at : Option String

-- A row of `dispatch_tasks`; the status is text.
pub record TaskRow : Type 0 where
  pub id : String
  pub target_room_id : String
  pub prompt : String
  pub status : String
  pub created_at : String
  pub completed_at : Option String
  pub result_summary : Option String

-- A row of `channel_bindings`; `bound_at` is never read.
pub record Binding : Type 0 where
  pub platform_id : String
  pub channel_id : String
  pub session_name : String

-- A row of `scheduled_prompts`; the status is text.
pub record ScheduleRow : Type 0 where
  pub id : String
  pub channel_name : String
  pub room_id : String
  pub prompt : String
  pub created_by : String
  pub created_at : String
  pub execute_at : Option String
  pub cron_expression : Option String
  pub last_executed_at : Option String
  pub next_execution_at : String
  pub status : String
  pub error_message : Option String
  pub execution_count : ℕ

pub record Db : Type 0 where
  pub fault : Option Error
  pub foreign_keys : Bool
  pub channels : List Channel
  pub settings : List Setting
  pub mux_sessions : List MuxRow
  pub dispatch_events : List EventRow
  pub dispatch_tasks : List TaskRow
  pub channel_bindings : List Binding
  pub scheduled_prompts : List ScheduleRow

-- An operation leaves a database behind, also when it fails.
abbrev pub Op : Type 0 → Type 0
Op A = Db → Db × Result A

infixl 5 ◌>>=◌ ◌>>◌
abbrev pub ◌>>=◌ : {A B : Type 0} → Op A → (A → Op B) → Op B
◌>>=◌ m f db = elim (m db).1 [ ok a ↦ f a (m db).0 | err e ↦ ((m db).0, err e) ]

abbrev pub ◌>>◌ : {B : Type 0} → Op (Unit {0}) → Op B → Op B
m >> k = m >>= λ _. k

abbrev pub return : {A : Type 0} → A → Op A
return a db = (db, ok a)

abbrev pub bail : {A : Type 0} → Error → Op A
bail e db = (db, err e)

abbrev pub lift : {A : Type 0} → Result A → Op A
lift r db = (db, r)

-- A statement that changes rows, and one that reads them, behind the lock of the connection.
unfoldable pub execute : (Db → Result Db) → Op (Unit {0})
execute f db = elim db.fault [
  | some e ↦ (db, err e)
  | none ↦ elim (f db) [ ok db' ↦ (db', ok tt) | err e ↦ (db, err e) ]
]

unfoldable pub query : {A : Type 0} → (Db → Result A) → Op A
query f db = elim db.fault [ some e ↦ (db, err e) | none ↦ (db, f db) ]

pub query_ok :
    {A : Type 0} (f : Db → Result A) (db : Db) → db.fault ≡ none → query f db ≡ (db, f db)
unfolding query
query_ok f db sound = ground arith

pub query_fault :
    {A : Type 0} (f : Db → Result A) (db : Db) (e : Error)
    → db.fault ≡ some e
    → query f db ≡ (db, err e)
unfolding query
query_fault f db e broken = ground arith

pub execute_ok :
    (f : Db → Result Db) (db db' : Db)
    → db.fault ≡ none
    → f db ≡ ok db'
    → execute f db ≡ (db', ok tt)
unfolding execute
execute_ok f db db' sound done = ground arith

pub execute_err :
    (f : Db → Result Db) (db : Db) (e : Error)
    → db.fault ≡ none
    → f db ≡ err e
    → execute f db ≡ (db, err e)
unfolding execute
execute_err f db e sound failed = ground arith

pub execute_fault :
    (f : Db → Result Db) (db : Db) (e : Error) → db.fault ≡ some e → execute f db ≡ (db, err e)
unfolding execute
execute_fault f db e broken = ground arith

-- DELETE FROM channels WHERE p, with ON DELETE CASCADE of `scheduled_prompts`.
abbrev pub delete_channels : (Channel → Bool) → Db → Db
delete_channels p db = record db {
  channels = delete p db.channels;
  scheduled_prompts =
      if db.foreign_keys
      then delete (λ s. any (λ c. p c && c.channel_name == s.channel_name) db.channels)
          db.scheduled_prompts
      else db.scheduled_prompts;
}

-- A sound connection to an empty database.
abbrev pub empty_db : Bool → Db
empty_db enforced = record {
  fault = none;
  foreign_keys = enforced;
  channels = [];
  settings = [];
  mux_sessions = [];
  dispatch_events = [];
  dispatch_tasks = [];
  channel_bindings = [];
  scheduled_prompts = [];
}
