-- ===== src/Tests.antt =====
-- Concrete texts, file systems, buses and rows, on which the theorems of the other modules are run.
mod Channels
mod Records
mod Schedules
mod Routes
mod Times
mod Events
mod Warm
mod Chats
mod Rounds
use gorp_rs.Base.{
  ℕ, suc, String, Bool, true, false, ◌&&◌, ◌==◌, ◌≡◌, leb, Char, code, List, [], ◌∷◌, Option, none,
  some, Result, ok, err, message, any, arith, if◌then◌else◌,
}
use gorp_rs.Text.{Unicode}
use gorp_rs.Session.Files.{FileSystem, done}
use gorp_rs.Database.{Channel, Db, ScheduleRow, TaskRow, empty_db}
use gorp_rs.Bus.{Broadcast}
use gorp_rs.Scheduler.Execute.{Env}

abbrev pub is_letter : Char → Bool
is_letter c = leb b'a' (code c) && leb (code c) b'z'

pub dot_no_letter : (c : Char) → code c ≡ b'.' → is_letter c ≡ false
dot_no_letter c e = ground arith

pub slash_no_letter : (c : Char) → code c ≡ b'/' → is_letter c ≡ false
slash_no_letter c e = ground arith

-- Lower-case letters, and one text to fold.
abbrev pub letters : Unicode
letters = record {
  to_lowercase = λ s. if s == "PA" then "pa" else s;
  is_alphanumeric = is_letter;
  dot_not_alphanumeric = dot_no_letter;
  slash_not_alphanumeric = slash_no_letter;
}

-- A file system of directories.
abbrev pub disk : FileSystem
disk = record {
  State = List String;
  exists = λ st path. any (λ d. d == path) st;
  is_dir = λ st path. any (λ d. d == path) st;
  read_dir = λ st path. done;
  create_dir_all = λ path st. (path ∷ st, ok tt);
  copy = λ src dst st. (st, ok tt);
}

-- A file system that creates no directory.
abbrev pub full_disk : FileSystem
full_disk = record {
  State = List String;
  exists = λ st path. any (λ d. d == path) st;
  is_dir = λ st path. any (λ d. d == path) st;
  read_dir = λ st path. done;
  create_dir_all = λ path st. (st, err (message "disk full"));
  copy = λ src dst st. (st, ok tt);
}

-- A broadcast channel that keeps what is sent.
abbrev pub wire : Broadcast
wire = record {
  Sender = λ A. List A;
  Receiver = λ A. List A;
  channel = λ capacity. [];
  send = λ tx a. (a ∷ tx, ok 1);
  subscribe = λ tx. (tx, []);
}

-- One cron expression and one time zone, and no slash commands.
abbrev pub clockwork : Env
clockwork = record {
  unicode = letters;
  is_whitespace = λ c. leb (code c) b' ';
  State = List String;
  exists = λ st path. false;
  read_to_string = λ st path. err (message "no such file");
  create_dir_all = λ path st. (path ∷ st, ok tt);
  write = λ path text st. (path ∷ st, ok tt);
  context_json = λ c now. ok "{}";
  Schedule = Unit {0};
  Tz = Unit {0};
  parse_schedule = λ s. if s == "0 0 9 * * *" then some tt else none;
  parse_tz = λ s. if s == "UTC" then some tt else none;
  upcoming = λ s tz. some "2025-01-02T09:00:00+00:00";
}

abbrev pub pa : Channel
pa = record {
  channel_name = "pa";
  room_id = "!pa";
  session_id = "s1";
  directory = "/w/pa";
  started = false;
  created_at = "2025-01-01T00:00:00+00:00";
  backend_type = none;
  is_dispatch_room = false;
}

abbrev pub daily : ScheduleRow
daily = record {
  id = "d";
  channel_name = "pa";
  room_id = "!pa";
  prompt = "report";
  created_by = "";
  created_at = "2025-01-01T00:00:00+00:00";
  execute_at = none;
  cron_expression = some "0 9 * * *";
  last_executed_at = none;
  next_execution_at = "2025-01-01T09:00:00+00:00";
  status = "active";
  error_message = none;
  execution_count = 0;
}

abbrev pub once : ScheduleRow
once = record daily {
  id = "o";
  cron_expression = none;
  next_execution_at = "2025-01-03T09:00:00+00:00";
}

abbrev pub task : TaskRow
task = record {
  id = "t";
  target_room_id = "!pa";
  prompt = "report";
  status = "pending";
  created_at = "2025-01-01T00:00:00+00:00";
  completed_at = none;
  result_summary = none;
}

-- One channel, two schedules and one task.
abbrev pub stored_db : Db
stored_db = record (empty_db true) {
  channels = pa ∷ [];
  scheduled_prompts = daily ∷ once ∷ [];
  dispatch_tasks = task ∷ [];
}
