-- ===== src/Session/Settings/Laws.antt =====
-- gorp-core/src/session.rs: what reading a setting, an onboarding state or a mux session gives after a
-- write.
use mathlib.Core.Option
use text.Mathlib.TextLemmas.{append_cancel_left}
use gorp_rs.Base.{
  String, ◌≡◌, refl, ap, Option, none, some, ok, ◌==◌, List, [], ◌∷◌, if◌then◌else◌, arith, any,
  eq_iff, is_some,
}
use gorp_rs.Sql.{upsert, delete, query_row}
use gorp_rs.Sql.Laws.{first-delete_key, first-upsert}
use gorp_rs.Database.{Db, Setting, MuxRow, execute, query}
use gorp_rs.Session.Settings.{
  get_setting, set_setting, get_onboarding_state, set_onboarding_state, clear_onboarding_state,
  onboarding_key, save_mux_session, load_mux_session, delete_mux_session, mux_session_exists,
}

get_setting_eq :
    (key : String) (db : Db)
    → db.fault ≡ none
    → (get_setting key db).1
      ≡ ok (Option.map (λ s. s.value) (query_row (λ s. s.key == key) db.settings))
unfolding get_setting query
get_setting_eq key db sound = ground arith

set_setting_eq :
    (key value : String) (db : Db)
    → db.fault ≡ none
    → (set_setting key value db).0 ≡ record db {
      settings =
          upsert
            (λ s. s.key == key)
            (λ s. record s { value = value })
            (record { key = key; value = value })
            db.settings;
    }
unfolding set_setting execute
set_setting_eq key value db sound = ground arith

-- Over a sound connection, a setting that is set is read back, and no other setting changes.
pub get_setting-set :
    (key other value : String) (db : Db)
    → db.fault ≡ none
    → (get_setting other (set_setting key value db).0).1
      ≡ (if key == other then ok (some value) else (get_setting other db).1)
get_setting-set key other value db sound = rw (set_setting_eq key value db sound) (
    rw
      (
        get_setting_eq other
            (record db {
              settings =
                  upsert (λ s. s.key == key) (λ s. record s { value = value })
                    (record { key = key; value = value }) db.settings;
            })
            sound,
        get_setting_eq other db sound,
        first-upsert (λ (s : Setting). s.key) key other (λ s. record s { value = value })
            (record { key = key; value = value }) refl (λ s. refl) db.settings,
      )
      (ground arith))

onboarding_key-eq : (a b : String) → (onboarding_key a == onboarding_key b) ≡ (a == b)
onboarding_key-eq a b = ground (
  arith,
  eq_iff (onboarding_key a) (onboarding_key b),
  eq_iff a b,
  append_cancel_left "onboarding:" a b,
  λ (e : a ≡ b). ap onboarding_key e,
)

clear_onboarding_state_eq :
    (user : String) (db : Db)
    → db.fault ≡ none
    → (clear_onboarding_state user db).0
      ≡ record db { settings = delete (λ s. s.key == onboarding_key user) db.settings }
unfolding clear_onboarding_state execute
clear_onboarding_state_eq user db sound = ground arith

-- Over a sound connection, the onboarding state of a user is read back after it is set, is gone
-- after it is cleared, and that of any other user stays as it is.
pub get_onboarding_state-writes :
    (user other state : String) (db : Db)
    → db.fault ≡ none
    → ((get_onboarding_state other (set_onboarding_state user state db).0).1
        ≡ (if user == other then ok (some state) else (get_onboarding_state other db).1))
      × ((get_onboarding_state other (clear_onboarding_state user db).0).1
          ≡ (if user == other then ok none else (get_onboarding_state other db).1))
unfolding get_onboarding_state set_onboarding_state
get_onboarding_state-writes user other state db sound = (
  rw (← onboarding_key-eq user other)
      (get_setting-set (onboarding_key user) (onboarding_key other) state db sound),
  rw
      (
        ← onboarding_key-eq user other,
        clear_onboarding_state_eq user db sound,
        get_setting_eq (onboarding_key other)
            (record db { settings = delete (λ s. s.key == onboarding_key user) db.settings }) sound,
        get_setting_eq (onboarding_key other) db sound,
        first-delete_key (λ (s : Setting). s.key) (onboarding_key user) (onboarding_key other)
            db.settings,
      )
      (ground arith),
)

load_mux_session_eq :
    (id : String) (db : Db)
    → db.fault ≡ none
    → (load_mux_session id db).1
      ≡ ok (
          Option.map
            (λ s. (s.messages_json, s.system_prompt))
            (query_row (λ s. s.session_id == id) db.mux_sessions))
unfolding load_mux_session query
load_mux_session_eq id db sound = ground arith

abbrev saved_row : String → String → Option String → String → MuxRow
saved_row id messages prompt now = record {
  session_id = id;
  messages_json = messages;
  system_prompt = prompt;
  created_at = now;
  updated_at = now;
}

abbrev resave : String → Option String → String → MuxRow → MuxRow
resave messages prompt now s = record s {
  messages_json = messages;
  system_prompt = prompt;
  updated_at = now;
}

save_mux_session_eq :
    (id messages : String) (prompt : Option String) (now : String) (db : Db)
    → db.fault ≡ none
    → (save_mux_session id messages prompt now db).0 ≡ record db {
      mux_sessions =
          upsert
            (λ s. s.session_id == id)
            (resave messages prompt now)
            (saved_row id messages prompt now)
            db.mux_sessions;
    }
unfolding save_mux_session execute
save_mux_session_eq id messages prompt now db sound = ground arith

delete_mux_session_eq :
    (id : String) (db : Db)
    → db.fault ≡ none
    → (delete_mux_session id db).0
      ≡ record db { mux_sessions = delete (λ s. s.session_id == id) db.mux_sessions }
unfolding delete_mux_session execute
delete_mux_session_eq id db sound = ground arith

-- Over a sound connection, a saved mux session is loaded with its last messages and prompt, a
-- deleted one is not found, and no other session changes.
pub load_mux_session-writes :
    (id other messages : String) (prompt : Option String) (now : String) (db : Db)
    → db.fault ≡ none
    → ((load_mux_session other (save_mux_session id messages prompt now db).0).1
        ≡ (if id == other then ok (some (messages, prompt)) else (load_mux_session other db).1))
      × ((load_mux_session other (delete_mux_session id db).0).1
          ≡ (if id == other then ok none else (load_mux_session other db).1))
load_mux_session-writes id other messages prompt now db sound = (
  rw
      (
        save_mux_session_eq id messages prompt now db sound,
        load_mux_session_eq other
            (record db {
              mux_sessions =
                  upsert (λ s. s.session_id == id) (resave messages prompt now)
                    (saved_row id messages prompt now) db.mux_sessions;
            })
            sound,
        load_mux_session_eq other db sound,
        first-upsert (λ (s : MuxRow). s.session_id) id other (resave messages prompt now)
            (saved_row id messages prompt now) refl (λ s. refl) db.mux_sessions,
      )
      (ground arith),
  rw
      (
        delete_mux_session_eq id db sound,
        load_mux_session_eq other
            (record db { mux_sessions = delete (λ s. s.session_id == id) db.mux_sessions }) sound,
        load_mux_session_eq other db sound,
        first-delete_key (λ (s : MuxRow). s.session_id) id other db.mux_sessions,
      )
      (ground arith),
)

any-is_some :
    (id : String) (rows : List MuxRow)
    → any (λ s. s.session_id == id) rows ≡ is_some (query_row (λ s. s.session_id == id) rows)
any-is_some id [] = refl
any-is_some id (s ∷ rows) = ground (arith, any-is_some id rows)

-- `mux_session_exists` says whether `load_mux_session` finds the session, when the latter answers.
pub mux_session_exists-load :
    (id : String) (db : Db) (found : Option (String × Option String))
    → (load_mux_session id db).1 ≡ ok found
    → (mux_session_exists id db).1 ≡ ok (is_some found)
unfolding load_mux_session mux_session_exists query
mux_session_exists-load id db found h = ground (arith, any-is_some id db.mux_sessions)
