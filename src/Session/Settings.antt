-- ===== src/Session/Settings.antt =====
-- gorp-core/src/session.rs, lines 562-590 and 794-901: the tables `settings` and `mux_sessions`.
pub mod Laws
use gorp_rs.Base.{String, Bool, ◌==◌, List, Option, none, some, ok, any}
use mathlib.Core.Option
use gorp_rs.Text.{◌^^◌}
use gorp_rs.Sql.{upsert, delete, query_row}
use gorp_rs.Database.{Db, Setting, MuxRow, Op, execute, query}

unfoldable pub get_setting : String → Op (Option String)
get_setting key =
    query λ db. ok (Option.map (λ s. s.value) (query_row (λ s. s.key == key) db.settings))

unfoldable pub set_setting : String → String → Op (Unit {0})
set_setting key value = execute λ db. ok (record db {
  settings =
      upsert (λ s. s.key == key) (λ s. record s { value = value })
        (record { key = key; value = value }) db.settings;
})

abbrev pub onboarding_key : String → String
onboarding_key user_id = "onboarding:" ^^ user_id

unfoldable pub get_onboarding_state : String → Op (Option String)
unfolding get_setting
get_onboarding_state user_id = get_setting (onboarding_key user_id)

unfoldable pub set_onboarding_state : String → String → Op (Unit {0})
unfolding set_setting
set_onboarding_state user_id state_json = set_setting (onboarding_key user_id) state_json

unfoldable pub clear_onboarding_state : String → Op (Unit {0})
clear_onboarding_state user_id =
    execute
      λ db. ok (record db { settings = delete (λ s. s.key == onboarding_key user_id) db.settings })

-- `now` is the time of the call.
unfoldable pub save_mux_session : String → String → Option String → String → Op (Unit {0})
save_mux_session session_id messages_json system_prompt now = execute λ db. ok (record db {
  mux_sessions =
      upsert (λ s. s.session_id == session_id)
        (λ s. record s {
          messages_json = messages_json;
          system_prompt = system_prompt;
          updated_at = now;
        })
        (record {
          session_id = session_id;
          messages_json = messages_json;
          system_prompt = system_prompt;
          created_at = now;
          updated_at = now;
        })
        db.mux_sessions;
})

unfoldable pub load_mux_session : String → Op (Option (String × Option String))
load_mux_session session_id = query λ db. ok (
    Option.map (λ s. (s.messages_json, s.system_prompt))
      (query_row (λ s. s.session_id == session_id) db.mux_sessions))

unfoldable pub delete_mux_session : String → Op (Unit {0})
delete_mux_session session_id =
    execute λ db.
      ok (record db { mux_sessions = delete (λ s. s.session_id == session_id) db.mux_sessions })

unfoldable pub mux_session_exists : String → Op Bool
mux_session_exists session_id =
    query λ db. ok (any (λ s. s.session_id == session_id) db.mux_sessions)
