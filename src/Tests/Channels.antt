-- ===== src/Tests/Channels.antt =====
-- The channels of gorp-core/src/session.rs on concrete rows.
use gorp_rs.Base.{true, ◌≡◌, refl, ◌⊎◌, [], ◌∷◌, some, ok, err, message}
use gorp_rs.Text.{contains, join}
use gorp_rs.Database.{Db, empty_db, execute, query}
use gorp_rs.Session.Files.{provision}
use gorp_rs.Session.Channels.{
  Outcome, create_channel, get_by_name, get_by_room, insert_channel, mark_started, new_channel,
  reset_orphaned_session, update_session_id, validate_name, validated,
}
use gorp_rs.Session.Channels.Laws.{args_of, args_of-lifecycle, with_channels}
use gorp_rs.Session.Channels.Creation.{
  create_channel-found, create_channel-fails, create_channel-retry,
}
use gorp_rs.Session.Channels.Reachable.{opened, then_write, created, Reachable-HasKeys}
use gorp_rs.Session.Channels.Keys.{HasKeys}
use gorp_rs.Session.Dispatch.{get_or_create_dispatch_channel, dispatch_row}
use gorp_rs.Session.Dispatch.Laws.{dispatch_in, get_or_create-dispatch_in, get_or_create_ordinary}
use gorp_rs.Tests.{letters, disk, full_disk, pa, stored_db}

abbrev made : Outcome disk
made = create_channel disk letters "/w" "PA" "!pa" "s1" "now" (empty_db true) []

found_example :
    (new_channel letters "/w" "PA" "!pa" "s1" "now"
      ≡ new_channel letters "/w" "PA" "!pa" "s1" "now")
    × ((new_channel letters "/w" "PA" "!pa" "s1" "now").channel_name ≡ letters.to_lowercase "PA")
    × ((get_by_room "!pa" made.0).1 ≡ ok (some (new_channel letters "/w" "PA" "!pa" "s1" "now")))
    × ((get_by_name letters "pa" made.0).1
        ≡ ok (some (new_channel letters "/w" "PA" "!pa" "s1" "now")))
unfolding create_channel validate_name execute provision join contains
found_example =
    create_channel-found disk letters "/w" "PA" "!pa" "s1" "now" (empty_db true) refl []
      (new_channel letters "/w" "PA" "!pa" "s1" "now") "pa" refl refl

abbrev unmade : Outcome full_disk
unmade = create_channel full_disk letters "/w" "PA" "!pa" "s1" "now" (empty_db true) []

fails_example :
    (unmade.0 ≡ empty_db true)
    ⊎ ((unmade.0
          ≡ with_channels (new_channel letters "/w" "PA" "!pa" "s1" "now" ∷ []) (empty_db true))
        × ((provision full_disk "/w" "/w/pa" []).1 ≡ err (message "disk full")))
unfolding create_channel validate_name execute provision
fails_example =
    create_channel-fails full_disk letters "/w" "PA" "!pa" "s1" "now" (empty_db true) refl []
      (message "disk full") refl

retry_example :
    (unmade.2 ≡ err (message "disk full"))
    × ((create_channel full_disk letters "/w" "PA" "!pa" "s2" "later" unmade.0 []).2
        ≡ err (message "Channel name or room already exists"))
unfolding validate_name provision
retry_example =
    create_channel-retry full_disk letters "/w" "PA" "!pa" "s1" "now" (empty_db true) []
      (message "disk full") "s2" "later" [] refl refl refl refl

lifecycle_example :
    (args_of "!pa" (mark_started "!pa" stored_db).0 ≡ ok (some ("--resume" ∷ "s1" ∷ [])))
    × (args_of "!pa" (reset_orphaned_session "s2" "!pa" stored_db).0
        ≡ ok (some ("--session-id" ∷ "s2" ∷ [])))
    × (args_of "!pa" (update_session_id "!pa" "s2" stored_db).0
        ≡ ok (some ("--session-id" ∷ "s2" ∷ [])))
unfolding get_by_room query validated contains
lifecycle_example = args_of-lifecycle "!pa" "!pa" "s2" stored_db (some pa) refl refl

abbrev twice : Db
twice = (create_channel disk letters "/w" "PA" "!other" "s2" "now" made.0 []).0

keys_example : HasKeys twice
keys_example = Reachable-HasKeys twice (
    then_write made.0 twice
      (then_write (empty_db true) made.0 (opened true)
        (created disk letters "/w" "PA" "!pa" "s1" "now" (empty_db true) []))
      (created disk letters "/w" "PA" "!other" "s2" "now" made.0 []))

-- Another thread creates the channel between the look-up and the INSERT.
abbrev race : Db → Db
race db = record db { channels = dispatch_row "!d" "s9" "now" ∷ [] }

dispatch_example :
    dispatch_in "!d"
      (get_or_create_dispatch_channel race (λ d. d) "!d" "s1" "now" (empty_db true)).0
    ≡ some (dispatch_row "!d" "s9" "now")
unfolding get_or_create_dispatch_channel query insert_channel execute
dispatch_example =
    get_or_create-dispatch_in race (λ d. d) "!d" "s1" "now" (empty_db true) refl refl refl
      (dispatch_row "!d" "s9" "now") refl

ordinary_example :
    get_or_create_dispatch_channel (λ d. d) (λ d. d) "!pa" "s1" "now" stored_db
    ≡ (stored_db, err (message "Channel disappeared after UNIQUE constraint error"))
ordinary_example = get_or_create_ordinary "!pa" "s1" "now" stored_db refl refl refl
