-- ===== src/Session/Tasks/Status.antt =====
-- The text of a task status, gorp-core/src/session.rs, lines 71-94.
use gorp_rs.Base.{String, false, ◌≡◌, ◌≢◌, ◌↔◌, refl, ok, ◌==◌, eq_iff, arith}
use gorp_rs.Session.Tasks.{
  DispatchTaskStatus, pending, in_progress, completed, failed, to_string, from_str,
}

from_str_sound : (s : String) (t : DispatchTaskStatus) → from_str s ≡ ok t → s ≡ to_string t
unfolding from_str to_string
from_str_sound s pending h =
    ground
      (arith, eq_iff s "pending", eq_iff s "in_progress", eq_iff s "completed", eq_iff s "failed")
from_str_sound s _ h =
    ground
      (arith, eq_iff s "pending", eq_iff s "in_progress", eq_iff s "completed", eq_iff s "failed")

pub from_str-to_string : (t : DispatchTaskStatus) → from_str (to_string t) ≡ ok t
unfolding from_str to_string
from_str-to_string pending = refl
from_str-to_string _ = refl

-- Reading a status accepts exactly the texts that printing one gives, and gives that status back.
pub from_str_iff : (s : String) (t : DispatchTaskStatus) → (from_str s ≡ ok t) ↔ (s ≡ to_string t)
from_str_iff s t = (from_str_sound s t, λ e. rw e (from_str-to_string t))

-- Two statuses with the same text are the same.
pub to_string_ne : (s t : DispatchTaskStatus) → s ≢ t → (to_string s == to_string t) ≡ false
unfolding to_string
to_string_ne pending pending h = absurd (h refl)
to_string_ne pending _ h = refl
to_string_ne in_progress in_progress h = absurd (h refl)
to_string_ne in_progress _ h = refl
to_string_ne completed completed h = absurd (h refl)
to_string_ne completed _ h = refl
to_string_ne failed failed h = absurd (h refl)
to_string_ne failed _ h = refl
