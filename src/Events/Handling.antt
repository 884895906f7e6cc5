-- ===== src/Events/Handling.antt =====
-- pcoevents.py: `handling`, without its sentence of explanation.
use pcomirror.Prelude.{String, Option, none, some, ◌==◌, if◌then◌else◌}
use pcomirror.Registry.{Resource, by_event_resource}
use pcomirror.Webhooks.Subscriptions.{parse_event_name}

pub data Verdict : Type 0 where
  merge recorded mirrored : Verdict

unfoldable pub verdict_of : Option Resource → Verdict
verdict_of none = recorded
verdict_of (some r) = mirrored

unfoldable pub handling : String → Verdict
unfolding verdict_of
handling name =
    let resource = (parse_event_name name).0 in
    if resource == "person_merger" then merge else verdict_of (by_event_resource resource)
