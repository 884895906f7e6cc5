-- ===== src/Webhooks/Examples.antt =====
-- The webhooks' theorems at a small receiver: one signed subscription, and the delivery of a merge.

use pcomirror.Prelude.{true, false, none, some, [], ◌∷◌, ◌≡◌, refl, if◌then◌else◌, strip}
use pcomirror.Result.{ok}
use pcomirror.Registry.{by_table}
use pcomirror.Store.{select}
use pcomirror.Writer.Ops.{is_table}
use pcomirror.Writer.Tombstone.{tombstone}
use pcomirror.Webhooks.State.{pending, dead, unparseable_payload, Event, Db, same_key}
use pcomirror.Webhooks.Subscriptions.{is_unverified}
use pcomirror.Webhooks.Sender.{verify}
use pcomirror.Webhooks.Receive.{receive}
use pcomirror.Webhooks.Process.{process_event, payload_of}
use pcomirror.Webhooks.Merger.{
  handle_merge, merge_of, id_of, number_text, attributes_of, merger_key, apply_merge, merger_is_new,
  bury_gone, queue_survivor,
}
use pcomirror.Webhooks.Hydration.{enqueue_hydration}
use pcomirror.Webhooks.Drain.{drain}
use pcomirror.Webhooks.Verdict.{readable, IsDecided}
use pcomirror.Webhooks.Captured.{Appends, IsFresh, receive-Appends}
use pcomirror.Webhooks.Authentic.{IsRefusal, receive-unauthenticated}
use pcomirror.Webhooks.Attempts.{
  at, Trace, here, next, receives, drains, find_event, process_event-IsDecided,
}
use pcomirror.Webhooks.Drain.{retry_dead_letters}
use pcomirror.Webhooks.Revivals.{has_dead, retry_dead_letters-revives}
use pcomirror.Webhooks.Replays.{handle_merge-again}
use pcomirror.Webhooks.Samples.{env, merge, world, event, empty, waiting}

receive-unauthenticated_example :
    ((receive world "token-of-this-church" "body" (some "forged") none none empty).0 ≡ empty)
    × IsRefusal (receive world "token-of-this-church" "body" (some "forged") none none empty).1
unfolding is_unverified verify strip
receive-unauthenticated_example =
    receive-unauthenticated world "token-of-this-church" "body" (some "forged") none none empty
      ((λ e. (refl, refl)), tt)

receive-Appends_example :
    Appends
      (IsFresh world)
      []
      (receive world "token-of-this-church" "body" (some "secret") none none empty).0.events
receive-Appends_example =
    receive-Appends world "token-of-this-church" "body" (some "secret") none none empty

event-IsReadable : readable world "merge" ≡ true
unfolding readable payload_of
event-IsReadable = refl

-- The delivery arrives, and is processed.
abbrev after_delivery : Db
after_delivery =
    (receive (at world env world.later) "token-of-this-church" "body" (some "secret") none none
      empty).0

abbrev after_drain : Db
after_drain = (drain (at world env world.later) 500 after_delivery).0

abbrev trace : Trace world empty after_drain
trace =
    next
      (next here (receives env world.later "token-of-this-church" "body" (some "secret") none none))
      (drains env world.later 500)

process_event-IsDecided_example :
    (e : Event) × (find_event "e1" (process_event world event waiting).0.events ≡ some e)
    × IsDecided event e
unfolding same_key
process_event-IsDecided_example =
    process_event-IsDecided world event "e1" waiting refl event-IsReadable refl

abbrev merged_db : Db
merged_db = (handle_merge world merge empty).0

merge_applies : handle_merge world merge empty ≡ (merged_db, ok tt)
unfolding handle_merge merge_of id_of number_text attributes_of merger_key apply_merge merger_is_new
    bury_gone queue_survivor enqueue_hydration select tombstone is_table by_table
merge_applies = refl

handle_merge-again_example :
    handle_merge (at world env world.later) merge merged_db ≡ (merged_db, ok tt)
handle_merge-again_example =
    handle_merge-again world env world.later merge empty merged_db merge_applies

abbrev buried : Event
buried = record event { status = dead; process_attempts = 7; last_error = some unparseable_payload }

abbrev mourning : Db
mourning = record empty {
  events = buried ∷ [];
  dead_letters =
      record {
        event_id = some "e1";
        event_name = "people.v2.events.person_merger.created";
        payload = "merge";
        last_error = unparseable_payload;
        attempts = 8;
      }
      ∷ [];
}

retry_dead_letters-revives_example :
    (has_dead "e1" (retry_dead_letters mourning).0.dead_letters ≡ false)
    × (find_event "e1" (retry_dead_letters mourning).0.events
        ≡ some (
            if has_dead "e1" mourning.dead_letters
            then record buried {
              status = pending;
              process_attempts = 0;
              next_attempt_at = none;
              last_error = none;
            }
            else buried))
unfolding same_key
retry_dead_letters-revives_example = retry_dead_letters-revives "e1" mourning buried refl
