-- ===== src/Tests/Manager.antt =====
-- The registry of sessions at concrete inputs.
use gopbx.Prelude.{text_eq, refl, Bool, ◌≡◌, List, [], ◌∷◌, none, some, codes, get_elem?}
use gopbx.Session.State.{websocket, disconnect, CloseInfo, Session, new_session}
use gopbx.Session.Manager.{Manager, new_manager, create, find, cleanup, list_sessions, Summary}
use gopbx.Session.OrderLaws.{Ordered, count_if, count_open, list_sessions-Sorted}
use gopbx.Session.ManagerLaws.{stale_cleanup}
use gopbx.Session.Lifecycle.{activates}
use gopbx.Session.Registry.{RegistryEvent, creates, acts, registry_run}
use gopbx.Session.RegistryLaws.{different, WellNamed, reached-WellNamed}
use gopbx.Session.Track.{format_track_seq}
use gopbx.Gateway.Admin.{handle_list_calls, handle_kill_call}
use gopbx.Gateway.AdminLaws.{times, kill-for_good}

abbrev gone : CloseInfo
gone = record { cause = disconnect; reason = []; initiator = []; err = [] }

abbrev first : Session
first = new_session (codes "a") websocket none 3

abbrev registry : Manager
registry = record { heap = first ∷ []; sessions = (codes "a", 0) ∷ [] }

list_sessions-Sorted_example :
    Ordered (list_sessions registry)
    × ((test : Summary → Bool)
        → count_if test (list_sessions registry) ≡ count_open test registry.heap registry.sessions)
list_sessions-Sorted_example = list_sessions-Sorted registry

stale_cleanup_example :
    let (m1, one) = create new_manager (codes "a") websocket none 0 in
    let (m2, two) = create m1 (codes "a") websocket none 5 in
    let after = (cleanup m2 (some one) gone 9).0 in
    (find m2 (codes "a") ≡ some two)
    × (find after (codes "a") ≡ none)
    × (get_elem? after.heap two ≡ some (new_session (codes "a") websocket none 5))
stale_cleanup_example = stale_cleanup new_manager (codes "a") websocket none 0 5 9 gone

-- Two calls are registered, and then a third under the identifier of the second.
abbrev two_calls : List RegistryEvent
two_calls = creates (codes "a") websocket none 3 ∷ creates (codes "b") websocket none 4 ∷ []

abbrev later_events : List RegistryEvent
later_events = acts 0 activates ∷ creates (codes "b") websocket none 7 ∷ []

reached-WellNamed_example : WellNamed (registry_run new_manager two_calls)
reached-WellNamed_example = reached-WellNamed two_calls

kill-for_good_example :
    let m = registry_run new_manager two_calls in
    times (codes "a") (
      handle_list_calls format_track_seq
        (registry_run (handle_kill_call m (codes "a")).0 later_events))
    ≡ 0
unfolding text_eq
kill-for_good_example =
    kill-for_good format_track_seq two_calls later_events (codes "a")
      (tt, (different (codes "b") (codes "a") refl, tt))
