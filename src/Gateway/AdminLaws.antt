-- ===== src/Gateway/AdminLaws.antt =====
-- inbound/http/admin_handler.go: what a kill changes of the list of calls.
use gopbx.Prelude.{
  All, ℕ, ◌+◌, ◌≡◌, ◌≢◌, refl, sym, ap, ◌∙◌, List, [], ◌∷◌, Text, map, text_eq, if◌then◌else◌,
}
use gopbx.Session.Manager.{new_manager, Summary, list_sessions}
use gopbx.Session.OrderLaws.{count_if}
use gopbx.Session.Registry.{RegistryEvent, kills, registry_run, registry_step}
use gopbx.Session.RegistryLaws.{reached-WellNamed, registry_step-WellNamed}
use gopbx.Session.Listing.{named, kill_session-listed}
use gopbx.Session.GoneLaws.{Spares, registry_run-Gone, kill_session-Gone}
use gopbx.Gateway.Admin.{CallItem, item, handle_list_calls, handle_kill_call}

-- How often an identifier stands in an answer.
abbrev pub times : Text → List CallItem → ℕ
times id [] = 0
times id (call ∷ calls) = (if text_eq call.id id then 1 else 0) + times id calls

times-item :
    (format_time : ℕ → Text) (id : Text) (summaries : List Summary)
    → times id (map (item format_time) summaries) ≡ count_if (named id) summaries
times-item format_time id [] = refl
times-item format_time id (s ∷ summaries) =
    ap (λ n. (if text_eq s.id id then 1 else 0) + n) (times-item format_time id summaries)

-- However the calls of the gateway have run, and whatever happened to their sessions: after the forced end of
-- a call, the list does not have its identifier, and has every other as often as before.
kill-list :
    (format_time : ℕ → Text) (events : List RegistryEvent) (id : Text)
    → let m = registry_run new_manager events in
      let after = (handle_kill_call m id).0 in
      (times id (handle_list_calls format_time after) ≡ 0)
      × ((other : Text)
          → id ≢ other
          → times other (handle_list_calls format_time after)
            ≡ times other (handle_list_calls format_time m))
unfolding handle_list_calls handle_kill_call
kill-list format_time events id =
    let m = registry_run new_manager events in
    let (gone, others) = kill_session-listed m id (reached-WellNamed events) in
    let after = (handle_kill_call m id).0 in
    (
      times-item format_time id (list_sessions after) ∙ gone,
      (λ other n.
          times-item format_time other (list_sessions after)
          ∙ others other n
          ∙ sym (times-item format_time other (list_sessions m))),
    )

-- A call that was killed is not listed again, whatever happens, until one is registered under its identifier.
pub kill-for_good :
    (format_time : ℕ → Text) (events later : List RegistryEvent) (id : Text)
    → All (Spares id) later
    → let m = registry_run new_manager events in
      times id (handle_list_calls format_time (registry_run (handle_kill_call m id).0 later)) ≡ 0
unfolding handle_list_calls handle_kill_call registry_run registry_step
kill-for_good format_time events later id spared =
    let m = registry_run new_manager events in
    let killed = (handle_kill_call m id).0 in
    times-item format_time id (list_sessions (registry_run killed later))
    ∙ registry_run-Gone id killed later
        (registry_step-WellNamed m (kills id) (reached-WellNamed events)) spared
        (kill_session-Gone id m)
