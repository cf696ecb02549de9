-- ===== src/Session/GoneLaws.antt =====
-- manager.go and session.go: a call that is hidden from the list stays so.
use gopbx.Prelude.{
  get_elem?-set_self, length, ℕ, zero, suc, ◌≡◌, ◌≢◌, refl, sym, ap, ◌∙◌, false, List, [], ◌∷◌,
  ◌++◌, Option, none, some, Text, All, text_eq, text_eq_iff, arith, get_elem?, set, Bool-cases, inl,
  inr,
}
use gopbx.Protocol.Command.{CallOption}
use gopbx.Session.State.{CallType, new_session, Session, CloseInfo, visible_in_list, finalize}
use gopbx.Session.Manager.{
  Manager, lookup, remove, create, find, delete, update, kill_session, kill_found, cleanup,
  cleanup_found, request_kill,
}
use gopbx.Session.Lifecycle.{Op, step}
use gopbx.Session.ManagerLaws.{
  get_elem?-bound, remove-lookup_self, remove-lookup_other, text_ne, request_close-hidden,
}
use gopbx.Session.Registry.{
  RegistryEvent, creates, kills, cleans, acts, registry_step, registry_run,
}
use gopbx.Session.RegistryLaws.{id_at, WellNamed, different, registry_step-WellNamed}
use gopbx.Session.Listing.{
  one_place-Hidden, else_some, Hidden, listed, listed-visible, lookup-id_at, visible-none,
  none≢some, some_injective,
}

-- An identifier whose session, if it has one, is hidden.
abbrev pub Gone : Text → Manager → Type 0
Gone id m = (p : ℕ) → lookup id m.sessions ≡ some p → Hidden m.heap p

-- An event that registers no call under an identifier.
abbrev pub Spares : Text → RegistryEvent → Type 0
Spares id (creates other typ option now) = other ≢ id
Spares id _ = Unit

step-hides :
    (s : Session) (op : Op) → visible_in_list s ≡ false → visible_in_list (step s op).0 ≡ false
unfolding step visible_in_list
step-hides s op h = ground arith

finalize-hides :
    (s : Session) (info : CloseInfo) (now : ℕ)
    → visible_in_list s ≡ false
    → visible_in_list (finalize s info now).0 ≡ false
unfolding finalize visible_in_list
finalize-hides s info now h = ground arith

get_elem?-append :
    (heap : List Session) (t : Session) (p : ℕ) (id : Text)
    → id_at heap p ≡ some id
    → get_elem? (heap ++ t ∷ []) p ≡ get_elem? heap p
get_elem?-append [] t p id e = cc
get_elem?-append (x ∷ heap) t zero id e = refl
get_elem?-append (x ∷ heap) t (suc p) id e = get_elem?-append heap t p id e

set-Hidden :
    (heap : List Session) (place p : ℕ) (s t : Session)
    → get_elem? heap place ≡ some s
    → (visible_in_list s ≡ false → visible_in_list t ≡ false)
    → Hidden heap p
    → Hidden (set heap place t) p
set-Hidden [] place p s t e f h = h
set-Hidden (x ∷ heap) zero zero s t e f h =
    λ u g. ap visible_in_list (sym (some_injective g)) ∙ f (h s e)
set-Hidden (x ∷ heap) zero (suc p) s t e f h = h
set-Hidden (x ∷ heap) (suc place) zero s t e f h = h
set-Hidden (x ∷ heap) (suc place) (suc p) s t e f h = set-Hidden heap place p s t e f h

update-Gone :
    (id : Text) (m : Manager) (place : ℕ) (f : Session → Session) (o : Option Session)
    → get_elem? m.heap place ≡ o
    → ((s : Session) → visible_in_list s ≡ false → visible_in_list (f s) ≡ false)
    → Gone id m
    → Gone id (update m place f o)
update-Gone id m place f none e hides h = h
update-Gone id m place f (some s) e hides h =
    λ p g. set-Hidden m.heap place p s (f s) e (hides s) (h p g)

remove-found :
    (id key : Text) (entries : List (Text × ℕ)) (p : ℕ)
    → lookup id (remove key entries) ≡ some p
    → lookup id entries ≡ some p
remove-found id key entries p e = elim (Bool-cases (text_eq key id)) [
  | inl t ↦
      let none_left =
        ap (λ k. lookup k (remove key entries)) (sym ((text_eq_iff key id).0 t))
        ∙ remove-lookup_self key entries in
      absurd (none≢some (sym none_left ∙ e))
  | inr t ↦ sym (remove-lookup_other key id entries (different key id t)) ∙ e
]

create-Gone :
    (id other : Text) (m : Manager) (typ : CallType) (option : Option CallOption) (now : ℕ)
    → WellNamed m
    → other ≢ id
    → Gone id m
    → Gone id (create m other typ option now).0
unfolding create
create-Gone id other m typ option now w n h = λ p g s e.
    let fresh = new_session other typ option now in
    let found = remove-found id other m.sessions p (
      sym (else_some other id (length m.heap) (remove other m.sessions) (text_ne other id n))
      ∙ g) in
    let there = lookup-id_at m.heap id p m.sessions w.entries found in
    h p found s (sym (get_elem?-append m.heap fresh p id there) ∙ e)

kill_found-Gone : (id : Text) (m : Manager) (o : Option ℕ) → Gone id m → Gone id (kill_found m o).0
kill_found-Gone id m none h = h
kill_found-Gone id m (some place) h =
    update-Gone id m place request_kill (get_elem? m.heap place) refl
      (λ s e. request_close-hidden s) h

delete-Gone : (id key : Text) (m : Manager) → Gone id m → Gone id (delete m key)
unfolding delete
delete-Gone id key m h = λ p g. h p (remove-found id key m.sessions p g)

cleanup_found-Gone :
    (id : Text) (m : Manager) (place : ℕ) (o : Option Session) (info : CloseInfo) (now : ℕ)
    → get_elem? m.heap place ≡ o
    → Gone id m
    → Gone id (cleanup_found m place o info now).0
unfolding cleanup_found
cleanup_found-Gone id m place none info now e h = h
cleanup_found-Gone id m place (some s) info now e h =
    let f : Session → Session = λ t. (finalize t info now).0 in
    delete-Gone id s.id (update m place f (some s))
      (update-Gone id m place f (some s) e (λ t. finalize-hides t info now) h)

cleanup-Gone :
    (id : Text) (m : Manager) (place : Option ℕ) (info : CloseInfo) (now : ℕ)
    → Gone id m
    → Gone id (cleanup m place info now).0
unfolding cleanup
cleanup-Gone id m none info now h = h
cleanup-Gone id m (some place) info now h =
    cleanup_found-Gone id m place (get_elem? m.heap place) info now refl h

registry_step-Gone :
    (id : Text) (m : Manager) (event : RegistryEvent)
    → WellNamed m
    → Spares id event
    → Gone id m
    → Gone id (registry_step m event)
unfolding registry_step kill_session
registry_step-Gone id m (creates other typ option now) w n h =
    create-Gone id other m typ option now w n h
registry_step-Gone id m (kills key) w n h = kill_found-Gone id m (find m key) h
registry_step-Gone id m (cleans place info now) w n h = cleanup-Gone id m place info now h
registry_step-Gone id m (acts place op) w n h =
    update-Gone id m place (λ s. (step s op).0) (get_elem? m.heap place) refl (λ s. step-hides s op)
      h

-- An identifier that is not listed stays so until a call is registered under it.
pub registry_run-Gone :
    (id : Text) (m : Manager) (events : List RegistryEvent)
    → WellNamed m
    → All (Spares id) events
    → Gone id m
    → listed id (registry_run m events) ≡ 0
unfolding registry_run
registry_run-Gone id m [] w n h =
    listed-visible id m ∙ visible-none m.heap id m.sessions w.entries w.once h
registry_run-Gone id m (event ∷ events) w n h =
    registry_run-Gone id (registry_step m event) events (registry_step-WellNamed m event w) n.1
      (registry_step-Gone id m event w n.0 h)

killed-Gone :
    (id : Text) (m : Manager) (place : ℕ) (o : Option Session)
    → lookup id m.sessions ≡ some place
    → get_elem? m.heap place ≡ o
    → Gone id (update m place request_kill o)
killed-Gone id m place none f e =
    λ p g. one_place-Hidden m.heap p place (some_injective (sym g ∙ f)) none e tt
killed-Gone id m place (some s) f e =
    let t = request_kill s in
    let put = get_elem?-set_self m.heap place t (get_elem?-bound m.heap place s e) in
    λ p g.
      one_place-Hidden (set m.heap place t) p place (some_injective (sym g ∙ f)) (some t) put
        (request_close-hidden s)

killed_found-Gone :
    (id : Text) (m : Manager) (o : Option ℕ) → lookup id m.sessions ≡ o → Gone id (kill_found m o).0
killed_found-Gone id m none f = λ p g. absurd (none≢some (sym f ∙ g))
killed_found-Gone id m (some place) f = killed-Gone id m place (get_elem? m.heap place) f refl

pub kill_session-Gone : (id : Text) (m : Manager) → Gone id (kill_session m id).0
unfolding kill_session find
kill_session-Gone id m = killed_found-Gone id m (find m id) refl
