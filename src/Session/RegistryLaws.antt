-- ===== src/Session/RegistryLaws.antt =====
-- manager.go: the registry under any sequence of the goroutines' steps. Every identifier in it names one
-- session, which has this identifier.
use gopbx.Prelude.{
  ℕ, zero, suc, ◌≡◌, ◌≢◌, refl, sym, ap, ◌∙◌, false, List, [], ◌∷◌, ◌++◌, Option, none, some, Text,
  text_eq, text_eq_iff, length, arith, get_elem?, set, All, Bool-cases, inl, inr, if_intro,
}
use gopbx.Protocol.Command.{CallOption}
use gopbx.Session.State.{CallType, new_session, Session, CloseInfo, request_close, finalize}
use gopbx.Session.Manager.{
  Manager, new_manager, lookup, remove, create, find, delete, update, kill_session, cleanup,
  cleanup_found, kill_found, request_kill,
}
use gopbx.Session.Lifecycle.{Op, step}
use gopbx.Session.ManagerLaws.{remove-lookup_self, remove-lookup_other}
use gopbx.Session.Registry.{
  RegistryEvent, creates, kills, cleans, acts, registry_step, registry_run,
}

-- The identifier of the session at a place.
abbrev pub id_at : List Session → ℕ → Option Text
id_at [] p = none
id_at (s ∷ heap) zero = some s.id
id_at (s ∷ heap) (suc p) = id_at heap p

abbrev pub Entries : List Session → List (Text × ℕ) → Type 0
Entries heap = All (λ entry. id_at heap entry.1 ≡ some entry.0)

abbrev pub Once : List (Text × ℕ) → Type 0
Once [] = Unit
Once ((key, place) ∷ rest) = (lookup key rest ≡ none) × Once rest

pub record WellNamed (m : Manager) : Type 0 where
  pub entries : Entries m.heap m.sessions
  pub once : Once m.sessions

id_at-set :
    (heap : List Session) (i p : ℕ) (s t : Session)
    → get_elem? heap i ≡ some s
    → t.id ≡ s.id
    → id_at (set heap i t) p ≡ id_at heap p
id_at-set [] i p s t e h = refl
id_at-set (x ∷ heap) zero zero s t e h = cc
id_at-set (x ∷ heap) zero (suc p) s t e h = refl
id_at-set (x ∷ heap) (suc i) zero s t e h = refl
id_at-set (x ∷ heap) (suc i) (suc p) s t e h = id_at-set heap i p s t e h

pub id_at-append :
    (heap : List Session) (t : Session) (p : ℕ) (id : Text)
    → id_at heap p ≡ some id
    → id_at (heap ++ t ∷ []) p ≡ some id
id_at-append [] t p id e = cc
id_at-append (x ∷ heap) t zero id e = e
id_at-append (x ∷ heap) t (suc p) id e = id_at-append heap t p id e

id_at-last : (heap : List Session) (t : Session) → id_at (heap ++ t ∷ []) (length heap) ≡ some t.id
id_at-last [] t = refl
id_at-last (x ∷ heap) t = id_at-last heap t

Entries-map :
    (heap later : List Session) (entries : List (Text × ℕ))
    → ((p : ℕ) (id : Text) → id_at heap p ≡ some id → id_at later p ≡ some id)
    → Entries heap entries
    → Entries later entries
Entries-map heap later [] f h = tt
Entries-map heap later ((key, place) ∷ rest) f h =
    (f place key h.0, Entries-map heap later rest f h.1)

remove-Entries :
    (heap : List Session) (id : Text) (entries : List (Text × ℕ))
    → Entries heap entries
    → Entries heap (remove id entries)
unfolding remove
remove-Entries heap id [] h = tt
remove-Entries heap id ((key, place) ∷ rest) h =
    let ih = remove-Entries heap id rest h.1 in
    if_intro (Entries heap) (text_eq key id) (λ e. ih) (λ e. (h.0, ih))

pub different : (s t : Text) → text_eq s t ≡ false → s ≢ t
different s t e f = let g = (text_eq_iff s t).1 f in absurd cc

remove-none :
    (id key : Text) (entries : List (Text × ℕ))
    → lookup key entries ≡ none
    → lookup key (remove id entries) ≡ none
unfolding remove
remove-none id key entries h = elim (Bool-cases (text_eq id key)) [
  | inl e ↦
      ap (λ k. lookup k (remove id entries)) (sym ((text_eq_iff id key).0 e))
      ∙ remove-lookup_self id entries
  | inr e ↦ remove-lookup_other id key entries (different id key e) ∙ h
]

remove-Once : (id : Text) (entries : List (Text × ℕ)) → Once entries → Once (remove id entries)
unfolding remove
remove-Once id [] h = tt
remove-Once id ((key, place) ∷ rest) h =
    let ih = remove-Once id rest h.1 in
    if_intro Once (text_eq key id) (λ e. ih) (λ e. (remove-none id key rest h.0, ih))

step-id : (s : Session) (op : Op) → (step s op).0.id ≡ s.id
unfolding step
step-id s op = ground arith

pub kill-id : (s : Session) → (request_kill s).id ≡ s.id
unfolding request_close
kill-id s = ground arith

pub finalize-id : (s : Session) (info : CloseInfo) (now : ℕ) → (finalize s info now).0.id ≡ s.id
unfolding finalize
finalize-id s info now = ground arith

pub set-WellNamed :
    (m : Manager) (place : ℕ) (s t : Session)
    → get_elem? m.heap place ≡ some s
    → t.id ≡ s.id
    → WellNamed m
    → WellNamed (record m { heap = set m.heap place t })
set-WellNamed m place s t e i h = record {
  entries =
      Entries-map m.heap (set m.heap place t) m.sessions
        (λ p id f. id_at-set m.heap place p s t e i ∙ f) h.entries;
  once = h.once;
}

-- A method that keeps the identifier of its session.
update-WellNamed :
    (m : Manager) (place : ℕ) (f : Session → Session) (o : Option Session)
    → ((s : Session) → (f s).id ≡ s.id)
    → get_elem? m.heap place ≡ o
    → WellNamed m
    → WellNamed (update m place f o)
update-WellNamed m place f none i e h = h
update-WellNamed m place f (some s) i e h = set-WellNamed m place s (f s) e (i s) h

delete-WellNamed : (m : Manager) (id : Text) → WellNamed m → WellNamed (delete m id)
unfolding delete
delete-WellNamed m id h = record {
  entries = remove-Entries m.heap id m.sessions h.entries;
  once = remove-Once id m.sessions h.once;
}

create-WellNamed :
    (m : Manager) (id : Text) (typ : CallType) (option : Option CallOption) (now : ℕ)
    → WellNamed m
    → WellNamed (create m id typ option now).0
unfolding create new_session
create-WellNamed m id typ option now h =
    let fresh = new_session id typ option now in
    record {
      entries = (
        id_at-last m.heap fresh,
        remove-Entries (m.heap ++ fresh ∷ []) id m.sessions (
            Entries-map m.heap (m.heap ++ fresh ∷ []) m.sessions
              (λ p key e. id_at-append m.heap fresh p key e) h.entries),
      );
      once = (remove-lookup_self id m.sessions, remove-Once id m.sessions h.once);
    }

kill_found-WellNamed :
    (m : Manager) (place : Option ℕ) → WellNamed m → WellNamed (kill_found m place).0
kill_found-WellNamed m none h = h
kill_found-WellNamed m (some place) h =
    update-WellNamed m place request_kill (get_elem? m.heap place) kill-id refl h

cleanup_found-WellNamed :
    (m : Manager) (place : ℕ) (o : Option Session) (info : CloseInfo) (now : ℕ)
    → get_elem? m.heap place ≡ o
    → WellNamed m
    → WellNamed (cleanup_found m place o info now).0
unfolding cleanup_found
cleanup_found-WellNamed m place none info now e h = h
cleanup_found-WellNamed m place (some s) info now e h =
    let closed = (finalize s info now).0 in
    delete-WellNamed (record m { heap = set m.heap place closed }) s.id
      (set-WellNamed m place s closed e (finalize-id s info now) h)

cleanup-WellNamed :
    (m : Manager) (place : Option ℕ) (info : CloseInfo) (now : ℕ)
    → WellNamed m
    → WellNamed (cleanup m place info now).0
unfolding cleanup
cleanup-WellNamed m none info now h = h
cleanup-WellNamed m (some place) info now h =
    cleanup_found-WellNamed m place (get_elem? m.heap place) info now refl h

pub registry_step-WellNamed :
    (m : Manager) (event : RegistryEvent) → WellNamed m → WellNamed (registry_step m event)
unfolding registry_step kill_session
registry_step-WellNamed m (creates id typ option now) h = create-WellNamed m id typ option now h
registry_step-WellNamed m (kills id) h = kill_found-WellNamed m (find m id) h
registry_step-WellNamed m (cleans place info now) h = cleanup-WellNamed m place info now h
registry_step-WellNamed m (acts place op) h =
    update-WellNamed m place (λ s. (step s op).0) (get_elem? m.heap place) (λ s. step-id s op) refl
      h

pub registry_run-WellNamed :
    (m : Manager) (events : List RegistryEvent) → WellNamed m → WellNamed (registry_run m events)
unfolding registry_run
registry_run-WellNamed m [] h = h
registry_run-WellNamed m (event ∷ events) h =
    registry_run-WellNamed (registry_step m event) events (registry_step-WellNamed m event h)

-- Whatever calls are registered, killed and ended, and whatever methods their sessions get, in any order:
-- every identifier in the registry stands there once, for a session that has it.
pub reached-WellNamed : (events : List RegistryEvent) → WellNamed (registry_run new_manager events)
unfolding new_manager
reached-WellNamed events =
    registry_run-WellNamed new_manager events (record { entries = tt; once = tt })
