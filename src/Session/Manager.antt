-- ===== src/Session/Manager.antt =====
-- manager.go and cleanup.go: the registry of sessions. A session is shared by pointer, so the state is
-- a heap of sessions and a map from identifiers to places on it: one call can put another session under
-- an identifier while the handler of the first still holds the old one.
use gopbx.Prelude.{
  ℕ, Bool, true, false, List, [], ◌∷◌, ◌++◌, Option, none, some, Text, codes, text_eq, ltb, ◌==◌,
  if◌then◌else◌, length, get_elem?, set,
}
use gopbx.Protocol.Command.{CallOption}
use gopbx.Session.State.{
  CallType, Session, CloseInfo, kill, new_session, request_close, finalize, normalize_close_info,
  visible_in_list,
}

-- `heap` is every session that was ever created, `sessions` the manager's map.
pub record Manager : Type 0 where
  pub heap : List Session
  pub sessions : List (Text × ℕ)

unfoldable pub new_manager : Manager
new_manager = record { heap = []; sessions = [] }

abbrev pub lookup : Text → List (Text × ℕ) → Option ℕ
lookup id [] = none
lookup id ((key, place) ∷ rest) = if text_eq key id then some place else lookup id rest

unfoldable pub remove : Text → List (Text × ℕ) → List (Text × ℕ)
remove id [] = []
remove id ((key, place) ∷ rest) =
    let others = remove id rest in if text_eq key id then others else (key, place) ∷ others

-- `Create`, with the place of the new session.
unfoldable pub create : Manager → Text → CallType → Option CallOption → ℕ → Manager × ℕ
unfolding remove new_session
create m id typ option now =
    let place = length m.heap in
    (
      record {
        heap = m.heap ++ new_session id typ option now ∷ [];
        sessions = (id, place) ∷ remove id m.sessions;
      },
      place,
    )

-- `Get`
unfoldable pub find : Manager → Text → Option ℕ
find m id = lookup id m.sessions

-- `Delete`
unfoldable pub delete : Manager → Text → Manager
unfolding remove
delete m id = record m { sessions = remove id m.sessions }

abbrev pub killed : CloseInfo
killed = record { cause = kill; reason = codes "killed"; initiator = codes "system"; err = [] }

-- A method of the session at a place, given what the heap has there.
abbrev pub update : Manager → ℕ → (Session → Session) → Option Session → Manager
update m place f none = m
update m place f (some s) = record m { heap = set m.heap place (f s) }

abbrev pub request_kill : Session → Session
request_kill s = (request_close s killed).0

abbrev pub kill_found : Manager → Option ℕ → Manager × Bool
kill_found m none = (m, false)
kill_found m (some place) = (update m place request_kill (get_elem? m.heap place), true)

-- `Kill`, with whether the session was found.
unfoldable pub kill_session : Manager → Text → Manager × Bool
unfolding find
kill_session m id = kill_found m (find m id)

pub record Summary : Type 0 where
  pub id : Text
  pub call_type : CallType
  pub created_at : ℕ
  pub option : Option CallOption

abbrev pub summary : Session → Summary
summary s = record {
  id = s.id;
  call_type = s.call_type;
  created_at = s.created_at;
  option = s.option;
}

-- `a < b` of texts, byte by byte.
unfoldable pub text_ltb : Text → Text → Bool
text_ltb [] [] = false
text_ltb [] (d ∷ t) = true
text_ltb (c ∷ s) [] = false
text_ltb (c ∷ s) (d ∷ t) = let rest = text_ltb s t in if c == d then rest else ltb c d

-- The comparison that `List` sorts by.
unfoldable pub before : Summary → Summary → Bool
unfolding text_ltb
before a b =
    if a.created_at == b.created_at then text_ltb a.id b.id else ltb a.created_at b.created_at

unfoldable pub insert : Summary → List Summary → List Summary
unfolding before
insert a [] = a ∷ []
insert a (b ∷ bs) = let rest = insert a bs in if before b a then b ∷ rest else a ∷ b ∷ bs

-- `sort.Slice` by that comparison.
unfoldable pub sort : List Summary → List Summary
unfolding insert
sort [] = []
sort (a ∷ rest) = insert a (sort rest)

-- The loop of `List` over the map.
unfoldable pub visible : List Session → List (Text × ℕ) → List Summary
unfolding visible_in_list
visible heap [] = []
visible heap ((key, place) ∷ rest) =
    let others = visible heap rest in
    elim (get_elem? heap place) [
      | none ↦ others
      | some s ↦ if visible_in_list s then summary s ∷ others else others
    ]

-- `List`
unfoldable pub list_sessions : Manager → List Summary
unfolding sort visible
list_sessions m = sort (visible m.heap m.sessions)

unfoldable pub cleanup_found : Manager → ℕ → Option Session → CloseInfo → ℕ → Manager × CloseInfo
unfolding normalize_close_info finalize delete
cleanup_found m place none fallback now = (m, normalize_close_info fallback)
cleanup_found m place (some s) fallback now =
    let (closed, info, _) = finalize s fallback now in
    (delete (update m place (λ t. closed) (some s)) s.id, info)

-- `Cleanup` of the session at a place, none for a nil pointer, with the close info.
unfoldable pub cleanup : Manager → Option ℕ → CloseInfo → ℕ → Manager × CloseInfo
unfolding normalize_close_info cleanup_found
cleanup m none fallback now = (m, normalize_close_info fallback)
cleanup m (some place) fallback now = cleanup_found m place (get_elem? m.heap place) fallback now
