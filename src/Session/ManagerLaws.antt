-- ===== src/Session/ManagerLaws.antt =====
-- manager.go and cleanup.go: what holds of the registry.
use gopbx.Prelude.{
  ℕ, zero, suc, ◌<◌, ◌≡◌, ◌≢◌, refl, sym, ap, ◌∙◌, Bool, true, false, List, [], ◌∷◌, ◌++◌, Option,
  none, some, Text, if◌then◌else◌, text_eq, text_eq_iff, length, arith, get_elem?, set, Bool-cases,
  inl, inr, if_intro, length-append, get_elem?-set_self, get_elem?-set_ne,
}
use gopbx.Protocol.Command.{CallOption}
use gopbx.Session.State.{
  CallType, new_session, Session, CloseInfo, request_close, finalize, visible_in_list,
}
use gopbx.Session.Manager.{
  Manager, killed, lookup, remove, create, find, delete, update, kill_session, cleanup,
  cleanup_found, kill_found, request_kill,
}

pub remove-lookup_self : (id : Text) (map : List (Text × ℕ)) → lookup id (remove id map) ≡ none
unfolding remove
remove-lookup_self id [] = refl
remove-lookup_self id ((k, place) ∷ rest) =
    if_intro (λ l. lookup id l ≡ none) (text_eq k id) (λ e. remove-lookup_self id rest)
      (λ e. rw e (remove-lookup_self id rest))

pub text_ne : (s t : Text) → s ≢ t → text_eq s t ≡ false
text_ne s t n = elim (Bool-cases (text_eq s t)) [
  | inl e ↦ absurd (n ((text_eq_iff s t).0 e))
  | inr e ↦ e
]

pub remove-lookup_other :
    (id key : Text) (map : List (Text × ℕ)) → id ≢ key → lookup key (remove id map) ≡ lookup key map
unfolding remove
remove-lookup_other id key [] n = refl
remove-lookup_other id key ((k, place) ∷ rest) n =
    if_intro (λ l. lookup key l ≡ (if text_eq k key then some place else lookup key rest))
      (text_eq k id)
      (λ e.
        rw (text_ne k key (λ f. n (sym ((text_eq_iff k id).0 e) ∙ f)))
          (remove-lookup_other id key rest n))
      (λ e. ap (λ o. if text_eq k key then some place else o) (remove-lookup_other id key rest n))

pub get_elem?-bound {ℓ} :
    {A : Type ℓ} (xs : List A) (i : ℕ) (x : A) → get_elem? xs i ≡ some x → i < length xs
get_elem?-bound [] i x e = absurd cc
get_elem?-bound (y ∷ ys) zero x e = omega arith
get_elem?-bound (y ∷ ys) (suc i) x e = omega (arith, get_elem?-bound ys i x e)

cleanup_at :
    (m : Manager) (place : ℕ) (s : Session) (fallback : CloseInfo) (now : ℕ)
    → get_elem? m.heap place ≡ some s
    → (cleanup m (some place) fallback now).0 ≡ record {
      heap = set m.heap place (finalize s fallback now).0;
      sessions = remove s.id m.sessions;
    }
unfolding cleanup cleanup_found delete
cleanup_at m place s fallback now e = ap (λ o. (cleanup_found m place o fallback now).0) e

-- Cleaning up the session at a place closes it there and takes its identifier out of the registry; no
-- other identifier and no other place on the heap changes.
pub cleanup_removes :
    (m : Manager) (place : ℕ) (s : Session) (fallback : CloseInfo) (now : ℕ)
    → get_elem? m.heap place ≡ some s
    → let after = (cleanup m (some place) fallback now).0 in
      (find after s.id ≡ none)
      × ((other : Text) → s.id ≢ other → find after other ≡ find m other)
      × (get_elem? after.heap place ≡ some (finalize s fallback now).0)
      × ((i : ℕ) → place ≢ i → get_elem? after.heap i ≡ get_elem? m.heap i)
unfolding find cleanup finalize
cleanup_removes m place s fallback now e = rw e (
  remove-lookup_self s.id m.sessions,
  (λ other n. remove-lookup_other s.id other m.sessions n),
  get_elem?-set_self m.heap place _ (get_elem?-bound m.heap place s e),
  (λ i n. get_elem?-set_ne m.heap _ n),
)

pub request_close-hidden : (s : Session) → visible_in_list (request_close s killed).0 ≡ false
unfolding request_close visible_in_list
request_close-hidden s = ground arith

kill_session_at :
    (m : Manager) (id : Text) (place : ℕ) (s : Session)
    → find m id ≡ some place
    → get_elem? m.heap place ≡ some s
    → (kill_session m id).0 ≡ record m { heap = set m.heap place (request_close s killed).0 }
unfolding kill_session
kill_session_at m id place s f e =
    ap (λ o. (kill_found m o).0) f ∙ ap (λ o. update m place request_kill o) e

-- Killing asks the session under the identifier to close, which hides it from the list, and leaves the
-- registry as it is.
kill_session-hides :
    (m : Manager) (id : Text) (place : ℕ) (s : Session)
    → find m id ≡ some place
    → get_elem? m.heap place ≡ some s
    → let after = (kill_session m id).0 in
      (after.sessions ≡ m.sessions)
      × (get_elem? after.heap place ≡ some (request_close s killed).0)
      × (visible_in_list (request_close s killed).0 ≡ false)
kill_session-hides m id place s f e = rw (kill_session_at m id place s f e) (
  refl,
  get_elem?-set_self m.heap place _ (get_elem?-bound m.heap place s e),
  request_close-hidden s,
)

then_branch {ℓ} : {A : Type ℓ} {b : Bool} (x y : A) → b ≡ true → (if b then x else y) ≡ x
then_branch x y e = rw e

get_elem?-last {ℓ} :
    {A : Type ℓ} (xs : List A) (x : A) → get_elem? (xs ++ x ∷ []) (length xs) ≡ some x
get_elem?-last [] x = refl
get_elem?-last (y ∷ ys) x = get_elem?-last ys x

get_elem?-front {ℓ} :
    {A : Type ℓ} (xs : List A) (x y : A) → get_elem? (xs ++ x ∷ [] ++ y ∷ []) (length xs) ≡ some x
get_elem?-front [] x y = refl
get_elem?-front (z ∷ zs) x y = get_elem?-front zs x y

-- Two calls under one identifier: the registry has the second, and the cleanup of the first takes the
-- second out, though it is still open and where it was.
pub stale_cleanup :
    (m : Manager) (id : Text) (typ : CallType) (option : Option CallOption) (now later end : ℕ)
    (fallback : CloseInfo)
    → let (m1, first) = create m id typ option now in
      let (m2, second) = create m1 id typ option later in
      let after = (cleanup m2 (some first) fallback end).0 in
      (find m2 id ≡ some second)
      × (find after id ≡ none)
      × (get_elem? after.heap second ≡ some (new_session id typ option later))
unfolding create find
stale_cleanup m id typ option now later end fallback =
    let one = new_session id typ option now in
    let two = new_session id typ option later in
    let (m1, first) = create m id typ option now in
    let (m2, second) = create m1 id typ option later in
    let there : get_elem? m2.heap first ≡ some one = get_elem?-front m.heap one two in
    let removed = cleanup_removes m2 first one fallback end there in
    (
      then_branch _ _ ((text_eq_iff id id).1 refl),
      removed.0,
      removed.3 second (λ f. absurd (omega (arith, f, length-append m.heap (one ∷ []))))
          ∙ get_elem?-last m1.heap two,
    )
