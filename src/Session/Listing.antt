-- ===== src/Session/Listing.antt =====
-- manager.go: how often a call is listed, and what a kill changes of that.
use gopbx.Prelude.{
  ℕ, zero, suc, ◌+◌, ◌≡◌, ◌≢◌, refl, sym, ap, ◌∙◌, Bool, true, false, List, [], ◌∷◌, Option, none,
  some, Text, if◌then◌else◌, text_eq, text_eq_iff, arith, get_elem?, set, Bool-cases, inl, inr,
  if_intro, get_elem?-set_self,
}
use gopbx.Session.State.{Session, visible_in_list}
use gopbx.Session.Manager.{
  Manager, lookup, find, kill_session, kill_found, request_kill, Summary, summary, visible,
  list_sessions, update,
}
use gopbx.Session.OrderLaws.{count_if, list_sessions-visible}
use gopbx.Session.ManagerLaws.{text_ne, request_close-hidden, get_elem?-bound}
use gopbx.Session.RegistryLaws.{set-WellNamed, id_at, Entries, Once, WellNamed, kill-id, different}

abbrev pub named : Text → Summary → Bool
named id a = text_eq a.id id

-- How often a call is in the list.
abbrev pub listed : Text → Manager → ℕ
listed id m = count_if (named id) (list_sessions m)

-- How often a session counts that stands at an entry.
abbrev part : Text → Option Session → ℕ
part id none = 0
part id (some s) = if visible_in_list s then (if named id (summary s) then 1 else 0) else 0

abbrev shown : Option Session → List Summary → List Summary
shown o others = elim o [
  | none ↦ others
  | some s ↦ if visible_in_list s then summary s ∷ others else others
]

shown-part :
    (id : Text) (o : Option Session) (others : List Summary)
    → count_if (named id) (shown o others) ≡ part id o + count_if (named id) others
shown-part id none others = omega arith
shown-part id (some s) others = elim (Bool-cases (visible_in_list s)) [
  | inl e ↦ rw e refl
  | inr e ↦ rw e (omega arith)
]

part-other : (id : Text) (s : Session) → s.id ≢ id → part id (some s) ≡ 0
part-other id s n =
    if_intro (λ k. k ≡ 0) (visible_in_list s) (λ e. rw (text_ne s.id id n) refl) (λ e. refl)

part_hidden : (id : Text) (s : Session) → visible_in_list s ≡ false → part id (some s) ≡ 0
part_hidden id s e = rw e refl

id_at-get :
    (heap : List Session) (p : ℕ) (s : Session)
    → get_elem? heap p ≡ some s
    → id_at heap p ≡ some s.id
id_at-get [] p s e = cc
id_at-get (x ∷ heap) zero s e = cc
id_at-get (x ∷ heap) (suc p) s e = id_at-get heap p s e

-- The session at a place, if there is one, is not visible.
abbrev pub Hidden : List Session → ℕ → Type 0
Hidden heap p = (s : Session) → get_elem? heap p ≡ some s → visible_in_list s ≡ false

entry-other :
    (heap : List Session) (p : ℕ) (key id : Text) (o : Option Session)
    → get_elem? heap p ≡ o
    → id_at heap p ≡ some key
    → key ≢ id
    → part id o ≡ 0
entry-other heap p key id none e i n = refl
entry-other heap p key id (some s) e i n =
    let j = id_at-get heap p s e in part-other id s (λ f. n cc)

entry-Hidden :
    (heap : List Session) (p : ℕ) (id : Text) (o : Option Session)
    → get_elem? heap p ≡ o
    → Hidden heap p
    → part id o ≡ 0
entry-Hidden heap p id none e h = refl
entry-Hidden heap p id (some s) e h = part_hidden id s (h s e)

pub none≢some {ℓ} : {A : Type ℓ} {a : A} → none ≢ some a
none≢some e = absurd cc

-- An identifier whose session is hidden, or that is not in the registry, is not listed.
pub visible-none :
    (heap : List Session) (id : Text) (entries : List (Text × ℕ))
    → Entries heap entries
    → Once entries
    → ((p : ℕ) → lookup id entries ≡ some p → Hidden heap p)
    → count_if (named id) (visible heap entries) ≡ 0
unfolding visible
visible-none heap id [] h o f = refl
visible-none heap id ((key, p) ∷ rest) h o f =
    let counted = shown-part id (get_elem? heap p) (visible heap rest) in
    elim (Bool-cases (text_eq key id)) [
      | inl e ↦
          let here = entry-Hidden heap p id (get_elem? heap p) refl (f p (rw e refl)) in
          let gone : lookup id rest ≡ none =
            ap (λ k. lookup k rest) (sym ((text_eq_iff key id).0 e)) ∙ o.0 in
          let later =
            visible-none heap id rest h.1 o.1 (λ q g. absurd (none≢some (sym gone ∙ g))) in
          omega (arith, counted, here, later)
      | inr e ↦
          let here = entry-other heap p key id (get_elem? heap p) refl h.0 (different key id e) in
          let later = visible-none heap id rest h.1 o.1 (λ q g. f q (rw e g)) in
          omega (arith, counted, here, later)
    ]

part-set :
    (heap : List Session) (id : Text) (place p : ℕ) (s t : Session)
    → get_elem? heap place ≡ some s
    → t.id ≡ s.id
    → s.id ≢ id
    → part id (get_elem? (set heap place t) p) ≡ part id (get_elem? heap p)
part-set [] id place p s t e i n = refl
part-set (x ∷ heap) id zero zero s t e i n =
    let f : x.id ≡ s.id = cc in
    part-other id t (λ g. n (sym i ∙ g)) ∙ sym (part-other id x (λ g. n (sym f ∙ g)))
part-set (x ∷ heap) id zero (suc p) s t e i n = refl
part-set (x ∷ heap) id (suc place) zero s t e i n = refl
part-set (x ∷ heap) id (suc place) (suc p) s t e i n = part-set heap id place p s t e i n

-- A change of a session of another identifier.
visible-set :
    (heap : List Session) (id : Text) (place : ℕ) (s t : Session) (entries : List (Text × ℕ))
    → get_elem? heap place ≡ some s
    → t.id ≡ s.id
    → s.id ≢ id
    → count_if (named id) (visible (set heap place t) entries)
      ≡ count_if (named id) (visible heap entries)
unfolding visible
visible-set heap id place s t [] e i n = refl
visible-set heap id place s t ((key, p) ∷ rest) e i n =
    let now = set heap place t in
    let before = shown-part id (get_elem? heap p) (visible heap rest) in
    let after = shown-part id (get_elem? now p) (visible now rest) in
    let same = part-set heap id place p s t e i n in
    let later = visible-set heap id place s t rest e i n in
    omega (arith, before, after, same, later)

pub listed-visible :
    (id : Text) (m : Manager) → listed id m ≡ count_if (named id) (visible m.heap m.sessions)
listed-visible id m = list_sessions-visible m (named id)

then_some :
    (key id : Text) (p : ℕ) (rest : List (Text × ℕ))
    → text_eq key id ≡ true
    → lookup id ((key, p) ∷ rest) ≡ some p
then_some key id p rest e = rw e refl

pub else_some :
    (key id : Text) (p : ℕ) (rest : List (Text × ℕ))
    → text_eq key id ≡ false
    → lookup id ((key, p) ∷ rest) ≡ lookup id rest
else_some key id p rest e = rw e refl

pub lookup-id_at :
    (heap : List Session) (id : Text) (place : ℕ) (entries : List (Text × ℕ))
    → Entries heap entries
    → lookup id entries ≡ some place
    → id_at heap place ≡ some id
lookup-id_at heap id place [] h e = absurd (none≢some e)
lookup-id_at heap id place ((key, p) ∷ rest) h e = elim (Bool-cases (text_eq key id)) [
  | inl t ↦
      let same : key ≡ id = (text_eq_iff key id).0 t in
      let there : some p ≡ some place = sym (then_some key id p rest t) ∙ e in let known = h.0 in cc
  | inr t ↦ lookup-id_at heap id place rest h.1 (sym (else_some key id p rest t) ∙ e)
]

pub some_injective {ℓ} : {A : Type ℓ} {a b : A} → some a ≡ some b → a ≡ b
some_injective e = cc

abbrev NotVisible : Option Session → Type 0
NotVisible none = Unit
NotVisible (some s) = visible_in_list s ≡ false

pub one_place-Hidden :
    (heap : List Session) (p place : ℕ)
    → p ≡ place
    → (o : Option Session) → get_elem? heap place ≡ o
    → NotVisible o
    → Hidden heap p
one_place-Hidden heap p place same none e h s g =
    absurd (none≢some (sym e ∙ sym (ap (get_elem? heap) same) ∙ g))
one_place-Hidden heap p place same (some t) e h s g =
    ap visible_in_list (some_injective (sym g ∙ ap (get_elem? heap) same ∙ e)) ∙ h

found-kill :
    (m : Manager) (id : Text) (place : ℕ) (o : Option Session)
    → WellNamed m
    → find m id ≡ some place
    → get_elem? m.heap place ≡ o
    → (listed id (update m place request_kill o) ≡ 0)
      × ((other : Text)
          → id ≢ other
          → listed other (update m place request_kill o) ≡ listed other m)
unfolding find
found-kill m id place none h f e = (
  listed-visible id m
      ∙ visible-none m.heap id m.sessions h.entries h.once
          (λ p g. one_place-Hidden m.heap p place (some_injective (sym g ∙ f)) none e tt),
  (λ other n. refl),
)
found-kill m id place (some s) h f e =
    let t = request_kill s in
    let after = record m { heap = set m.heap place t } in
    let named_now = set-WellNamed m place s t e (kill-id s) h in
    let there = id_at-get m.heap place s e in
    let found = lookup-id_at m.heap id place m.sessions h.entries f in
    let same : s.id ≡ id = some_injective (sym there ∙ found) in
    let put = get_elem?-set_self m.heap place t (get_elem?-bound m.heap place s e) in
    (
      listed-visible id after
          ∙ visible-none after.heap id m.sessions named_now.entries named_now.once (λ p g.
            one_place-Hidden after.heap p place (some_injective (sym g ∙ f)) (some t) put
              (request_close-hidden s)),
      (λ other n.
          listed-visible other after
          ∙ visible-set m.heap other place s t m.sessions e (kill-id s) (λ g. n (sym same ∙ g))
          ∙ sym (listed-visible other m)),
    )

kill_found-listed :
    (m : Manager) (id : Text) (o : Option ℕ)
    → WellNamed m
    → find m id ≡ o
    → (listed id (kill_found m o).0 ≡ 0)
      × ((other : Text) → id ≢ other → listed other (kill_found m o).0 ≡ listed other m)
unfolding find
kill_found-listed m id none h f = (
  listed-visible id m
      ∙ visible-none m.heap id m.sessions h.entries h.once (λ p g. absurd (none≢some (sym f ∙ g))),
  λ other n. refl,
)
kill_found-listed m id (some place) h f = found-kill m id place (get_elem? m.heap place) h f refl

-- After a kill its identifier is not listed, and every other is listed as often as before.
pub kill_session-listed :
    (m : Manager) (id : Text)
    → WellNamed m
    → (listed id (kill_session m id).0 ≡ 0)
      × ((other : Text) → id ≢ other → listed other (kill_session m id).0 ≡ listed other m)
unfolding kill_session
kill_session-listed m id h = kill_found-listed m id (find m id) h refl
