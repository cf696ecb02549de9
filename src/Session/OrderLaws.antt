-- ===== src/Session/OrderLaws.antt =====
-- manager.go, `List`: which calls it lists, and in which order.
use gopbx.Prelude.{
  ℕ, ◌+◌, ◌<◌, ◌≡◌, refl, ◌∙◌, Bool, true, false, List, [], ◌∷◌, Option, none, some, Text,
  if◌then◌else◌, arith, get_elem?, ◌⊎◌, inl, inr, if_intro,
}
use gopbx.Session.State.{closing, failed, closed, Session, visible_in_list}
use gopbx.Session.Manager.{
  Manager, Summary, summary, text_ltb, before, insert, sort, visible, list_sessions,
}

text_ltb_asym : (s t : Text) → text_ltb s t ≡ true → text_ltb t s ≡ false
unfolding text_ltb
text_ltb_asym [] [] h = refl
text_ltb_asym [] (d ∷ t) h = refl
text_ltb_asym (c ∷ s) [] h = cc
text_ltb_asym (c ∷ s) (d ∷ t) h = ground (arith, text_ltb_asym s t)

before_asym : (a b : Summary) → before a b ≡ true → before b a ≡ false
unfolding before
before_asym a b h = ground (arith, text_ltb_asym a.id b.id)

true_ne_false : (b : Bool) → b ≡ true → b ≡ false → ⊥
true_ne_false b t f = cc

-- No element is before the one in front of it.
abbrev Heads : Summary → List Summary → Type 0
Heads a [] = Unit
Heads a (b ∷ rest) = before b a ≡ false

abbrev pub Sorted : List Summary → Type 0
Sorted [] = Unit
Sorted (a ∷ rest) = Heads a rest × Sorted rest

insert-Heads :
    (a b : Summary) (cs : List Summary) → before a b ≡ false → Heads b cs → Heads b (insert a cs)
unfolding insert
insert-Heads a b [] n h = n
insert-Heads a b (c ∷ cs) n h = if_intro (Heads b) (before c a) (λ e. h) (λ e. n)

insert-Sorted : (a : Summary) (bs : List Summary) → Sorted bs → Sorted (insert a bs)
unfolding insert
insert-Sorted a [] h = (tt, tt)
insert-Sorted a (b ∷ bs) h =
    if_intro Sorted (before b a)
      (λ e. (insert-Heads a b bs (before_asym b a e) h.0, insert-Sorted a bs h.1)) (λ e. (e, h))

sort-Sorted : (bs : List Summary) → Sorted (sort bs)
unfolding sort
sort-Sorted [] = tt
sort-Sorted (a ∷ rest) = insert-Sorted a (sort rest) (sort-Sorted rest)

-- How many elements a test picks.
abbrev pub count_if : (Summary → Bool) → List Summary → ℕ
count_if test [] = 0
count_if test (a ∷ rest) = (if test a then 1 else 0) + count_if test rest

insert-count_if :
    (test : Summary → Bool) (a : Summary) (bs : List Summary)
    → count_if test (insert a bs) ≡ (if test a then 1 else 0) + count_if test bs
unfolding insert
insert-count_if test a [] = refl
insert-count_if test a (b ∷ bs) =
    if_intro
      (λ l.
        count_if test l
        ≡ (if test a then 1 else 0) + ((if test b then 1 else 0) + count_if test bs))
      (before b a) (λ e. omega (arith, insert-count_if test a bs)) (λ e. refl)

sort-count_if :
    (test : Summary → Bool) (bs : List Summary) → count_if test (sort bs) ≡ count_if test bs
unfolding sort
sort-count_if test [] = refl
sort-count_if test (b ∷ bs) = omega (arith, insert-count_if test b (sort bs), sort-count_if test bs)

-- The order of texts, letter by letter.
abbrev pub TextLess : Text → Text → Type 0
TextLess s [] = ⊥
TextLess [] (d ∷ t) = Unit
TextLess (c ∷ s) (d ∷ t) = (c < d) ⊎ ((c ≡ d) × TextLess s t)

-- Created before, or at the same time with a smaller identifier.
abbrev pub Earlier : Summary → Summary → Type 0
Earlier a b = (a.created_at < b.created_at) ⊎ ((a.created_at ≡ b.created_at) × TextLess a.id b.id)

TextLess-ltb : (s t : Text) → TextLess s t → text_ltb s t ≡ true
unfolding text_ltb
TextLess-ltb [] [] h = absurd h
TextLess-ltb (c ∷ s) [] h = absurd h
TextLess-ltb [] (d ∷ t) h = refl
TextLess-ltb (c ∷ s) (d ∷ t) (inl l) = ground arith
TextLess-ltb (c ∷ s) (d ∷ t) (inr (e, l)) = ground (arith, TextLess-ltb s t l)

Earlier-before : (a b : Summary) → Earlier a b → before a b ≡ true
unfolding before
Earlier-before a b (inl l) = ground arith
Earlier-before a b (inr (e, l)) = ground (arith, TextLess-ltb a.id b.id l)

-- No element is followed by one that is earlier.
abbrev pub Ordered : List Summary → Type 0
Ordered [] = Unit
Ordered (a ∷ []) = Unit
Ordered (a ∷ b ∷ rest) = (¬ Earlier b a) × Ordered (b ∷ rest)

Sorted-Ordered : (bs : List Summary) → Sorted bs → Ordered bs
Sorted-Ordered [] h = tt
Sorted-Ordered (a ∷ []) h = tt
Sorted-Ordered (a ∷ b ∷ rest) h = (
  (λ earlier. absurd (true_ne_false _ (Earlier-before b a earlier) h.0)),
  Sorted-Ordered (b ∷ rest) h.1,
)

-- What the list tells of a session that is open, none for one that is closing, failed or closed.
abbrev pub told_of : Session → Option Summary
told_of s = elim s.state [
  | closing ↦ none
  | failed ↦ none
  | closed ↦ none
  | _ ↦
      some (record {
        id = s.id;
        call_type = s.call_type;
        created_at = s.created_at;
        option = s.option;
      })
]

abbrev pub picks : (Summary → Bool) → Option Summary → ℕ
picks test none = 0
picks test (some a) = if test a then 1 else 0

abbrev pub told_at : Option Session → Option Summary
told_at none = none
told_at (some s) = told_of s

-- How many entries of the registry are of an open session that a test picks.
abbrev pub count_open : (Summary → Bool) → List Session → List (Text × ℕ) → ℕ
count_open test heap [] = 0
count_open test heap ((key, place) ∷ rest) =
    picks test (told_at (get_elem? heap place)) + count_open test heap rest

shown_as_told :
    (test : Summary → Bool) (o : Option Session) (others : List Summary)
    → count_if test (elim o [
      | none ↦ others
      | some s ↦ if visible_in_list s then summary s ∷ others else others
    ])
      ≡ picks test (told_at o) + count_if test others
unfolding visible_in_list
shown_as_told test none others = omega arith
shown_as_told test (some s) others = ground arith

visible-count_open :
    (test : Summary → Bool) (heap : List Session) (map : List (Text × ℕ))
    → count_if test (visible heap map) ≡ count_open test heap map
unfolding visible
visible-count_open test heap [] = refl
visible-count_open test heap ((key, place) ∷ rest) = omega (
  arith,
  shown_as_told test (get_elem? heap place) (visible heap rest),
  visible-count_open test heap rest,
)

pub list_sessions-visible :
    (m : Manager) (test : Summary → Bool)
    → count_if test (list_sessions m) ≡ count_if test (visible m.heap m.sessions)
unfolding list_sessions
list_sessions-visible m test = sort-count_if test (visible m.heap m.sessions)

-- `List` returns what it tells of the sessions of the registry that are not closing, failed or closed, each as
-- often as it stands there, in order: none is followed by one that was created before it, or at the same time
-- with a smaller identifier.
pub list_sessions-Sorted :
    (m : Manager)
    → Ordered (list_sessions m)
      × ((test : Summary → Bool)
          → count_if test (list_sessions m) ≡ count_open test m.heap m.sessions)
unfolding list_sessions
list_sessions-Sorted m = (
  Sorted-Ordered (list_sessions m) (sort-Sorted (visible m.heap m.sessions)),
  (λ test.
      sort-count_if test (visible m.heap m.sessions) ∙ visible-count_open test m.heap m.sessions),
)
