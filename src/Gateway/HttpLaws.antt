-- ===== src/Gateway/HttpLaws.antt =====
-- The headers of `net/http`: what `Set` leaves for `Get`.
use gopbx.Prelude.{
  List, append-nil, ◌≡◌, ◌≢◌, refl, sym, ap, ◌∙◌, true, false, [], ◌∷◌, ◌++◌, Text, text_eq,
  text_eq_iff, if_intro, if◌then◌else◌, Bool-cases, inl, inr,
}
use gopbx.Gateway.Http.{Headers, set_header, del_header}

text_eq_self : (t : Text) → text_eq t t ≡ true
text_eq_self t = (text_eq_iff t t).1 refl

text_eq_ne : (s t : Text) → s ≢ t → text_eq s t ≡ false
text_eq_ne s t n = elim (Bool-cases (text_eq s t)) [
  | inl e ↦ absurd (n ((text_eq_iff s t).0 e))
  | inr e ↦ e
]

-- All values of a header, in their order.
abbrev pub values : Text → Headers → List Text
values key [] = []
values key ((k, v) ∷ rest) = if text_eq k key then v ∷ values key rest else values key rest

pub values-append :
    (key : Text) (xs ys : Headers) → values key (xs ++ ys) ≡ values key xs ++ values key ys
values-append key [] ys = refl
values-append key ((k, v) ∷ xs) ys =
    let ih = values-append key xs ys in
    elim (Bool-cases (text_eq k key)) [ inl e ↦ rw e (ap (λ vs. v ∷ vs) ih) | inr e ↦ rw e ih ]

values-del : (key : Text) (headers : Headers) → values key (del_header key headers) ≡ []
unfolding del_header
values-del key [] = refl
values-del key ((k, v) ∷ headers) =
    let ih = values-del key headers in
    if_intro (λ hs. values key hs ≡ []) (text_eq k key) (λ e. ih) (λ e. rw e ih)

values-del_ne :
    (key other : Text) (headers : Headers)
    → key ≢ other
    → values other (del_header key headers) ≡ values other headers
unfolding del_header
values-del_ne key other [] n = refl
values-del_ne key other ((k, v) ∷ headers) n =
    let ih = values-del_ne key other headers n in
    if_intro (λ hs. values other hs ≡ values other ((k, v) ∷ headers)) (text_eq k key)
      (λ e.
        let same = (text_eq_iff k key).0 e in
        ih
        ∙ sym (
            ap (λ b. if b then v ∷ values other headers else values other headers)
              (ap (λ t. text_eq t other) same ∙ text_eq_ne key other n)))
      (λ e. ap (λ vs. if text_eq k other then v ∷ vs else vs) ih)

pub values-set : (key v : Text) (headers : Headers) → values key (set_header key v headers) ≡ v ∷ []
unfolding set_header
values-set key v headers =
    values-append key (del_header key headers) ((key, v) ∷ [])
    ∙ ap (λ vs. vs ++ values key ((key, v) ∷ [])) (values-del key headers)
    ∙ ap (λ b. if b then v ∷ [] else []) (text_eq_self key)

pub values-set_ne :
    (key other v : Text) (headers : Headers)
    → key ≢ other
    → values other (set_header key v headers) ≡ values other headers
unfolding set_header
values-set_ne key other v headers n =
    values-append other (del_header key headers) ((key, v) ∷ [])
    ∙ ap (λ vs. values other (del_header key headers) ++ vs)
        (ap (λ b. if b then v ∷ [] else []) (text_eq_ne key other n))
    ∙ append-nil (values other (del_header key headers))
    ∙ values-del_ne key other headers n
