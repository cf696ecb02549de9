-- ===== src/Session/TrackLaws.antt =====
-- session.go: what holds of track identifiers.
use gopbx.Prelude.{
  ℕ, zero, suc, ◌+◌, ◌*◌, ◌-◌, ◌/◌, ◌%◌, ◌^◌, ◌≤◌, ◌<◌, ◌≡◌, ◌≢◌, refl, sym, ap, ◌∙◌, [], ◌∷◌, ◌++◌,
  Text, codes, Bool, false, none, get_or, drop, ◌⊎◌, inl, inr, if◌then◌else◌, ◌==◌, arith,
}
use gopbx.Session.State.{Session}
use gopbx.Session.Track.{digits_from, format_track_seq, fresh_track, start_track}

-- The number that decimal digits stand for, from the number before them.
abbrev pub decimal_from : ℕ → Text → ℕ
decimal_from n [] = n
decimal_from n (c ∷ s) = decimal_from (10 * n + (c - 48)) s

positive : (v : ℕ) → (suc v == 0) ≡ false
positive v = ground arith

else_branch {ℓ} : {A : Type ℓ} {b : Bool} (x y : A) → b ≡ false → (if b then x else y) ≡ y
else_branch x y e = rw e

-- Digits written in front of `buf` stand for the number before it.
digits_from-decimal :
    (fuel v : ℕ) (buf : Text)
    → v ≤ fuel
    → decimal_from 0 (digits_from fuel v buf) ≡ decimal_from v buf
unfolding digits_from
digits_from-decimal zero v buf le = ap (λ n. decimal_from n buf) (omega arith)
digits_from-decimal (suc fuel) zero buf le = refl
digits_from-decimal (suc fuel) (suc v) buf le =
    ap (decimal_from 0) (else_branch _ _ (positive v))
    ∙ digits_from-decimal fuel (suc v / 10) ((48 + suc v % 10) ∷ buf) (omega arith)
    ∙ ap (λ n. decimal_from n buf) (omega arith)

-- The decimal digits of a track number stand for it.
decimal-format_track_seq : (v : ℕ) → decimal_from 0 (format_track_seq v) ≡ v
unfolding format_track_seq
decimal-format_track_seq zero = refl
decimal-format_track_seq (suc v) =
    ap (decimal_from 0) (else_branch _ _ (positive v))
    ∙ digits_from-decimal (suc v) (suc v) [] (omega arith)

append-cancel : (p : Text) {s t : Text} → p ++ s ≡ p ++ t → s ≡ t
append-cancel [] e = e
append-cancel (c ∷ p) e = append-cancel p (ap (drop 1) e)

-- The prefixes that the router numbers tracks with.
abbrev pub IsPrefix : Text → Type 0
IsPrefix p = (p ≡ codes "tts") ⊎ (p ≡ codes "play")

tts-or-play : (s t : Text) → codes "tts" ++ s ≢ codes "play" ++ t
tts-or-play s t e =
    let heads : ◌≡◌ {A = ℕ} 116 112 = ap (λ u. get_or u 0 0) e in absurd (omega (arith, heads))

IsPrefix-append : {p q : Text} (s t : Text) → IsPrefix p → IsPrefix q → p ++ s ≡ q ++ t → p ≡ q
IsPrefix-append s t (inl a) (inl b) e = a ∙ sym b
IsPrefix-append s t (inr a) (inr b) e = a ∙ sym b
IsPrefix-append s t (inl a) (inr b) e =
    absurd (tts-or-play s t (sym (ap (λ p. p ++ s) a) ∙ e ∙ ap (λ q. q ++ t) b))
IsPrefix-append s t (inr a) (inl b) e =
    absurd (tts-or-play t s (sym (ap (λ q. q ++ t) b) ∙ sym e ∙ ap (λ p. p ++ s) a))

fresh_track-seq :
    (p q : Text) (s t : Session) (m n : ℕ)
    → IsPrefix p
    → IsPrefix q
    → s.id ≡ t.id
    → fresh_track p s m ≡ fresh_track q t n
    → m ≡ n
fresh_track-seq p q s t m n hp hq ids e =
    let tail_of : Session → ℕ → Text =
      λ r k. codes "-" ++ (r.id ++ (codes "-" ++ format_track_seq k)) in
    let same : p ++ tail_of s m ≡ p ++ tail_of s n =
      e
      ∙ ap (λ u. u ++ tail_of t n) (sym (IsPrefix-append (tail_of s m) (tail_of t n) hp hq e))
      ∙ ap (λ u. p ++ (codes "-" ++ (u ++ (codes "-" ++ format_track_seq n)))) (sym ids) in
    let digits = append-cancel s.id (ap (drop 1) (append-cancel p same)) in
    sym (decimal-format_track_seq m)
    ∙ ap (λ u. decimal_from 0 (drop 1 u)) digits
    ∙ decimal-format_track_seq n

-- A session does not hand out a number twice: where its counter has moved on, and is not about to
-- wrap around, a track that it numbers has another identifier than the one it numbered before,
-- whether either is a `tts` or a `play` track.
start_track_fresh :
    (s t : Session) (p q : Text)
    → IsPrefix p
    → IsPrefix q
    → s.id ≡ t.id
    → s.track_seq < t.track_seq
    → t.track_seq + 1 < 2 ^ 64
    → (start_track s p none).1 ≢ (start_track t q none).1
unfolding start_track
start_track_fresh s t p q hp hq ids later room e =
    let seqs =
      fresh_track-seq p q s t ((s.track_seq + 1) % 2 ^ 64) ((t.track_seq + 1) % 2 ^ 64) hp hq ids
        e in
    absurd (omega (arith, seqs))

-- The digits of a number, from the loop on any fuel that is at least the number, are the same: the loop is
-- over by then.
digits_from-fuel :
    (f g v : ℕ) (buf : Text) → v ≤ f → v ≤ g → digits_from f v buf ≡ digits_from g v buf
unfolding digits_from
digits_from-fuel zero zero v buf hf hg = refl
digits_from-fuel zero (suc g) zero buf hf hg = refl
digits_from-fuel zero (suc g) (suc v) buf hf hg = absurd (omega (arith, hf))
digits_from-fuel (suc f) zero zero buf hf hg = refl
digits_from-fuel (suc f) zero (suc v) buf hf hg = absurd (omega (arith, hg))
digits_from-fuel (suc f) (suc g) zero buf hf hg = refl
digits_from-fuel (suc f) (suc g) (suc v) buf hf hg =
    else_branch _ _ (positive v)
    ∙ digits_from-fuel f g (suc v / 10) ((48 + suc v % 10) ∷ buf) (omega arith) (omega arith)
    ∙ sym (else_branch _ _ (positive v))
