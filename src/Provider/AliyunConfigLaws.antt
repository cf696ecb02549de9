-- ===== src/Provider/AliyunConfigLaws.antt =====
-- asr/aliyun.go and tts/aliyun.go: what holds of the credentials and of the results.
use gopbx.Prelude.{
  ℤ, pos, negsuc, zero, suc, ◌≡◌, refl, Bool, true, false, ◌||◌, [], ◌∷◌, Option, none, some, Text,
  codes, text_eq, to_lower, is_empty, or_else, trim_space, if_intro,
}
use gopbx.Protocol.Command.{AsrConfig, SynthesisOption}
use gopbx.Media.Asr.{Recognition}
use gopbx.Provider.AliyunConfig.{
  Credentials, with_token, with_keys, choose_credentials, credentials, RecognitionParam,
  SynthesisParam, new_aliyun_recognition_config, new_aliyun_synthesis_config, RecognitionResponse,
  Payload, result_of, result_from, parse_aliyun_result, nonzero_or, stash_message, stash_time,
  is_ok,
}

-- Nothing that a client needs to connect is left out.
abbrev pub IsComplete : Option Credentials → Type 0
IsComplete none = Unit
IsComplete (some (with_token address app_key token)) =
    (is_empty app_key ≡ false) × (is_empty token ≡ false)
IsComplete (some (with_keys address app_key id key)) =
    (is_empty app_key ≡ false) × (is_empty id ≡ false) × (is_empty key ≡ false)

choose_credentials-IsComplete :
    (address app_key token id key : Text)
    → IsComplete (choose_credentials address app_key token id key)
unfolding choose_credentials
choose_credentials-IsComplete address [] token id key = tt
choose_credentials-IsComplete address (a ∷ app) (t ∷ token) id key = (refl, refl)
choose_credentials-IsComplete address (a ∷ app) [] [] key = tt
choose_credentials-IsComplete address (a ∷ app) [] (i ∷ id) [] = tt
choose_credentials-IsComplete address (a ∷ app) [] (i ∷ id) (k ∷ key) = (refl, refl, refl)

-- A client of either kind is only set up with complete credentials.
config-IsComplete :
    (default_url : Text) (r : RecognitionParam) (s : SynthesisParam) (asr : Option AsrConfig)
    (tts : Option SynthesisOption)
    → IsComplete (new_aliyun_recognition_config default_url r asr).0
      × IsComplete (new_aliyun_synthesis_config default_url s tts).0
unfolding new_aliyun_recognition_config new_aliyun_synthesis_config credentials
config-IsComplete url r s none none = (tt, tt)
config-IsComplete url r s none (some t) = (tt, choose_credentials-IsComplete _ _ _ _ _)
config-IsComplete url r s (some a) none = (choose_credentials-IsComplete _ _ _ _ _, tt)
config-IsComplete url r s (some a) (some t) =
    (choose_credentials-IsComplete _ _ _ _ _, choose_credentials-IsComplete _ _ _ _ _)

-- What a result has: a text, the end of a sentence if the callback says so, and an end if it has a start.
abbrev pub HasText : Bool → Option Recognition → Type 0
HasText final none = Unit
HasText final (some r) =
    (is_empty r.message ≡ false)
    × ((final || r.final) ≡ r.final)
    × (nonzero_or r.end_time r.start_time ≡ r.end_time)

nonzero_or_same : (t u : ℤ) → nonzero_or (nonzero_or t u) u ≡ nonzero_or t u
nonzero_or_same (pos zero) (pos zero) = refl
nonzero_or_same (pos zero) (pos (suc n)) = refl
nonzero_or_same (pos zero) (negsuc n) = refl
nonzero_or_same (pos (suc n)) u = refl
nonzero_or_same (negsuc n) u = refl

or_same : (a b : Bool) → (a || (a || b)) ≡ (a || b)
or_same true b = refl
or_same false b = refl

result_of-HasText :
    (name : Text) (final : Bool) (p : Payload) → HasText final (result_of name final p)
unfolding result_of
result_of-HasText name final p =
    let message = or_else (trim_space p.result) (stash_message p.stash_result) in
    let start = nonzero_or p.begin_time (stash_time p.stash_result) in
    let r : Recognition = record {
      final = final || text_eq (to_lower name) (codes "sentenceend");
      message = message;
      start_time = start;
      end_time = nonzero_or p.time start;
    } in
    let told : is_empty message ≡ false → HasText final (some r) = λ e. (
      e,
      or_same final (text_eq (to_lower name) (codes "sentenceend")),
      nonzero_or_same p.time start,
    ) in
    let untold : HasText final none = tt in
    if_intro (HasText final) (is_empty message) (λ e. untold) told

payload-HasText :
    (name : Text) (final : Bool) (payload : Option Payload)
    → HasText final (elim payload [ none ↦ none | some p ↦ result_of name final p ])
payload-HasText name final none = tt
payload-HasText name final (some p) = result_of-HasText name final p

result_from-HasText :
    (final : Bool) (response : Option RecognitionResponse)
    → HasText final (result_from final response)
result_from-HasText final none = tt
result_from-HasText final (some r) =
    let untold : HasText final none = tt in
    if_intro (HasText final) (is_ok r.status) (λ e. payload-HasText r.name final r.payload)
      (λ e. untold)

-- A message of the client becomes no result, or one with a text, which is final if the callback is that of
-- the end of a sentence, and whose end is not 0 unless its start is.
pub parse_aliyun_result-HasText :
    (unmarshal : Text → Option RecognitionResponse) (raw : Text) (final : Bool)
    → HasText final (parse_aliyun_result unmarshal raw final)
unfolding parse_aliyun_result
parse_aliyun_result-HasText unmarshal raw final =
    if_intro (HasText final) (is_empty (trim_space raw)) (λ e. tt)
      (λ e. result_from-HasText final (unmarshal (trim_space raw)))
