-- ===== src/Provider/NativeScorerLaws.antt =====
-- vad/native_linux.go: what the constructor of the native scorer and `Close` leave allocated.
use gopbx.Prelude.{
  ◌≡◌, refl, Bool, true, false, Option, none, some, Text, List, [], ◌∷◌, codes, ◌++◌, arith,
  if◌then◌else◌,
}
use gopbx.Provider.NativeScorer.{
  NativeScorer, SetupAnswers, no_allocations, new_native_scorer, close, allocate, release,
  wrap_status,
}

-- The scorer once its owner has closed it: who gets an error gets no scorer.
abbrev pub used : NativeScorer × Option Text → NativeScorer
used (s, none) = close s
used (s, some e) = s

-- The error of the first call that fails, with what the call was for.
abbrev pub first_failed : List (Text × Option Text) → Option Text
first_failed [] = none
first_failed ((action, none) ∷ calls) = first_failed calls
first_failed ((action, some message) ∷ calls) = some (action ++ codes ": " ++ message)

abbrev pub setup_calls : SetupAnswers → List (Text × Option Text)
setup_calls a =
    (codes "create env", a.create_env)
    ∷ (codes "create session options", a.create_options)
    ∷ (codes "set intra threads", a.set_intra)
    ∷ (codes "set inter threads", a.set_inter)
    ∷ (codes "set graph optimization", a.set_optimization)
    ∷ (codes "create session", a.create_session)
    ∷ (codes "create cpu memory info", a.create_memory_info)
    ∷ []

-- Nothing is left allocated or was released twice, and the error is that of the first call that failed.
abbrev pub Settled : SetupAnswers → Type 0
Settled a =
    ((used (new_native_scorer a)).allocations ≡ no_allocations)
    × ((new_native_scorer a).1 ≡ (
        if a.api
        then first_failed (setup_calls a)
        else some (codes "failed to get onnxruntime api")))

set_up-Settled :
    (intra inter optimization session memory : Option Text) (env options : Option Text)
    → Settled (record {
      api = true;
      create_env = env;
      create_options = options;
      set_intra = intra;
      set_inter = inter;
      set_optimization = optimization;
      create_session = session;
      create_memory_info = memory;
    })
unfolding new_native_scorer close allocate release wrap_status
set_up-Settled a b c d e (some m) g = (refl, refl)
set_up-Settled a b c d e none (some m) = (refl, refl)
set_up-Settled (some m) b c d e none none = (refl, refl)
set_up-Settled none (some m) c d e none none = (refl, refl)
set_up-Settled none none (some m) d e none none = (refl, refl)
set_up-Settled none none none (some m) e none none = (refl, refl)
set_up-Settled none none none none (some m) none none = (refl, refl)
set_up-Settled none none none none none none none = (refl, refl)

answers-Settled : (api : Bool) (a : SetupAnswers) → Settled (record a { api = api })
unfolding new_native_scorer close
answers-Settled false a = (refl, refl)
answers-Settled true a =
    set_up-Settled a.set_intra a.set_inter a.set_optimization a.create_session a.create_memory_info
      a.create_env a.create_options

-- Whatever the runtime answers to the calls of the constructor: once the scorer, where one is returned, is
-- closed, all that the calls allocated is released, and nothing was released that was not allocated. The
-- error is that of the first call that failed, none where none did.
pub new_native_scorer-Settled : (a : SetupAnswers) → Settled a
new_native_scorer-Settled a = answers-Settled a.api a

-- A second `Close` changes nothing.
close_twice : (s : NativeScorer) → close (close s) ≡ close s
unfolding close
close_twice s = ground arith
