-- ===== src/Provider/NativeScorer.antt =====
-- internal/adapter/outbound/vad/native_linux.go: the scorer on ONNX Runtime. The runtime is outside this
-- code: what its calls answer are inputs. A call that fails leaves the pointer it was given as it is, and
-- the release of a null pointer does nothing.
use gopbx.Prelude.{
  ℕ, Bool, true, false, List, [], ◌∷◌, ◌++◌, Option, none, some, Text, codes, if◌then◌else◌, ◌==◌,
}

-- The tensors of a run, and what the scorer has from the runtime and from C.
pub data Tensor : Type 0 where
  pcm state rate output output_state : Tensor

pub data Name : Type 0 where
  model_path_name input_name state_name sr_name output_name state_n_name log_id : Name

pub data Resource : Type 0 where
  environment options session memory_info status : Resource
  c_string : Name → Resource
  value : Tensor → Resource

abbrev name_tag : Name → ℕ
name_tag model_path_name = 5
name_tag input_name = 6
name_tag state_name = 7
name_tag sr_name = 8
name_tag output_name = 9
name_tag state_n_name = 10
name_tag log_id = 11

abbrev tensor_tag : Tensor → ℕ
tensor_tag pcm = 12
tensor_tag state = 13
tensor_tag rate = 14
tensor_tag output = 15
tensor_tag output_state = 16

abbrev tag : Resource → ℕ
tag environment = 0
tag options = 1
tag session = 2
tag memory_info = 3
tag status = 4
tag (c_string n) = name_tag n
tag (value t) = tensor_tag t

-- What is allocated, and whether something was released that is not.
pub record Allocations : Type 0 where
  pub live : List Resource
  pub misused : Bool

abbrev pub no_allocations : Allocations
no_allocations = record { live = []; misused = false }

unfoldable pub allocate : Resource → Allocations → Allocations
allocate r a = record a { live = r ∷ a.live }

-- What is left without the first occurrence, none where there is none.
abbrev without : Resource → List Resource → Option (List Resource)
without r [] = none
without r (q ∷ rest) = elim (tag q == tag r) [
  | true ↦ some rest
  | false ↦ elim (without r rest) [ none ↦ none | some left ↦ some (q ∷ left) ]
]

abbrev left_by : Allocations → Option (List Resource) → Allocations
left_by a none = record a { misused = true }
left_by a (some left) = record a { live = left }

unfoldable pub release : Resource → Allocations → Allocations
release r a = left_by a (without r a.live)

-- A release through a field, which may be nil.
abbrev release_if : Bool → Resource → Allocations → Allocations
release_if held r a = if held then release r a else a

-- `wrapStatus`: the runtime allocates a status for an error, whose message is taken before it is released.
unfoldable pub wrap_status : Option Text → Text → Allocations → Allocations × Option Text
unfolding allocate release
wrap_status none action a = (a, none)
wrap_status (some message) action a =
    (release status (allocate status a), some (action ++ codes ": " ++ message))

-- `nativeScorer`: which of its pointers are set, the names in its map of C strings, and what is allocated.
pub record NativeScorer : Type 0 where
  pub has_api : Bool
  pub env : Bool
  pub session_opts : Bool
  pub session : Bool
  pub memory_info : Bool
  pub c_strings : List Name
  pub closed : Bool
  pub allocations : Allocations

-- The C strings of the map are freed; Go's order over a map is any order.
abbrev pub free_strings : List Name → Allocations → Allocations
free_strings [] a = a
free_strings (n ∷ names) a = free_strings names (release (c_string n) a)

-- `Close`
unfoldable pub close : NativeScorer → NativeScorer
unfolding release
close s =
    let released = release_if s.env environment (
      release_if s.session_opts options
        (release_if s.session session (release_if s.memory_info memory_info s.allocations))) in
    let a = if s.has_api then released else s.allocations in
    if s.closed then s else record s {
      closed = true;
      allocations = free_strings s.c_strings a;
      c_strings = [];
      memory_info = false;
      session = false;
      session_opts = false;
      env = false;
    }

-- What the runtime answers to the calls of `newNativeScorer`: the error of each, or none.
pub record SetupAnswers : Type 0 where
  pub api : Bool
  pub create_env : Option Text
  pub create_options : Option Text
  pub set_intra : Option Text
  pub set_inter : Option Text
  pub set_optimization : Option Text
  pub create_session : Option Text
  pub create_memory_info : Option Text

-- A part of the constructor: the scorer after it, and the error it returns with.
abbrev Part : Type 0
Part = NativeScorer → NativeScorer × Option Text

abbrev and_then : Part → NativeScorer × Option Text → NativeScorer × Option Text
and_then next (s, none) = next s
and_then next (s, some e) = (s, some e)

infixr 5 ◌>>◌
abbrev ◌>>◌ : Part → Part → Part
p >> q = λ s. and_then q (p s)

-- `err := s.wrapStatus(..)`, with the close and the return on an error; a call that goes well has done
-- `effect`.
abbrev guarded : Option Text → Text → (NativeScorer → NativeScorer) → Part
guarded none action effect s = (effect s, none)
guarded (some message) action effect s =
    let (a, e) = wrap_status (some message) action s.allocations in
    (close (record s { allocations = a }), e)

abbrev with_string : Name → NativeScorer → NativeScorer
with_string n s = record s {
  c_strings = n ∷ s.c_strings;
  allocations = allocate (c_string n) s.allocations;
}

abbrev created : Resource → NativeScorer → NativeScorer
created environment s = record s { env = true; allocations = allocate environment s.allocations }
created options s = record s { session_opts = true; allocations = allocate options s.allocations }
created session s = record s { session = true; allocations = allocate session s.allocations }
created memory_info s = record s {
  memory_info = true;
  allocations = allocate memory_info s.allocations;
}
created other s = s

abbrev kept : NativeScorer → NativeScorer
kept s = s

abbrev fresh_scorer : Bool → NativeScorer
fresh_scorer api = record {
  has_api = api;
  env = false;
  session_opts = false;
  session = false;
  memory_info = false;
  c_strings = [];
  closed = false;
  allocations = no_allocations;
}

abbrev doing : (NativeScorer → NativeScorer) → Part
doing effect s = (effect s, none)

-- The calls of `newNativeScorer`, in their order.
abbrev pub set_up : SetupAnswers → Part
set_up a = do
  guarded a.create_env (codes "create env") (created environment)
  guarded a.create_options (codes "create session options") (created options)
  guarded a.set_intra (codes "set intra threads") kept
  guarded a.set_inter (codes "set inter threads") kept
  guarded a.set_optimization (codes "set graph optimization") kept
  doing (with_string model_path_name)
  guarded a.create_session (codes "create session") (created session)
  guarded a.create_memory_info (codes "create cpu memory info") (created memory_info)
  doing (with_string input_name)
  doing (with_string state_name)
  doing (with_string sr_name)
  doing (with_string output_name)
  doing (with_string state_n_name)

-- The deferred free of the name of the log.
abbrev log_id_freed : NativeScorer × Option Text → NativeScorer × Option Text
log_id_freed (s, e) = (record s { allocations = release (c_string log_id) s.allocations }, e)

-- `newNativeScorer` on a model: the scorer as it is left, and the error where it is not returned.
unfoldable pub new_native_scorer : SetupAnswers → NativeScorer × Option Text
unfolding allocate release wrap_status close
new_native_scorer a =
    let s = fresh_scorer true in
    let logged = record s { allocations = allocate (c_string log_id) s.allocations } in
    if a.api
    then log_id_freed (set_up a logged)
    else (fresh_scorer false, some (codes "failed to get onnxruntime api"))
