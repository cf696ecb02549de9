-- ===== src/Tests/Gateway.antt =====
-- HTTP, storage and the negotiation of a WebRTC call, at concrete inputs.
use gopbx.Prelude.{
  ℕ, to_lower, ℤ, ◌≡◌, refl, [], ◌∷◌, ◌++◌, Option, none, some, Text, codes, Fallible, ok, pos,
}
use gopbx.Config.{Config, default_config}
use gopbx.Config.Load.{RawConfig, load, env_key, dotted}
use gopbx.Config.LoadLaws.{Sound, load-Sound}
use gopbx.Codec.Names.{pcma}
use gopbx.Call.Serve.{Record}
use gopbx.Gateway.Http.{Http}
use gopbx.Gateway.Ice.{
  Servers, stun_server, null, handle_ice_servers, handlers_provider, resolve_webrtc_ice_servers,
}
use gopbx.Gateway.IceLaws.{answer_from, handle-resolve, unset-null}
use gopbx.Gateway.LlmProxy.{Proxy, Incoming, proxy}
use gopbx.Gateway.LlmProxyLaws.{Outcome, proxy-Outcome}
use gopbx.Media.Negotiation.{PeerAnswers, negotiate}
use gopbx.Media.NegotiationLaws.{Settled, negotiate-Settled}
use gopbx.Session.State.{websocket}
use gopbx.Storage.Writers.{Outside, Writer, http}

-- A network where every request is answered.
abbrev net : Http
net = record {
  url_error = λ url. none;
  send = λ timeout request. ok (record { status = 200; headers = []; body = request.body });
}

abbrev no_duration : Text → Option ℤ
no_duration text = none

abbrev no_servers : Text → Fallible Servers
no_servers body = ok (some [])

abbrev remote_config : Config
remote_config = record default_config { ice_endpoint = codes "http://ice/" }

handle-resolve_example :
    handle_ice_servers net no_servers [] (handlers_provider no_duration remote_config)
    ≡ answer_from
        (resolve_webrtc_ice_servers net no_servers [] (handlers_provider no_duration remote_config))
handle-resolve_example = handle-resolve net no_servers no_duration remote_config []

unset-null_example :
    handle_ice_servers net no_servers [] (handlers_provider no_duration default_config) ≡ null
unfolding default_config
unset-null_example = unset-null net no_servers no_duration default_config refl

abbrev a_proxy : Proxy
a_proxy = record { endpoint = codes "http://llm"; api_key = codes "k" }

abbrev incoming : Incoming
incoming = record {
  path = codes "/chat";
  query = [];
  headers = (codes "Accept", codes "*") ∷ [];
  body = codes "hi";
}

abbrev same_url : Text → Text → Fallible Text
same_url address query = ok address

proxy-Outcome_example :
    Outcome net same_url [] a_proxy incoming (proxy net same_url [] a_proxy incoming)
proxy-Outcome_example = proxy-Outcome net same_url [] a_proxy incoming

abbrev pub outside : Outside
outside = record {
  marshal = λ r. ok r.call_id;
  marshal_indent = λ r. ok r.call_id;
  join = λ a b. a ++ b;
  object_url = λ a b k. ok (a ++ b ++ k);
  make_dir = λ root. none;
  write_file = λ path text. none;
  net = net;
}

abbrev a_record : Record
a_record = record {
  call_type = websocket;
  call_id = codes "c1";
  start_time = 1;
  end_time = 2;
  caller = [];
  callee = [];
  offer = [];
  answer = [];
  hangup_reason = [];
  hangup_initiator = [];
  error = [];
  commands = [];
  dump_event_file = [];
}

abbrev a_writer : Writer
a_writer =
    http (record { endpoint = codes "http://x"; api_key = codes "k"; timeout = some (pos 5) })

abbrev all_well : PeerAnswers
all_well = record {
  register = λ item. none;
  create_peer = none;
  create_track = none;
  add_transceiver = none;
  replace_track = none;
  set_remote = none;
  create_answer = none;
  set_local = none;
  local = some (codes "v=0 a");
}

negotiate-Settled_example :
    Settled pcma
      (stun_server ∷ [])
      (codes "v=0")
      (negotiate all_well pcma (stun_server ∷ []) (codes "v=0"))
negotiate-Settled_example = negotiate-Settled pcma (stun_server ∷ []) (codes "v=0") all_well

-- An environment that sets nothing.
abbrev nothing_set : RawConfig → Fallible RawConfig
nothing_set raw = ok raw

abbrev seconds : Text → Option ℤ
seconds text = some (pos 1000000000)

abbrev no_ice : ℕ → Fallible Text
no_ice n = ok []

abbrev no_count : Text → Fallible ℕ
no_count text = ok 0

load-Sound_example :
    Sound seconds none no_ice nothing_set no_count (load seconds none no_ice nothing_set no_count)
load-Sound_example = load-Sound seconds none no_ice nothing_set no_count

env_key-timeout : env_key (codes "GOPBX_ICE_PROVIDER__TIMEOUT") ≡ codes "ice_provider.timeout"
unfolding env_key dotted to_lower
env_key-timeout = refl
