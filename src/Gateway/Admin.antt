-- ===== src/Gateway/Admin.antt =====
-- inbound/http/admin_handler.go: the list of calls and the forced end of a call; and
-- internal/middleware/accesslog.go.
use gopbx.Prelude.{
  ℕ, Bool, true, List, [], ◌∷◌, ◌++◌, Option, Text, codes, map, is_empty, trim_space, if◌then◌else◌,
}
use gopbx.Protocol.Command.{CallOption}
use gopbx.Session.State.{CallType}
use gopbx.Session.Manager.{Manager, Summary, kill_session, list_sessions}
use gopbx.Session.Track.{format_track_seq}

-- `listCallItem`
pub record CallItem : Type 0 where
  pub id : Text
  pub call_type : CallType
  pub created_at : Text
  pub option : Option CallOption

-- `format_time` is `Time.Format` with the layout of the handler.
abbrev pub item : (ℕ → Text) → Summary → CallItem
item format_time s = record {
  id = s.id;
  call_type = s.call_type;
  created_at = format_time s.created_at;
  option = s.option;
}

-- `HandleListCalls`
unfoldable pub handle_list_calls : (ℕ → Text) → Manager → List CallItem
unfolding list_sessions
handle_list_calls format_time m = map (item format_time) (list_sessions m)

-- `HandleKillCall`, with its answer.
unfoldable pub handle_kill_call : Manager → Text → Manager × Bool
unfolding kill_session
handle_kill_call m id = ((kill_session m id).0, true)

-- `sessionIDFromContext`, with the parameter `id` of the query and that of the path.
unfoldable pub session_id_from_context : Text → Text → Text
session_id_from_context query path =
    if is_empty (trim_space query) then trim_space path else trim_space query

-- What `AccessLogWithOutput` reads of a request and its response.
pub record Access : Type 0 where
  pub method : Text
  pub path : Text
  pub status : ℕ
  pub latency_ms : ℕ
  pub request_id : Text
  pub query_id : Text
  pub path_id : Text

-- The line that it writes.
unfoldable pub access_line : Access → Text
unfolding session_id_from_context
access_line a =
    codes "method="
    ++ a.method
    ++ codes " path="
    ++ a.path
    ++ codes " status="
    ++ format_track_seq a.status
    ++ codes " latency_ms="
    ++ format_track_seq a.latency_ms
    ++ codes " request_id="
    ++ a.request_id
    ++ codes " session_id="
    ++ session_id_from_context a.query_id a.path_id
    ++ 10 ∷ []
