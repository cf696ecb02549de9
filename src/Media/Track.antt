-- ===== src/Media/Track.antt =====
-- internal/app/media/track/tts_track.go and file_track.go: what a command plays.
use gopbx.Prelude.{Bool, List, [], ◌∷◌, Option, Text, codes, is_empty, if◌then◌else◌, length}
use gopbx.Protocol.Event.{Datum, text, number, flag}
use gopbx.Protocol.Command.{deref_text}

pub record TtsTrack : Type 0 where
  pub id : Text
  pub message : Text
  pub speaker : Text
  pub play_id : Text

unfoldable pub new_tts_track : Text → Text → Option Text → Option Text → TtsTrack
unfolding deref_text
new_tts_track id message speaker play_id = record {
  id = id;
  message = message;
  speaker = deref_text speaker;
  play_id = deref_text play_id;
}

-- `TTSTrack.TrackID`
unfoldable pub tts_track_id : TtsTrack → Text
tts_track_id t = if is_empty t.play_id then t.id else t.play_id

-- `TTSTrack.MetricsData`
unfoldable pub tts_metrics_data : TtsTrack → Bool → Bool → List (Text × Datum)
tts_metrics_data t streaming end_of_stream =
    (codes "speaker", text t.speaker)
    ∷ (codes "playId", text t.play_id)
    ∷ (codes "streaming", flag streaming)
    ∷ (codes "endOfStream", flag end_of_stream)
    ∷ (codes "length", number (length t.message))
    ∷ []

pub record FileTrack : Type 0 where
  pub id : Text
  pub url : Text
  pub play_id : Text

unfoldable pub new_file_track : Text → Text → Option Text → FileTrack
unfolding deref_text
new_file_track id url play_id = record { id = id; url = url; play_id = deref_text play_id }

-- `FileTrack.TrackID`
unfoldable pub file_track_id : FileTrack → Text
file_track_id t = if is_empty t.play_id then t.id else t.play_id

-- `FileTrack.MetricsData`
unfoldable pub file_metrics_data : FileTrack → List (Text × Datum)
unfolding file_track_id
file_metrics_data t = (codes "trackId", text (file_track_id t)) ∷ (codes "url", text t.url) ∷ []
