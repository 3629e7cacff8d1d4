-- ===== src/Hal/Port/Metadata.antt =====
-- bluetooth/audio/hw/device_port_proxy.cc: the metadata of the tracks that a port sends to the stack, with the
-- tags that are cut out of a text. A text is the list of its characters as numbers, up to a NUL;
-- `max_size` is the system's AUDIO_ATTRIBUTES_TAGS_MAX_SIZE. The session takes a number for the
-- metadata: `source_number` and `sink_number` give it.
mod Tags
mod Examples
use android_device_peter_gsi.Base.{
  ℕ, zero, suc, ◌-◌, Option, none, some, Bool, true, false, not, ◌&&◌, List, [], ◌∷◌, map, ◌==◌,
  is_empty, if◌then◌else◌,
}
use android_device_peter_gsi.Session.Types.{SessionCodes}
use android_device_peter_gsi.Session.Control.{StackCall}
use android_device_peter_gsi.Session.Instances.{Instances}
use android_device_peter_gsi.Session.Instances.Control as Sessions
use android_device_peter_gsi.Hal.Port.{Port, in_use}

-- `playback_track_metadata_v7` of the audio HAL, by the fields that are read.
pub record PlaybackTrack : Type 0 where
  pub usage : ℕ
  pub content_type : ℕ
  pub tags : List ℕ

-- `record_track_metadata_v7`.
pub record RecordTrack : Type 0 where
  pub source : ℕ
  pub gain : ℕ
  pub tags : List ℕ

-- `PlaybackTrackMetadata` and `RecordTrackMetadata` of the AIDL interface.
pub record SourceTrack : Type 0 where
  pub usage : ℕ
  pub content_type : ℕ
  pub tags : List (List ℕ)

pub record SinkTrack : Type 0 where
  pub source : ℕ
  pub gain : ℕ
  pub tags : List (List ℕ)

-- `strlcpy`: at most `n` characters, up to the NUL.
unfoldable pub copy_text : ℕ → List ℕ → List ℕ
copy_text zero text = []
copy_text (suc n) [] = []
copy_text (suc n) (c ∷ cs) = let rest = copy_text n cs in if c == 0 then [] else c ∷ rest

-- `strtok` passes over empty pieces.
abbrev pub add_tag : List ℕ → List (List ℕ) → List (List ℕ)
add_tag [] tags = tags
add_tag (c ∷ cs) tags = (c ∷ cs) ∷ tags

-- A character in front of the first piece, and the tags behind that piece.
abbrev pub cut : ℕ → List ℕ × List (List ℕ) → List ℕ × List (List ℕ)
cut c (piece, tags) = if c == 59 then ([], add_tag piece tags) else (c ∷ piece, tags)

-- The text up to the first ';', and the tags behind it.
unfoldable pub pieces : List ℕ → List ℕ × List (List ℕ)
pieces [] = ([], [])
pieces (c ∷ cs) = cut c (pieces cs)

-- The loop over `strtok(..., ";")`.
abbrev pub tokens : List ℕ → List (List ℕ)
tokens text = let p = pieces text in add_tag p.0 p.1

unfoldable pub covert_audio_tag_from_v7 : ℕ → List ℕ → List (List ℕ)
unfolding copy_text pieces
covert_audio_tag_from_v7 max_size text = tokens (copy_text (max_size - 1) text)

module _ (codes : SessionCodes) (max_size : ℕ) where
  abbrev pub source_track : PlaybackTrack → SourceTrack
  source_track track = record {
    usage = track.usage;
    content_type = track.content_type;
    tags = covert_audio_tag_from_v7 max_size track.tags;
  }

  abbrev pub sink_track : RecordTrack → SinkTrack
  sink_track track = record {
    source = track.source;
    gain = track.gain;
    tags = covert_audio_tag_from_v7 max_size track.tags;
  }

  -- `answer` is whether the stack takes the call; the port does not look at it.
  unfoldable pub update_source_metadata :
      (List SourceTrack → ℕ)
      → List PlaybackTrack
      → Bool
      → Port
      → Instances
      → Instances × List StackCall
  unfolding Sessions.update_source_metadata in_use covert_audio_tag_from_v7
  update_source_metadata source_number tracks answer p sessions =
      let (sessions', (calls, taken)) =
        Sessions.update_source_metadata codes p.session_type
          (source_number (map source_track tracks)) answer sessions in
      if in_use codes p && not (is_empty tracks) then (sessions', calls) else (sessions, [])

  unfoldable pub update_sink_metadata :
      (List SinkTrack → ℕ) → List RecordTrack → Bool → Port → Instances → Instances × List StackCall
  unfolding Sessions.update_sink_metadata in_use covert_audio_tag_from_v7
  update_sink_metadata sink_number tracks answer p sessions =
      let (sessions', (calls, taken)) =
        Sessions.update_sink_metadata codes p.session_type (sink_number (map sink_track tracks))
          answer sessions in
      if in_use codes p && not (is_empty tracks) then (sessions', calls) else (sessions, [])

-- `out_update_source_metadata_v7` and `in_update_sink_metadata_v7` of bluetooth/audio/hw/stream_apis.cc, for a
-- stream with the port `p` over the AIDL session; `none` is the null pointer.
module _ (codes : SessionCodes) (max_size : ℕ) where
  unfoldable pub out_update_source_metadata :
      (List SourceTrack → ℕ)
      → Option (List PlaybackTrack)
      → Bool
      → Port
      → Instances
      → Instances × List StackCall
  unfolding update_source_metadata
  out_update_source_metadata source_number none answer p sessions = (sessions, [])
  out_update_source_metadata source_number (some tracks) answer p sessions =
      if is_empty tracks
      then (sessions, [])
      else update_source_metadata codes max_size source_number tracks answer p sessions

  unfoldable pub in_update_sink_metadata :
      (List SinkTrack → ℕ)
      → Option (List RecordTrack)
      → Bool
      → Port
      → Instances
      → Instances × List StackCall
  unfolding update_sink_metadata
  in_update_sink_metadata sink_number none answer p sessions = (sessions, [])
  in_update_sink_metadata sink_number (some tracks) answer p sessions =
      if is_empty tracks
      then (sessions, [])
      else update_sink_metadata codes max_size sink_number tracks answer p sessions
