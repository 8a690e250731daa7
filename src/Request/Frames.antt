-- ===== src/Request/Frames.antt =====
-- client.go: the frames that ReadEvent and ReceiveMessages find in the text of a payload.
use soothe_client_go.Prelude.{
  String, ◌||◌, Option, none, some, List, [], ◌∷◌, ◌++◌, ◌==◌, if◌then◌else◌,
}
use soothe_client_go.Json.{Value}
use soothe_client_go.Protocol.{Message, envelope}
use soothe_client_go.Protocol.Wire.{decode_message, expand_wire_messages}
use soothe_client_go.Protocol.Encoding.{encode_message}
use soothe_client_go.Protocol.Payload.{split_soothe_wire_payload}
use soothe_client_go.Request.{Frame, control, frame}

-- Whether isControlFrame takes a message, and the map that is routed if not
unfoldable pub frame_of : Message → Frame
frame_of (envelope m) =
    if m.type' == "ping" || m.type' == "pong" || m.type' == "disconnect"
    then control
    else frame (encode_message (envelope m))
frame_of m = frame (encode_message m)

unfoldable pub frames_of : List Message → List Frame
unfolding frame_of
frames_of [] = []
frames_of (m ∷ ms) = frame_of m ∷ frames_of ms

-- `parse` is what json.Unmarshal makes of a text, and `parse_time` what time.Time makes of one.
module _ (parse : String → Option Value) (parse_time : String → Option String) where
  unfoldable pub line_frames : Option Value → List Frame
  unfolding frames_of expand_wire_messages
  line_frames none = []
  line_frames (some v) = elim (decode_message parse_time v) [
    | none ↦ []
    | some m ↦ frames_of (expand_wire_messages parse_time m)
  ]

  unfoldable pub lines_frames : List String → List Frame
  unfolding line_frames
  lines_frames [] = []
  lines_frames (line ∷ lines) = line_frames (parse line) ++ lines_frames lines

  -- The frames of a payload, in their order
  unfoldable pub payload_frames : String → List Frame
  unfolding lines_frames
  payload_frames data' = lines_frames (split_soothe_wire_payload data')
