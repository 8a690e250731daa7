-- ===== src/TurnId.antt =====
-- turn_boundary.go: turn ids `<loop id>:<generation>`, the ids and sequence numbers of frames, and
-- the tests that say whether a frame may end a turn. Go's `int` is ℤ here, -1 is `negsuc 0`.
pub mod RoundTrip
use Prim.Native.Char.{Char, code}
use Prim.Native.String.{[] as empty, ◌∷◌ as prepend, ◌++◌ as concat}
use soothe_client_go.Prelude.{
  String, Bool, true, false, not, ◌&&◌, ◌||◌, Option, none, some, List, [], ◌∷◌, ◌==◌, eqb,
  trim_space, contains, if◌then◌else◌,
}
use soothe_client_go.Prelude.Int.{ℤ, pos, negsuc, is_positive, is_negative}
use soothe_client_go.Prelude.Decimal.{itoa, atoi}
use soothe_client_go.Json.{Number, Value, num, Fields, get, to_string?, to_map?}

-- FormatTurnID
unfoldable pub format_turn_id : String → ℤ → String
format_turn_id loop_id generation =
    let lid = trim_space loop_id in
    if lid == "" || not (is_positive generation)
    then ""
    else concat lid (concat ":" (itoa generation))

-- strings.Split by a one-character separator
unfoldable pub cons_first : Char → List String → List String
cons_first c [] = prepend c "" ∷ []
cons_first c (p ∷ ps) = prepend c p ∷ ps

unfoldable pub split : Char → String → List String
unfolding cons_first
split sep empty = "" ∷ []
split sep (prepend c s) =
    let rest = split sep s in if eqb (code c) (code sep) then "" ∷ rest else cons_first c rest

-- `parts[len(parts)-1]`
unfoldable pub last_part : List String → String
last_part [] = ""
last_part (p ∷ []) = p
last_part (p ∷ q ∷ ps) = last_part (q ∷ ps)

positive_or_malformed : Option ℤ → ℤ
positive_or_malformed none = negsuc 0
positive_or_malformed (some gen) = if is_positive gen then gen else negsuc 0

-- ParseTurnGeneration
unfoldable pub parse_turn_generation : String → ℤ
unfolding positive_or_malformed
parse_turn_generation turn_id =
    let raw = trim_space turn_id in
    if raw == "" || not (contains raw ":")
    then negsuc 0
    else positive_or_malformed (atoi (last_part (split ":" raw)))

-- `if tid, ok := v.(string); ok { if t := strings.TrimSpace(tid); t != "" { return t } }`
trimmed_id : Value → String
trimmed_id (Value.str tid) = trim_space tid
trimmed_id _ = ""

nested_turn_id : Value → String
unfolding trimmed_id
nested_turn_id (Value.obj inner) = trimmed_id (get "turn_id" inner)
nested_turn_id _ = ""

-- FrameTurnID; a nil frame reads as the empty map
unfoldable pub frame_turn_id : Fields → String
unfolding trimmed_id nested_turn_id
frame_turn_id frame =
    let own = trimmed_id (get "turn_id" frame) in
    if not (own == "") then own else nested_turn_id (get "data" frame)

number_seq : Number → ℤ
number_seq n = if not (is_negative n.floor) && n.exact then n.floor else negsuc 0

-- FrameSeq: an `int` or `int64` is a number that is exact
unfoldable pub frame_seq : Fields → ℤ
unfolding number_seq
frame_seq frame = elim (get "seq" frame) [ num n ↦ number_seq n | _ ↦ negsuc 0 ]

-- TurnIDsMatch
unfoldable pub turn_ids_match : String → String → Bool
turn_ids_match expected candidate =
    let exp = trim_space expected in
    let cand = trim_space candidate in not (exp == "") && not (cand == "") && exp == cand

-- IsTurnTerminalAllowed
unfoldable pub is_turn_terminal_allowed : String → String → Bool → Bool → Bool
is_turn_terminal_allowed expected frame_turn query_started turn_progress_seen =
    if not query_started || not turn_progress_seen
    then false
    else turn_ids_match expected frame_turn

-- IsIdleTerminalAllowed
unfoldable pub is_idle_terminal_allowed : String → String → Bool → Bool → Bool → Bool
is_idle_terminal_allowed expected frame_turn query_started turn_progress_seen cancellation_seen =
    let cand = trim_space frame_turn in
    if not query_started || trim_space expected == ""
    then false
    else if not (cand == "")
    then (if not (turn_ids_match expected cand)
        then false
        else turn_progress_seen || cancellation_seen)
    else cancellation_seen
