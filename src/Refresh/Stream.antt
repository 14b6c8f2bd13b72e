-- ===== src/Refresh/Stream.antt =====
-- refresh.go: `observeStreamFailure`, which reassembles server-sent events from chunks. The body is
-- a list of bytes.
use cpa_codex_turn_state_plu.Base.{
  ℕ, ◌+◌, ◌&&◌, none, some, List, [], ◌∷◌, ◌++◌, ltb, nat_beq, if◌then◌else◌, length, Text,
  text_beq, text_eq, str,
}
use cpa_codex_turn_state_plu.Base.Dict.{lookup, insert, erase}
use cpa_codex_turn_state_plu.Text.{has_prefix, trim_prefix, replace_all, join}
use cpa_codex_turn_state_plu.Json.{parse}
use cpa_codex_turn_state_plu.State.{RuntimeState, RequestBinding}
use cpa_codex_turn_state_plu.Refresh.{queue_refresh}
use cpa_codex_turn_state_plu.Refresh.Event.{stream_failure_reason}

-- 64<<10
abbrev pub stream_limit : ℕ
stream_limit = 65536

onto_first : ℕ → List Text × Text → List Text × Text
onto_first c ([], rest) = ([], c ∷ rest)
onto_first c (f ∷ fs, rest) = ((c ∷ f) ∷ fs, rest)

new_frame : List Text × Text → List Text × Text
new_frame (fs, rest) = ([] ∷ fs, rest)

-- The loop that cuts frames off at an empty line: the frames, and the rest of the buffer.
unfoldable pub split_frames : Text → List Text × Text
unfolding onto_first new_frame
split_frames [] = ([], [])
split_frames (c ∷ []) = ([], c ∷ [])
split_frames (c ∷ d ∷ s) =
    let cut = new_frame (split_frames s) in
    let keep = onto_first c (split_frames (d ∷ s)) in
    if nat_beq c 10 && nat_beq d 10 then cut else keep

onto_line : ℕ → List Text → List Text
onto_line c [] = (c ∷ []) ∷ []
onto_line c (l ∷ ls) = (c ∷ l) ∷ ls

-- `strings.Split s "\n"`
unfoldable pub split_lines : Text → List Text
unfolding onto_line
split_lines [] = [] ∷ []
split_lines (c ∷ s) =
    let rest = split_lines s in if nat_beq c 10 then [] ∷ rest else onto_line c rest

-- The payload of the `data:` lines of a frame.
data_lines : List Text → List Text
data_lines [] = []
data_lines (l ∷ ls) =
    let rest = data_lines ls in
    if has_prefix l (str "data:")
    then trim_prefix (trim_prefix l (str "data:")) (str " ") ∷ rest
    else rest

unfoldable pub frame_data : Text → Text
unfolding data_lines
frame_data frame = join (data_lines (split_lines frame)) (str "\n")

-- A failure event queues a refresh of the bound key and drops the staged candidate.
unfoldable pub note_failure : RuntimeState → Text → Text → Text → RuntimeState
note_failure s request_id key raw =
    let reason = stream_failure_reason raw in
    if text_beq reason []
    then s
    else let queued = queue_refresh s key reason in
      record queued { candidates = erase request_id queued.candidates }

unfoldable pub note_frames : RuntimeState → Text → Text → List Text → RuntimeState
note_frames s request_id key [] = s
note_frames s request_id key (f ∷ fs) =
    note_frames (note_failure s request_id key (frame_data f)) request_id key fs

-- What is kept of the buffer, and the state after a raw JSON event in it.
unfoldable pub note_rest : RuntimeState → Text → RequestBinding → Text → RuntimeState
note_rest s request_id binding buffer =
    let valid = note_failure s request_id binding.key buffer in
    elim (parse buffer) [
      | none ↦ record s {
        requests = insert request_id (record binding { stream_buffer = buffer }) s.requests;
      }
      | some _ ↦ record valid {
        requests = insert request_id (record binding { stream_buffer = [] }) valid.requests;
      }
    ]

unfoldable pub observe_chunk : RuntimeState → Text → RequestBinding → Text → RuntimeState
unfolding note_frames note_rest
observe_chunk s request_id binding chunk =
    let (frames, rest) =
      split_frames (replace_all (binding.stream_buffer ++ chunk) (str "\r\n") (str "\n")) in
    note_rest (note_frames s request_id binding.key frames) request_id binding rest

-- `observeStreamFailure`
unfoldable pub observe_stream_failure : RuntimeState → Text → Text → RuntimeState
unfolding observe_chunk
observe_stream_failure s request_id chunk = elim (lookup request_id s.requests) [
  | none ↦ s
  | some binding ↦
      if nat_beq (length chunk) 0
      then s
      else if ltb stream_limit (length binding.stream_buffer + length chunk)
      then record s {
        requests = insert request_id (record binding { stream_buffer = [] }) s.requests;
      }
      else observe_chunk s request_id binding chunk
]
