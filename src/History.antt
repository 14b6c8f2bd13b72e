-- ===== src/History.antt =====
-- management.go: the bounded timeline of probes and actions.
use cpa_codex_turn_state_plu.Base.{
  ℕ, ◌-◌, ◌&&◌, List, [], ◌∷◌, ◌++◌, ltb, if◌then◌else◌, length, drop, text_beq,
}
use cpa_codex_turn_state_plu.State.{HistoryEntry, RuntimeState}

abbrev pub history_limit : ℕ
history_limit = 50

-- The newest entries, as many as the limit allows.
unfoldable pub newest : List HistoryEntry → List HistoryEntry
newest entries =
    if ltb history_limit (length entries)
    then drop (length entries - history_limit) entries
    else entries

-- `appendHistoryLocked`
unfoldable pub append_history : RuntimeState → HistoryEntry → RuntimeState
unfolding newest
append_history s entry =
    if text_beq entry.reason [] && text_beq entry.outcome []
    then s
    else record s { history = newest (s.history ++ entry ∷ []) }
