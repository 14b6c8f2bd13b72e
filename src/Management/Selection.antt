-- ===== src/Management/Selection.antt =====
-- management.go: which entries an action of the panel names.
use cpa_codex_turn_state_plu.Base.{Bool, ◌||◌, List, map, ltb, length, Text}
use cpa_codex_turn_state_plu.Base.Sets.{member}
use cpa_codex_turn_state_plu.Environment.{Environment}
use cpa_codex_turn_state_plu.Text.{trim, to_lower}
use cpa_codex_turn_state_plu.Keys.{split_state_key, account_digest, entry_handle}

-- The sets `accounts`, `models` and `handles` of an action.
pub record Selection : Type 0 where
  pub accounts : List Text
  pub models : List Text
  pub handles : List Text

-- The sets from the lists of the request.
unfoldable pub selection : List Text → List Text → List Text → Selection
selection accounts models handles = record {
  accounts = map trim accounts;
  models = map (λ m. to_lower (trim m)) models;
  handles = map trim handles;
}

-- `selective`: a list of the request is not empty.
abbrev pub is_selective : Selection → Bool
is_selective sel =
    ltb 0 (length sel.accounts) || ltb 0 (length sel.models) || ltb 0 (length sel.handles)

-- The handle, the account or the model of the key is in its set.
unfoldable pub selects : Environment → Selection → Text → Bool
selects env sel key =
    member (entry_handle env key) sel.handles
    || member (account_digest env (split_state_key key).0) sel.accounts
    || member (to_lower (split_state_key key).1) sel.models

-- `actionTarget` without its messages, which follow from the reason.
pub record Target : Type 0 where
  pub handle : Text
  pub account : Text
  pub model : Text
  pub reason : Text

unfoldable pub target : Environment → Text → Text → Target
target env key reason = record {
  handle = entry_handle env key;
  account = account_digest env (split_state_key key).0;
  model = (split_state_key key).1;
  reason = reason;
}
