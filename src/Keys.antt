-- ===== src/Keys.antt =====
-- plugin.go: `stateKey` and `splitStateKey`, and management.go: `accountDigest` and `entryHandle`.
use cpa_codex_turn_state_plu.Base.{
  ℕ, ◌+◌, ◌-◌, ◌/◌, ◌%◌, ◌≡◌, ◌∙◌, sym, ap, Option, none, some, List, [], ◌∷◌, ◌++◌, ltb, take,
  if◌then◌else◌, Text, str,
}
use cpa_codex_turn_state_plu.Text.{trim}
use cpa_codex_turn_state_plu.Json.Pair.{encode_pair, decode_pair, decode_pair-encode_pair}
use cpa_codex_turn_state_plu.Environment.{Environment}

-- `stateKey`
unfoldable pub state_key : Text → Text → Text
unfolding encode_pair
state_key auth_id model = encode_pair auth_id (trim model)

or_empty : Option (Text × Text) → Text × Text
or_empty none = ([], [])
or_empty (some pair) = pair

-- `splitStateKey`
unfoldable pub split_state_key : Text → Text × Text
unfolding decode_pair or_empty
split_state_key key = or_empty (decode_pair key)

-- A key determines its credential, and its model up to surrounding white space.
pub split_state_key-state_key :
    (auth_id model : Text) → split_state_key (state_key auth_id model) ≡ (auth_id, trim model)
unfolding split_state_key state_key
split_state_key-state_key auth_id model = ap or_empty (decode_pair-encode_pair auth_id (trim model))

-- Two pairs with one key have one credential and, up to surrounding white space, one model.
state_key_inj : (a b m n : Text) → state_key a m ≡ state_key b n → (a ≡ b) × (trim m ≡ trim n)
state_key_inj a b m n h =
    let pairs : ◌≡◌ {A = Text × Text} (a, trim m) (b, trim n) =
      sym (split_state_key-state_key a m)
      ∙ (ap split_state_key h ∙ split_state_key-state_key b n) in
    (ap (λ p. p.0) pairs, ap (λ p. p.1) pairs)

hex_digit : ℕ → ℕ
hex_digit d = if ltb d 10 then d + b'0' else d - 10 + b'a'

-- `hex.EncodeToString`
hex_text : List ℕ → Text
unfolding hex_digit
hex_text [] = []
hex_text (b ∷ bs) = hex_digit (b / 16) ∷ hex_digit (b % 16) ∷ hex_text bs

-- `accountDigest`
unfoldable pub account_digest : Environment → Text → Text
unfolding hex_text
account_digest env auth_id = hex_text (take 6 (env.sha256 auth_id))

-- `entryHandle`
unfoldable pub entry_handle : Environment → Text → Text
unfolding hex_text
entry_handle env key = hex_text (take 4 (env.sha256 (str "handle:" ++ key)))
