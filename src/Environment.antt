-- ===== src/Environment.antt =====
-- What the plugin takes from outside: files, environment variables, random bytes, `net/url` and the
-- hash function. The answers of the host and of the network are arguments of the operations that
-- wait for them.
use cpa_codex_turn_state_plu.Base.{ℕ, Option, List, Text}

-- The parts of a `url.URL` that the code reads.
pub record Url : Type 0 where
  pub scheme : Text
  pub hostname : Text
  pub port : Text
  pub path : Text
  pub raw_query : Text
  pub fragment : Text
  pub user : Option (Text × Text)

pub record Environment : Type 0 where
  -- The first 8193 bytes of a file, or no value if it cannot be opened; the second option is the
  -- result of the read.
  pub read_file : Text → Option (Option Text)
  pub getenv : Text → Text
  -- Four random bytes in hexadecimal.
  pub session : Option Text
  -- `url.Parse`
  pub parse_url : Text → Option Url
  -- `sha256.Sum256`, as bytes
  pub sha256 : Text → List ℕ
