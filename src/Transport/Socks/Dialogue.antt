-- ===== src/Transport/Socks/Dialogue.antt =====
-- The other side of `socksConnect`, after RFC 1928 and RFC 1929: what a proxy answers, and how it
-- reads a request.
use cpa_codex_turn_state_plu.Base.{
  ℕ, suc, ◌≤◌, ◌≡◌, refl, sym, false, ◌||◌, Option, none, some, List, ◌∷◌, ◌++◌, ltb, length, Text,
  ok, ◌>>=◌, arith,
}
use cpa_codex_turn_state_plu.Text.{byte_length}
use cpa_codex_turn_state_plu.Transport.Wire.{Net, write, read_full, split_at, split_at-pair}
use cpa_codex_turn_state_plu.Transport.Socks.{
  SocksError, User, greeting, login, authenticate, choose, check_greeting, negotiate,
  connect_request, bound_address, skip_address, check_reply, socks_connect,
}

-- An address: four bytes, sixteen bytes, or a name.
pub data Place : Type 0 where
  ip4 ip6 name : List ℕ → Place

abbrev pub IsPlace : Place → Type 0
IsPlace (ip4 b) = length b ≡ 4
IsPlace (ip6 b) = length b ≡ 16
IsPlace (name b) = length b ≤ 255

-- The bytes of a reply, in front of those of the tunnel.
abbrev pub place_onto : Place → List ℕ → List ℕ
place_onto (ip4 b) rest = 1 ∷ (b ++ rest)
place_onto (ip6 b) rest = 4 ∷ (b ++ rest)
place_onto (name b) rest = 3 ∷ length b ∷ (b ++ rest)

pub record Reply : Type 0 where
  pub reserved : ℕ
  pub place : Place
  pub high : ℕ
  pub low : ℕ

abbrev pub reply_onto : Reply → List ℕ → List ℕ
reply_onto r tunnel = 5 ∷ 0 ∷ r.reserved ∷ place_onto r.place (r.high ∷ r.low ∷ tunnel)

-- The choice of a method, and of the credentials where there are any.
abbrev pub hello_onto : Option User → List ℕ → List ℕ
hello_onto none rest = 5 ∷ 0 ∷ rest
hello_onto (some user) rest = 5 ∷ 2 ∷ 1 ∷ 0 ∷ rest

-- The messages of the code, the latest first, and the writes left of three.
abbrev pub messages : Option User → List ℕ → List (List ℕ) → List (List ℕ)
messages none request before = request ∷ greeting none ∷ before
messages (some user) request before = request ∷ login user ∷ greeting (some user) ∷ before

abbrev pub left_of : Option User → ℕ → ℕ
left_of none n = suc n
left_of (some user) n = n

-- The name and the password fit their length bytes.
abbrev pub FitsUser : Option User → Type 0
FitsUser none = Unit
FitsUser (some user) = (byte_length user.0 ≤ 255) × (byte_length user.1 ≤ 255)

skip_pair :
    (b : List ℕ) (h l m : ℕ) (tunnel : List ℕ) (before : List (List ℕ)) (n : ℕ)
    → length b ≡ m
    → skip_address m (record { incoming = b ++ h ∷ l ∷ tunnel; sent = before; writable = n })
      ≡ ok (record { incoming = tunnel; sent = before; writable = n })
unfolding skip_address read_full
skip_pair b h l m tunnel before n e = rw (sym e) (rw (split_at-pair b tunnel h l, read_full) refl)

reply-read :
    (r : Reply) (tunnel : List ℕ) (before : List (List ℕ)) (n : ℕ)
    → IsPlace r.place
    → (read_full SocksError.connect_rejected 4
          (record { incoming = reply_onto r tunnel; sent = before; writable = n })
        >>= check_reply)
      ≡ ok (record { incoming = tunnel; sent = before; writable = n })
unfolding read_full split_at check_reply bound_address skip_address
reply-read r tunnel before n h = go r.place h
  where
    go :
        (p : Place)
        → IsPlace p
        → (read_full SocksError.connect_rejected 4 (record {
          incoming = 5 ∷ 0 ∷ r.reserved ∷ place_onto p (r.high ∷ r.low ∷ tunnel);
          sent = before;
          writable = n;
        })
            >>= check_reply)
          ≡ ok (record { incoming = tunnel; sent = before; writable = n })
    go (ip4 b) h = skip_pair b r.high r.low 4 tunnel before n h
    go (ip6 b) h = skip_pair b r.high r.low 16 tunnel before n h
    go (name b) h = skip_pair b r.high r.low (length b) tunnel before n refl

-- A proxy that offers the method that was asked for, accepts the credentials and answers with any
-- address of the protocol is served whatever it does afterwards: the dialogue ends, with the messages
-- of the protocol sent, and exactly the bytes behind the reply are left for the tunnel.
pub socks_connect-completes :
    (net : Net) (user : Option User) (target : Text) (r : Reply) (request tunnel : List ℕ)
    (before : List (List ℕ)) (n : ℕ)
    → FitsUser user
    → IsPlace r.place
    → connect_request net target ≡ ok request
    → socks_connect net user target (record {
      incoming = hello_onto user (reply_onto r tunnel);
      sent = before;
      writable = suc (suc (suc n));
    })
      ≡ ok (record {
        incoming = tunnel;
        sent = messages user request before;
        writable = left_of user n;
      })
unfolding socks_connect negotiate check_greeting choose authenticate write read_full split_at
socks_connect-completes net none target r request tunnel before n fits there asked =
    rw asked (reply-read r tunnel (messages none request before) (suc n) there)
socks_connect-completes net (some user) target r request tunnel before n fits there asked =
    let short : ltb 255 (byte_length user.0) || ltb 255 (byte_length user.1) ≡ false =
      ground (arith, fits) in
    rw (short, asked) (reply-read r tunnel (messages (some user) request before) n there)
