-- ===== src/Transport/Socks/Accepted.antt =====
-- What a proxy must have answered when `socksConnect` succeeds.
use cpa_codex_turn_state_plu.Base.{
  ℕ, zero, suc, ◌<◌, ◌≡◌, refl, sym, ap, subst, ◌∙◌, inl, inr, ◌&&◌, ◌||◌, Bool-cases, Option-cases,
  Option, none, some, List, [], ◌∷◌, ◌++◌, ltb, nat_beq, nat_beq_iff, length, drop, Text, text_beq,
  text_beq_iff, Result, ok, err, ◌>>=◌, >>=-eq-ok, err_not_ok, guard-ok, ok-injective, and-eq-true,
  arith,
}
use cpa_codex_turn_state_plu.Base64.RoundTrip.{AreBytes}
use cpa_codex_turn_state_plu.Text.{byte_length}
use cpa_codex_turn_state_plu.Transport.Wire.{Conn, Net, write, read_full, split_at, split_at-some}
use cpa_codex_turn_state_plu.Transport.Socks.{
  SocksError, User, login, greeting, authenticate, check_login, choose, check_greeting, negotiate,
  connect_request, skip_address, skip_name, bound_address, check_reply, socks_connect,
}
use cpa_codex_turn_state_plu.Transport.Socks.Dialogue.{
  Place, ip4, ip6, name, Reply, reply_onto, hello_onto, IsPlace, place_onto,
}

-- Bytes that were read stood in front.
read_full-incoming :
    (e : SocksError) (n : ℕ) (c : Conn) {r : List ℕ × Conn}
    → read_full e n c ≡ ok r
    → (c.incoming ≡ r.0 ++ r.1.incoming) × (length r.0 ≡ n)
unfolding read_full
read_full-incoming e n c {r} h = elim (Option-cases (split_at n c.incoming)) [
  | inl s ↦ absurd (err_not_ok (rw (s, read_full) at h))
  | inr (p, s) ↦
      let same = ok-injective {E = SocksError} _ r (rw (s, read_full) at h) in
      subst (λ (q : List ℕ × Conn). (c.incoming ≡ q.0 ++ q.1.incoming) × (length q.0 ≡ n)) same
        (split_at-some n c.incoming p.0 p.1 s)
]

write-incoming :
    (e : SocksError) (msg : List ℕ) (c : Conn) {d : Conn}
    → write e msg c ≡ ok d
    → d.incoming ≡ c.incoming
unfolding write
write-incoming e msg c {d} h = go c.writable h
  where
    go :
        (k : ℕ)
        → ◌≡◌ {A = Result SocksError Conn}
            (elim k [ zero ↦ err e | suc n ↦ ok (record c { sent = msg ∷ c.sent; writable = n }) ])
            (ok d)
        → d.incoming ≡ c.incoming
    go zero h = cc
    go (suc n) h = ap (λ (x : Conn). x.incoming) (sym (ok-injective {E = SocksError} _ d h))

two_bytes : (bs : List ℕ) → length bs ≡ 2 → (a : ℕ) × (b : ℕ) × (bs ≡ a ∷ b ∷ [])
two_bytes (a ∷ b ∷ []) h = (a, b, refl)
two_bytes [] h = absurd (omega (arith, h))
two_bytes (a ∷ []) h = absurd (omega (arith, h))
two_bytes (a ∷ b ∷ c ∷ s) h = absurd (omega (arith, h))

-- The last two of some bytes.
last_two :
    (n : ℕ) (bs rest : List ℕ)
    → length bs ≡ suc (suc n)
    → (b : List ℕ) × (h : ℕ) × (l : ℕ) × (bs ++ rest ≡ b ++ h ∷ l ∷ rest) × (length b ≡ n)
last_two zero bs rest e =
    let (h, l, same) = two_bytes bs e in ([], h, l, ap (λ s. s ++ rest) same, refl)
last_two (suc n) [] rest e = absurd (omega (arith, e))
last_two (suc n) (x ∷ bs) rest e =
    let (b, h, l, whole, count) = last_two n bs rest (omega (arith, e)) in
    (x ∷ b, h, l, ap (λ s. x ∷ s) whole, ap suc count)

authenticate-accepted :
    (user : User) (c : Conn) {d : Conn}
    → authenticate user c ≡ ok d
    → c.incoming ≡ 1 ∷ 0 ∷ d.incoming
unfolding authenticate check_login
authenticate-accepted user c {d} h =
    let (short, asked) =
      guard-ok (ltb 255 (byte_length user.0) || ltb 255 (byte_length user.1))
        SocksError.credentials_too_long _ h in
    let (p, read, checked) =
      >>=-eq-ok (write SocksError.auth_write (login user) c >>= read_full SocksError.auth_failed 2)
        check_login asked in
    let (c1, written, got) =
      >>=-eq-ok (write SocksError.auth_write (login user) c) (read_full SocksError.auth_failed 2)
        read in
    let (whole, count) = read_full-incoming SocksError.auth_failed 2 c1 got in
    elim (Bool-cases (text_beq p.0 (1 ∷ 0 ∷ []))) [
      | inr other ↦ absurd (err_not_ok (rw (other, check_login) at checked))
      | inl agreed ↦
          let same : p.1 ≡ d =
            ok-injective {E = SocksError} p.1 d (rw (agreed, check_login) at checked) in
          sym (write-incoming SocksError.auth_write (login user) c written)
          ∙ whole
          ∙ ap (λ bs. bs ++ p.1.incoming) ((text_beq_iff p.0 (1 ∷ 0 ∷ [])).0 agreed)
          ∙ ap (λ (x : Conn). 1 ∷ 0 ∷ x.incoming) same
    ]

choose-accepted :
    (user : Option User) (m : ℕ) (c : Conn) {d : Conn}
    → choose user m c ≡ ok d
    → 5 ∷ m ∷ c.incoming ≡ hello_onto user d.incoming
unfolding choose
choose-accepted none m c {d} h = elim (Bool-cases (nat_beq m 0)) [
  | inr e ↦ absurd (err_not_ok (rw e at h))
  | inl e ↦
      let same : c ≡ d = ok-injective {E = SocksError} c d (rw e at h) in
      ap (λ k. 5 ∷ k ∷ c.incoming) ((nat_beq_iff m 0).0 e)
      ∙ ap (λ (x : Conn). 5 ∷ 0 ∷ x.incoming) same
]
choose-accepted (some user) m c {d} h = elim (Bool-cases (nat_beq m 2)) [
  | inr e ↦ absurd (err_not_ok (rw e at h))
  | inl e ↦
      ap (λ k. 5 ∷ k ∷ c.incoming) ((nat_beq_iff m 2).0 e)
      ∙ ap (λ s. 5 ∷ 2 ∷ s) (authenticate-accepted user c (rw e at h))
]

check_greeting-accepted :
    (user : Option User) (v m : ℕ) (c : Conn) {d : Conn}
    → check_greeting user (v ∷ m ∷ [], c) ≡ ok d
    → v ∷ m ∷ c.incoming ≡ hello_onto user d.incoming
unfolding check_greeting
check_greeting-accepted user v m c h = elim (Bool-cases (nat_beq v 5)) [
  | inr e ↦ absurd (err_not_ok (rw e at h))
  | inl e ↦
      ap (λ k. k ∷ m ∷ c.incoming) ((nat_beq_iff v 5).0 e) ∙ choose-accepted user m c (rw e at h)
]

negotiate-accepted :
    (user : Option User) (c : Conn) {d : Conn}
    → negotiate user c ≡ ok d
    → c.incoming ≡ hello_onto user d.incoming
unfolding negotiate
negotiate-accepted user c {d} h =
    let (p, read, checked) =
      >>=-eq-ok
        (write SocksError.greeting_write (greeting user) c
          >>= read_full SocksError.greeting_failed 2)
        (check_greeting user) h in
    let (c1, written, got) =
      >>=-eq-ok (write SocksError.greeting_write (greeting user) c)
        (read_full SocksError.greeting_failed 2) read in
    let (whole, count) = read_full-incoming SocksError.greeting_failed 2 c1 got in
    let (v, m, two) = two_bytes p.0 count in
    sym (write-incoming SocksError.greeting_write (greeting user) c written)
    ∙ whole
    ∙ ap (λ bs. bs ++ p.1.incoming) two
    ∙ check_greeting-accepted user v m p.1
        (subst (λ bs. check_greeting user (bs, p.1) ≡ ok d) two checked)

-- The address, the port and what is left.
record IsBound (kind : ℕ) (incoming left : List ℕ) : Type 0 where
  pub place : Place
  pub high : ℕ
  pub low : ℕ
  pub fits : IsPlace place
  pub whole : kind ∷ incoming ≡ place_onto place (high ∷ low ∷ left)

skip_address-accepted :
    (n : ℕ) (c : Conn) {d : Conn}
    → skip_address n c ≡ ok d
    → (b : List ℕ) × (h : ℕ) × (l : ℕ) × (c.incoming ≡ b ++ h ∷ l ∷ d.incoming) × (length b ≡ n)
unfolding skip_address
skip_address-accepted n c {d} h =
    let (p, read, done) =
      >>=-eq-ok (read_full SocksError.address_truncated (suc (suc n)) c) (λ r. ok r.1) h in
    let (whole, count) = read_full-incoming SocksError.address_truncated (suc (suc n)) c read in
    let (b, h, l, split, size) = last_two n p.0 p.1.incoming count in
    let same : p.1 ≡ d = ok-injective {E = SocksError} p.1 d done in
    (b, h, l, whole ∙ split ∙ ap (λ (x : Conn). b ++ h ∷ l ∷ x.incoming) same, size)

skip_name-accepted :
    (r : List ℕ × Conn) {d : Conn}
    → skip_name r ≡ ok d
    → length r.0 ≡ 1
    → (b : List ℕ) × (h : ℕ) × (l : ℕ) × (r.0 ++ r.1.incoming
        ≡ length b ∷ (b ++ h ∷ l ∷ d.incoming))
unfolding skip_name
skip_name-accepted (n ∷ [], c) {d} k e =
    let (b, h, l, whole, size) = skip_address-accepted n c k in
    (b, h, l, ap (λ s. n ∷ s) whole ∙ ap (λ m. m ∷ (b ++ h ∷ l ∷ d.incoming)) (sym size))
skip_name-accepted ([], c) k e = absurd (omega (arith, e))
skip_name-accepted (n ∷ m ∷ s, c) k e = absurd (omega (arith, e))

bound_address-accepted :
    (kind : ℕ) (c : Conn) {d : Conn}
    → AreBytes c.incoming
    → bound_address kind c ≡ ok d
    → IsBound kind c.incoming d.incoming
unfolding bound_address
bound_address-accepted kind c {d} bytes h = elim (Bool-cases (nat_beq kind 1)) [
  | inl e ↦
      let (b, hi, lo, whole, size) = skip_address-accepted 4 c (rw e at h) in
      record {
        place = ip4 b;
        high = hi;
        low = lo;
        fits = size;
        whole = ap (λ k. k ∷ c.incoming) ((nat_beq_iff kind 1).0 e) ∙ ap (λ s. 1 ∷ s) whole;
      }
  | inr n1 ↦ elim (Bool-cases (nat_beq kind 4)) [
    | inl e ↦
        let (b, hi, lo, whole, size) = skip_address-accepted 16 c (rw (n1, e) at h) in
        record {
          place = ip6 b;
          high = hi;
          low = lo;
          fits = size;
          whole = ap (λ k. k ∷ c.incoming) ((nat_beq_iff kind 4).0 e) ∙ ap (λ s. 4 ∷ s) whole;
        }
    | inr n4 ↦ elim (Bool-cases (nat_beq kind 3)) [
      | inr n3 ↦ absurd (err_not_ok (rw (n1, n4, n3) at h))
      | inl e ↦
          let (p, read, skipped) =
            >>=-eq-ok (read_full SocksError.address_failed 1 c) skip_name (rw (n1, n4, e) at h) in
          let (front, count) = read_full-incoming SocksError.address_failed 1 c read in
          let (b, hi, lo, back) = skip_name-accepted p skipped count in
          let whole = front ∙ back in
          let first : length b < 256 = (subst AreBytes whole bytes).0 in
          record {
            place = name b;
            high = hi;
            low = lo;
            fits = omega (arith, first);
            whole = ap (λ k. k ∷ c.incoming) ((nat_beq_iff kind 3).0 e) ∙ ap (λ s. 3 ∷ s) whole;
          }
    ]
  ]
]

four_bytes :
    (bs : List ℕ)
    → length bs ≡ 4
    → (a : ℕ) × (b : ℕ) × (c : ℕ) × (d : ℕ) × (bs ≡ a ∷ b ∷ c ∷ d ∷ [])
four_bytes (a ∷ b ∷ c ∷ d ∷ []) h = (a, b, c, d, refl)
four_bytes [] h = absurd (omega (arith, h))
four_bytes (a ∷ []) h = absurd (omega (arith, h))
four_bytes (a ∷ b ∷ []) h = absurd (omega (arith, h))
four_bytes (a ∷ b ∷ c ∷ []) h = absurd (omega (arith, h))
four_bytes (a ∷ b ∷ c ∷ d ∷ e ∷ s) h = absurd (omega (arith, h))

-- A reply of the protocol, and what is left behind it.
pub record IsReplied (user : Option User) (incoming left : List ℕ) : Type 0 where
  pub reply : Reply
  pub fits : IsPlace reply.place
  pub whole : incoming ≡ hello_onto user (reply_onto reply left)

check_reply-accepted :
    (v code reserved kind : ℕ) (c : Conn) {d : Conn}
    → AreBytes c.incoming
    → check_reply (v ∷ code ∷ reserved ∷ kind ∷ [], c) ≡ ok d
    → IsReplied none (5 ∷ 0 ∷ v ∷ code ∷ reserved ∷ kind ∷ c.incoming) d.incoming
unfolding check_reply
check_reply-accepted v code reserved kind c {d} bytes h =
    elim (Bool-cases (nat_beq v 5 && nat_beq code 0)) [
      | inr e ↦ absurd (err_not_ok (rw e at h))
      | inl e ↦
          let (five, zero_code) = and-eq-true (nat_beq v 5) (nat_beq code 0) e in
          let b = bound_address-accepted kind c bytes (rw e at h) in
          record {
            reply = record { reserved = reserved; place = b.place; high = b.high; low = b.low };
            fits = b.fits;
            whole =
                ap (λ k. 5 ∷ 0 ∷ k ∷ code ∷ reserved ∷ kind ∷ c.incoming) ((nat_beq_iff v 5).0 five)
                ∙ ap (λ k. 5 ∷ 0 ∷ 5 ∷ k ∷ reserved ∷ kind ∷ c.incoming)
                    ((nat_beq_iff code 0).0 zero_code)
                ∙ ap (λ s. 5 ∷ 0 ∷ 5 ∷ 0 ∷ reserved ∷ s) b.whole;
          }
    ]

hello-bytes : (user : Option User) (rest : List ℕ) → AreBytes (hello_onto user rest) → AreBytes rest
hello-bytes none rest h = h.1.1
hello-bytes (some user) rest h = h.1.1.1.1

-- If the dialogue succeeds, then the proxy chose the method that was asked for, accepted the
-- credentials, and granted the connection in one reply of the protocol; the bytes left are exactly
-- those behind this reply.
pub socks_connect-IsReplied :
    (net : Net) (user : Option User) (target : Text) (c : Conn) {d : Conn}
    → AreBytes c.incoming
    → socks_connect net user target c ≡ ok d
    → IsReplied user c.incoming d.incoming
unfolding socks_connect
socks_connect-IsReplied net user target c {d} bytes h =
    let (c1, agreed, k1) = >>=-eq-ok (negotiate user c) _ h in
    let (request, asked, k2) = >>=-eq-ok (connect_request net target) _ k1 in
    let (c2, written, k3) = >>=-eq-ok (write SocksError.connect_write request c1) _ k2 in
    let (p, read, checked) =
      >>=-eq-ok (read_full SocksError.connect_rejected 4 c2) check_reply k3 in
    let (front, count) = read_full-incoming SocksError.connect_rejected 4 c2 read in
    let (v, code, reserved, kind, four) = four_bytes p.0 count in
    let hello = negotiate-accepted user c agreed in
    let inner : c1.incoming ≡ v ∷ code ∷ reserved ∷ kind ∷ p.1.incoming =
      sym (write-incoming SocksError.connect_write request c1 written)
      ∙ front
      ∙ ap (λ bs. bs ++ p.1.incoming) four in
    let rest : AreBytes (v ∷ code ∷ reserved ∷ kind ∷ p.1.incoming) =
      subst AreBytes inner (hello-bytes user c1.incoming (subst AreBytes hello bytes)) in
    let r =
      check_reply-accepted v code reserved kind p.1 rest.1.1.1.1
        (subst (λ bs. check_reply (bs, p.1) ≡ ok d) four checked) in
    record {
      reply = r.reply;
      fits = r.fits;
      whole = hello ∙ ap (hello_onto user) (inner ∙ ap (drop 2) r.whole);
    }
