-- ===== src/Transport/Chain/Through.antt =====
-- The chain of two SOCKS proxies.
use cpa_codex_turn_state_plu.Base.{
  ℕ, suc, ◌≡◌, refl, ap, ◌∙◌, true, Option, none, some, List, [], Text, ok, err,
}
use cpa_codex_turn_state_plu.Config.{ProxyEndpoint}
use cpa_codex_turn_state_plu.Config.Endpoint.{resolve}
use cpa_codex_turn_state_plu.Environment.{Environment, Url}
use cpa_codex_turn_state_plu.Transport.Wire.{Conn, Net}
use cpa_codex_turn_state_plu.Transport.Socks.{User, connect_request, socks_connect}
use cpa_codex_turn_state_plu.Transport.Socks.Dialogue.{
  Reply, IsPlace, FitsUser, reply_onto, hello_onto, messages, left_of, socks_connect-completes,
}
use cpa_codex_turn_state_plu.Transport.Connect.{speaks_socks, by_socks, tunnel_proxy}
use cpa_codex_turn_state_plu.Transport.Chain.{
  DialError, endpoint, dial_failed, proxy_address, resolved, dialed, tunnelled, dial_chain,
}

left_of-three :
    (user : Option User) (n : ℕ)
    → left_of user (suc (suc (suc n))) ≡ suc (suc (suc (left_of user n)))
left_of-three none n = refl
left_of-three (some user) n = refl

socks_hop :
    (net : Net) (proxy : Url) (target host_override : Text) (c : Conn)
    → speaks_socks proxy ≡ true
    → tunnel_proxy net proxy target host_override c
      ≡ by_socks (socks_connect net proxy.user target c)
unfolding tunnel_proxy
socks_hop net proxy target host_override c h = rw h refl

-- A SOCKS hop with its dialogue.
tunnelled-socks :
    (net : Net) (proxy : Url) (target host_override : Text) (r : Reply) (request tunnel : List ℕ)
    (before : List (List ℕ)) (n : ℕ)
    → speaks_socks proxy ≡ true
    → FitsUser proxy.user
    → IsPlace r.place
    → connect_request net target ≡ ok request
    → tunnelled net proxy target host_override (record {
      incoming = hello_onto proxy.user (reply_onto r tunnel);
      sent = before;
      writable = suc (suc (suc n));
    })
      ≡ ok (record {
        incoming = tunnel;
        sent = messages proxy.user request before;
        writable = left_of proxy.user n;
      })
unfolding tunnelled by_socks
tunnelled-socks net proxy target host_override r request tunnel before n socks fits there asked =
    ap (λ x. elim x [ err e ↦ err (DialError.tunnel e) | ok d ↦ ok d ])
      (socks_hop net proxy target host_override _ socks
        ∙ ap by_socks (
            socks_connect-completes net proxy.user target r request tunnel before n fits there
              asked))

resolved-ok :
    (env : Environment) (p : ProxyEndpoint) (u : Url) → resolve env p ≡ ok u → resolved env p ≡ ok u
unfolding resolved
resolved-ok env p u h = ap (λ x. elim x [ err e ↦ err (endpoint e) | ok v ↦ ok v ]) h

dialed-ok : (net : Net) (a : Text) (c : Conn) → net.dial a ≡ some c → dialed net a ≡ ok c
unfolding dialed
dialed-ok net a c h = ap (λ x. elim x [ none ↦ err dial_failed | some d ↦ ok d ]) h

module _ (env : Environment) (net : Net) (first second : ProxyEndpoint) (front upstream : Url)
    (target : Text) (near far : Reply) (near_request far_request tunnel : List ℕ) (n : ℕ) where
  -- With a first hop and a second proxy that both speak SOCKS and answer in turn, the dial goes to the
  -- first hop only, asks it for the second proxy and the second proxy for the target, in this order,
  -- and leaves exactly the bytes of the tunnel.
  pub dial_chain-through :
      resolve env second ≡ ok upstream
      → resolve env first ≡ ok front
      → speaks_socks front ≡ true
      → speaks_socks upstream ≡ true
      → FitsUser front.user
      → FitsUser upstream.user
      → IsPlace near.place
      → IsPlace far.place
      → connect_request net (proxy_address env upstream) ≡ ok near_request
      → connect_request net target ≡ ok far_request
      → net.dial (proxy_address env front)
        ≡ some (record {
          incoming =
              hello_onto front.user
                (reply_onto near (hello_onto upstream.user (reply_onto far tunnel)));
          sent = [];
          writable = suc (suc (suc (suc (suc (suc n)))));
        })
      → dial_chain env net (some first) second target
        ≡ ok (record {
          incoming = tunnel;
          sent = messages upstream.user far_request (messages front.user near_request []);
          writable = left_of upstream.user (left_of front.user n);
        })
  unfolding dial_chain
  dial_chain-through second_ok first_ok front_socks up_socks front_fits up_fits near_there far_there
        near_ok far_ok dial_ok =
      let behind = hello_onto upstream.user (reply_onto far tunnel) in
      let sent = messages front.user near_request [] in
      let one =
        tunnelled-socks net front (proxy_address env upstream) first.connect_host near near_request
          behind [] (suc (suc (suc n))) front_socks front_fits near_there near_ok in
      let two =
        tunnelled-socks net upstream target second.connect_host far far_request tunnel sent
          (left_of front.user n) up_socks up_fits far_there far_ok in
      rw
        (
          resolved-ok env second upstream second_ok,
          resolved-ok env first front first_ok,
          dialed-ok net (proxy_address env front) _ dial_ok,
          one,
          left_of-three front.user n,
          two,
        )
        refl
