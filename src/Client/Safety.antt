-- ===== src/Client/Safety.antt =====
-- client.go: packets that the client does not listen to, and connect tokens that it does not take.
use netcode_go.Prelude.{
  ℕ, Bool, true, false, Option, none, some, Bytes, Result, ok, err, panics, ◌≡◌, refl, ap, sym,
  subst, ◌∙◌, ◌⊎◌, inl, inr, arith,
}
use netcode_go.Address.{Address, equal}
use netcode_go.Packet.{
  Packet, request, denied, challenge, response, keep_alive, payload, disconnect,
}
use netcode_go.Packet.Read.{Read}
use netcode_go.Replay.{ReplayProtection}
use netcode_go.Server.{Env}
use netcode_go.Token.Connect.{ConnectToken, read_connect_token}
use netcode_go.Token.Reads.{Usable, Checked, read_connect_token-Checked}
use netcode_go.Client.{Client, is_active, invalid_connect_token}
use netcode_go.Client.Process.{
  receive_denied, receive_challenge, receive_keep_alive, receive_payload, receive_disconnect,
  receive, process_packet_internal, store_replay, process_packet,
}
use netcode_go.Client.Api.{connect, disconnect as leave}
use netcode_go.Client.Link.{link, begun, IsValid, Steps-IsValid}
use netcode_go.Client.Refine.Calls.{
  connect_read, connect_unread, connected_link, refused_link, disconnect-Runs,
}

receive_idle :
    (c : Client) (p : Packet) (sequence : ℕ) → is_active c.state ≡ false → receive c p sequence ≡ c
unfolding receive receive_denied receive_challenge receive_keep_alive receive_payload
    receive_disconnect
receive_idle c denied sequence a = ground (arith, a)
receive_idle c (challenge p) sequence a = ground (arith, a)
receive_idle c (keep_alive p) sequence a = ground (arith, a)
receive_idle c (payload p) sequence a = ground (arith, a)
receive_idle c disconnect sequence a = ground (arith, a)
receive_idle c (request p) sequence a = refl
receive_idle c (response p) sequence a = refl

-- A packet for the client that is from elsewhere, or comes while there is no connection.
abbrev pub Unheard : Client → Address → Type 0
Unheard c from = (equal from c.server_address ≡ false) ⊎ (is_active c.state ≡ false)

process_packet_internal-Unheard :
    (c : Client) (from : Address) (p : Packet) (sequence : ℕ)
    → Unheard c from
    → process_packet_internal c from p sequence ≡ c
unfolding process_packet_internal
process_packet_internal-Unheard c from p sequence (inl e) = rw (e) refl
process_packet_internal-Unheard c from p sequence (inr a) =
    ground (arith, receive_idle c p sequence a)

store_replay-only :
    (c : Client) (r : Option ReplayProtection)
    → (w : ReplayProtection) × (store_replay c r ≡ record c { replay_protection = w })
unfolding store_replay
store_replay-only c none = (c.replay_protection, refl)
store_replay-only c (some r) = (r, refl)

read-Unheard :
    (c : Client) (from : Address) (r : Result Read)
    → Unheard c from
    → (w : ReplayProtection) × (elim r [
      | err ↦ c
      | panics ↦ c
      | ok r ↦
          let c' = store_replay c r.replay in
          elim (r.packet) [ none ↦ c' | some p ↦ process_packet_internal c' from p r.sequence ]
    ]
        ≡ record c { replay_protection = w })
read-Unheard c from err h = (c.replay_protection, refl)
read-Unheard c from panics h = (c.replay_protection, refl)
read-Unheard c from (ok r) h =
    let (w, e) = store_replay-only c r.replay in
    (w, received (store_replay c r.replay) w (r.packet) e)
  where
    received :
        (d : Client) (w : ReplayProtection) (p : Option Packet)
        → d ≡ record c { replay_protection = w }
        → elim p [ none ↦ d | some p ↦ process_packet_internal d from p r.sequence ]
          ≡ record c { replay_protection = w }
    received d w none e = e
    received d w (some p) e =
        process_packet_internal-Unheard d from p r.sequence (subst (λ x. Unheard x from) (sym e) h)
        ∙ e

module _ (env : Env) where
  -- A packet that is not from the server's address, or that comes while there is no connection,
  -- changes nothing of the client but possibly the replay window.
  pub process_packet-unheard :
      (c : Client) (from : Address) (bytes : Bytes) (now : ℕ)
      → (equal from c.server_address ≡ false) ⊎ (is_active c.state ≡ false)
      → (w : ReplayProtection) × (process_packet env c from bytes now
          ≡ record c { replay_protection = w })
  unfolding process_packet
  process_packet-unheard c from bytes now h = read-Unheard c from _ h

  connect_outcome :
      (c : Client) (bytes : Bytes) (p : ConnectToken × Bool)
      → read_connect_token (leave env c).connect_token bytes ≡ ok p
      → Checked p
      → ((t : ConnectToken) × (read_connect_token (leave env c).connect_token bytes ≡ ok (t, true))
          × Usable t
          × (link (connect env c bytes) ≡ begun (link (leave env c)) t))
        ⊎ ((t : ConnectToken) × (read_connect_token (leave env c).connect_token bytes
              ≡ ok (t, false))
            × (link (connect env c bytes)
                ≡ record (link (leave env c)) { state = invalid_connect_token; token = t }))
  connect_outcome c bytes (t, true) e k = inl (
    t,
    e,
    k.usable refl,
    ap link (connect_read env c bytes t e) ∙ connected_link env (leave env c) t,
  )
  connect_outcome c bytes (t, false) e k =
      inr (t, e, ap link (connect_unread env c bytes t e) ∙ refused_link env (leave env c) t)

  -- On a valid client, `Connect` with any bytes reads them without a panic. Either it gets a token
  -- with 1 to 32 servers that does not expire before it was created, and the client, disconnected
  -- from what it was connected to, turns to the token's first server with the token's keys; or the
  -- client, disconnected likewise, has an invalid connect token and neither keys nor a server of it.
  pub connect_outcomes :
      (c : Client) (bytes : Bytes)
      → IsValid (link c)
      → ((t : ConnectToken) × (read_connect_token (leave env c).connect_token bytes ≡ ok (t, true))
          × Usable t
          × (link (connect env c bytes) ≡ begun (link (leave env c)) t))
        ⊎ ((t : ConnectToken) × (read_connect_token (leave env c).connect_token bytes
              ≡ ok (t, false))
            × (link (connect env c bytes)
                ≡ record (link (leave env c)) { state = invalid_connect_token; token = t }))
  connect_outcomes c bytes v =
      let w = Steps-IsValid ((disconnect-Runs env c).steps v) v in
      let (p, e, k) = read_connect_token-Checked (leave env c).connect_token bytes w.sized in
      connect_outcome c bytes p e k
