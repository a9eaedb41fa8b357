-- ===== src/Client/Refine/Packets.antt =====
-- client.go: what the packets that the client receives do to its link.
use netcode_go.Prelude.{
  inl, inr, Bool-cases, subst, get_or, ℕ, true, ◌||◌, Option, none, some, List, [], ◌∷◌, Bytes, ok,
  err, panics, ◌≡◌, refl, ap, sym, ◌∙◌, arith, Result, ==_iff,
}
use netcode_go.Address.{Address, equal}
use netcode_go.Packet.{
  Packet, ConnectionChallenge, ConnectionKeepAlive, ConnectionPayload, request, denied, challenge,
  response, keep_alive, payload, disconnect,
}
use netcode_go.Packet.Read.{Read}
use netcode_go.Replay.{ReplayProtection}
use netcode_go.Server.{Env}
use netcode_go.Client.{
  connect_token_expired, invalid_connect_token, connection_timed_out, connection_response_timed_out,
  connection_request_timed_out, Client, ClientState, is_state, rank, set_state,
  sending_connection_request, sending_connection_response, connected, connection_denied,
  disconnected,
}
use netcode_go.Client.Link.{link, challenged, accepted, refused, dropped}
use netcode_go.Client.Refine.{
  Hears, Hears-same, Hears-if, Hears-Hearing, Hearing, Hearing-same, Listens,
}
use netcode_go.Client.Process.{
  receive_denied, receive_challenge, receive_keep_alive, receive_payload, receive_disconnect,
  receive, process_packet_internal, store_replay, process_packet, receive_packets,
}

abbrev states : List ClientState
states =
    connect_token_expired ∷ invalid_connect_token ∷ connection_timed_out
    ∷ connection_response_timed_out ∷ connection_request_timed_out ∷ connection_denied
    ∷ disconnected ∷ sending_connection_request ∷ sending_connection_response ∷ connected ∷ []

abbrev unrank : ℕ → ClientState
unrank n = get_or states n disconnected

unrank-rank : (a : ClientState) → unrank (rank a) ≡ a
unrank-rank connect_token_expired = refl
unrank-rank invalid_connect_token = refl
unrank-rank connection_timed_out = refl
unrank-rank connection_response_timed_out = refl
unrank-rank connection_request_timed_out = refl
unrank-rank connection_denied = refl
unrank-rank disconnected = refl
unrank-rank sending_connection_request = refl
unrank-rank sending_connection_response = refl
unrank-rank connected = refl

pub is_state_eq : (a b : ClientState) → is_state a b ≡ true → a ≡ b
is_state_eq a b h = sym (unrank-rank a) ∙ ap unrank ((==_iff (rank a) (rank b)).0 h) ∙ unrank-rank b

receive_denied-Hears : (c : Client) → Hears c (receive_denied c)
unfolding receive_denied
receive_denied-Hears c =
    Hears-if
      (is_state c.state sending_connection_request || is_state c.state sending_connection_response)
      (λ q. record { heard = inr (refused (ground arith) (ground arith)) }) (λ q. Hears-same refl)

receive_challenge-Hears : (c : Client) (p : ConnectionChallenge) → Hears c (receive_challenge c p)
unfolding receive_challenge set_state
receive_challenge-Hears c p =
    Hears-if (is_state c.state sending_connection_request)
      (λ q. record { heard = inr (challenged (is_state_eq _ _ q)) }) (λ q. Hears-same refl)

receive_keep_alive-Hears : (c : Client) (p : ConnectionKeepAlive) → Hears c (receive_keep_alive c p)
unfolding receive_keep_alive set_state
receive_keep_alive-Hears c p =
    Hears-if (is_state c.state connected) (λ q. Hears-same refl)
      (λ q.
        Hears-if (is_state c.state sending_connection_response)
          (λ q'. record { heard = inr (accepted (is_state_eq _ _ q')) }) (λ q'. Hears-same refl))

receive_payload-Hears :
    (c : Client) (p : ConnectionPayload) (sequence : ℕ) → Hears c (receive_payload c p sequence)
unfolding receive_payload
receive_payload-Hears c p sequence =
    Hears-if (is_state c.state connected) (λ q. Hears-same refl) (λ q. Hears-same refl)

receive_disconnect-Hears : (c : Client) → Hears c (receive_disconnect c)
unfolding receive_disconnect
receive_disconnect-Hears c =
    Hears-if (is_state c.state connected)
      (λ q. record { heard = inr (dropped (is_state_eq _ _ q)) }) (λ q. Hears-same refl)

receive-Hears : (c : Client) (p : Packet) (sequence : ℕ) → Hears c (receive c p sequence)
unfolding receive
receive-Hears c denied sequence = receive_denied-Hears c
receive-Hears c (challenge p) sequence = receive_challenge-Hears c p
receive-Hears c (keep_alive p) sequence = receive_keep_alive-Hears c p
receive-Hears c (payload p) sequence = receive_payload-Hears c p sequence
receive-Hears c disconnect sequence = receive_disconnect-Hears c
receive-Hears c (request p) sequence = Hears-same refl
receive-Hears c (response p) sequence = Hears-same refl

process_packet_internal-Hears :
    (c : Client) (from : Address) (p : Packet) (sequence : ℕ)
    → Hearing (link c) from (link (process_packet_internal c from p sequence))
unfolding process_packet_internal
process_packet_internal-Hears c from p sequence = elim (Bool-cases (equal from c.server_address)) [
  | inl q ↦
      rw (q, process_packet_internal)
        (Hears-Hearing {c = c} {d = receive c p sequence} from q (receive-Hears c p sequence))
  | inr q ↦ rw (q, process_packet_internal) (Hearing-same from refl)
]

store_replay-link : (c : Client) (r : Option ReplayProtection) → link (store_replay c r) ≡ link c
unfolding store_replay
store_replay-link c none = refl
store_replay-link c (some r) = refl

received-Hearing :
    (c d : Client) (from : Address) (p : Option Packet) (sequence : ℕ)
    → link d ≡ link c
    → Hearing
        (link c)
        from
        (link (elim p [ none ↦ d | some p ↦ process_packet_internal d from p sequence ]))
received-Hearing c d from none sequence e = Hearing-same from e
received-Hearing c d from (some p) sequence e =
    subst (λ l. Hearing l from (link (process_packet_internal d from p sequence))) e
      (process_packet_internal-Hears d from p sequence)

read-Hearing :
    (c : Client) (from : Address) (r : Result Read)
    → Hearing (link c) from (
        link (elim r [
          | err ↦ c
          | panics ↦ c
          | ok r ↦
              let c' = store_replay c r.replay in
              elim (r.packet) [ none ↦ c' | some p ↦ process_packet_internal c' from p r.sequence ]
        ]))
read-Hearing c from err = Hearing-same from refl
read-Hearing c from panics = Hearing-same from refl
read-Hearing c from (ok r) =
    received-Hearing c (store_replay c r.replay) from r.packet r.sequence
      (store_replay-link c r.replay)

module _ (env : Env) where
  pub process_packet-Hearing :
      (c : Client) (from : Address) (bytes : Bytes) (now : ℕ)
      → Hearing (link c) from (link (process_packet env c from bytes now))
  unfolding process_packet
  process_packet-Hearing c from bytes now = read-Hearing c from _

  pub receive_packets-Listens :
      (c : Client) (packets : List (Address × Bytes)) (now : ℕ)
      → Listens (link c) packets (link (receive_packets env c packets now))
  unfolding receive_packets Listens
  receive_packets-Listens c [] now = refl
  receive_packets-Listens c ((from, bytes) ∷ rest) now = (
    link (process_packet env c from bytes now),
    process_packet-Hearing c from bytes now,
    receive_packets-Listens (process_packet env c from bytes now) rest now,
  )
