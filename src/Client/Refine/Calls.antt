-- ===== src/Client/Refine/Calls.antt =====
-- client.go: the operations of a client's user, and a client through any sequence of them.
use netcode_go.Prelude.{
  ℕ, Bool, true, false, not, ◌&&◌, ◌||◌, List, [], ◌∷◌, Bytes, ok, ◌≡◌, refl, ap, arith, one-Star,
  Star-append, inl, inr, Bool-cases,
}
use netcode_go.Float.{Float64}
use netcode_go.Address.{Address}
use netcode_go.Server.{Env}
use netcode_go.Server.Api.{is_payload}
use netcode_go.Token.Connect.{ConnectToken, read_connect_token}
use netcode_go.Token.Reads.{Checked, read_connect_token-Checked}
use netcode_go.Client.{
  Client, new_client, is_active, is_state, set_state, reset_before_next_connect, disconnected,
  invalid_connect_token, sending_connection_request, connected,
}
use netcode_go.Client.Send.{disconnect_internal}
use netcode_go.Client.Process.{process_packet}
use netcode_go.Client.Update.{update}
use netcode_go.Client.Api.{
  use_token, connect_loopback, process_loopback_packet, receive_packet, disconnect,
  disconnect_loopback, close, connect, send_packet,
}
use netcode_go.Client.Link.{
  link, begun, IsValid, Steps, Steps-IsValid, idle-IsValid, begins, refuses, hosts,
}
use netcode_go.Client.Refine.{Hearing-Heards, Runs, Runs-append, Runs-same, Runs-if}
use netcode_go.Client.Refine.Packets.{process_packet-Hearing, is_state_eq}
use netcode_go.Client.Refine.Frame.{
  Heards-Runs, send_packet_to_server-link, disconnect_internal-Runs, reset_connection_data-Runs,
  reset_connection_data-link, update-Runs,
}

-- The public operations that change a client, with what they read from outside: the clock, and the
-- packets that arrived.
pub data Call : Type 0 where
  connects : Bytes → Call
  disconnects : Call
  disconnects_loopback : Call
  closes : Call
  updates : Float64 → List (Address × Bytes) → ℕ → Call
  processes : Address → Bytes → ℕ → Call
  sends : Bytes → Call
  receives : Call
  connects_loopback : ℕ → ℕ → Call
  processes_loopback : Bytes → ℕ → Call

connect_loopback-Runs : (c : Client) (i m : ℕ) → Runs c (connect_loopback c i m)
unfolding connect_loopback
connect_loopback-Runs c i m = record { steps = λ v. one-Star hosts }

process_loopback_packet-link :
    (c : Client) (bytes : Bytes) (sequence : ℕ) → Runs c (process_loopback_packet c bytes sequence)
unfolding process_loopback_packet
process_loopback_packet-link c bytes sequence =
    Runs-if (c.loopback && is_payload bytes) (λ q. Runs-same refl) (λ q. Runs-same refl)

receive_packet-Runs : (c : Client) → Runs c ((receive_packet c).0)
unfolding receive_packet
receive_packet-Runs c = Runs-same refl

module _ (env : Env) where
  pub disconnect-Runs : (c : Client) → Runs c (disconnect env c)
  unfolding disconnect
  disconnect-Runs c = disconnect_internal-Runs env c disconnected true refl

  disconnect_loopback-Runs : (c : Client) → Runs c (disconnect_loopback env c)
  unfolding disconnect_loopback
  disconnect_loopback-Runs c = reset_connection_data-Runs env c c disconnected refl

  close-Runs : (c : Client) → Runs c (close env c)
  unfolding close
  close-Runs c =
      Runs-append
        (Runs-if (not c.loopback) (λ q. disconnect-Runs c) (λ q. disconnect_loopback-Runs c))
        (Runs-same refl)

  send_packet-Runs : (c : Client) (bytes : Bytes) → Runs c (send_packet env c bytes)
  unfolding send_packet
  send_packet-Runs c bytes =
      Runs-if (not (is_payload bytes) || not (is_state c.state connected)) (λ q. Runs-same refl)
        (λ q.
          Runs-if (not c.loopback) (λ k. Runs-same (send_packet_to_server-link env c _))
            (λ k. Runs-same refl))

  -- Disconnecting leaves no connection.
  pub disconnect-inactive : (c : Client) → is_active (disconnect env c).state ≡ false
  unfolding disconnect disconnect_internal
  disconnect-inactive c =
      elim (Bool-cases (not (is_active c.state) || is_state c.state disconnected)) [
        | inl q ↦ rw (q) (ground (arith, is_state_eq c.state disconnected))
        | inr q ↦
            rw (q) (ap (λ l. is_active l.state) (reset_connection_data-link env _ disconnected))
      ]

  pub connect_read :
      (c : Client) (bytes : Bytes) (t : ConnectToken)
      → read_connect_token (disconnect env c).connect_token bytes ≡ ok (t, true)
      → connect env c bytes
        ≡ set_state
            (reset_before_next_connect env (use_token (disconnect env c) t))
            sending_connection_request
  unfolding connect
  connect_read c bytes t e = rw (e, connect) refl

  pub connect_unread :
      (c : Client) (bytes : Bytes) (t : ConnectToken)
      → read_connect_token (disconnect env c).connect_token bytes ≡ ok (t, false)
      → connect env c bytes
        ≡ set_state (record (disconnect env c) { connect_token = t }) invalid_connect_token
  unfolding connect
  connect_unread c bytes t e = rw (e, connect) refl

  pub connected_link :
      (c : Client) (t : ConnectToken)
      → link (set_state (reset_before_next_connect env (use_token c t)) sending_connection_request)
        ≡ begun (link c) t
  unfolding set_state reset_before_next_connect use_token
  connected_link c t = refl

  pub refused_link :
      (c : Client) (t : ConnectToken)
      → link (set_state (record c { connect_token = t }) invalid_connect_token)
        ≡ record (link c) { state = invalid_connect_token; token = t }
  unfolding set_state
  refused_link c t = refl

  connect_outcome :
      (c : Client) (bytes : Bytes) (p : ConnectToken × Bool)
      → read_connect_token (disconnect env c).connect_token bytes ≡ ok p
      → Checked p
      → Steps (link (disconnect env c)) (link (connect env c bytes))
  connect_outcome c bytes (t, true) e k =
      rw (connect_read c bytes t e, connected_link (disconnect env c) t)
        (one-Star (begins t (disconnect-inactive c) k))
  connect_outcome c bytes (t, false) e k =
      rw (connect_unread c bytes t e, refused_link (disconnect env c) t)
        (one-Star (refuses t (disconnect-inactive c) k.size))

  connect-Runs : (c : Client) (bytes : Bytes) → Runs c (connect env c bytes)
  connect-Runs c bytes = record {
    steps = λ v.
        let w = Steps-IsValid ((disconnect-Runs c).steps v) v in
        let (p, e, k) = read_connect_token-Checked (disconnect env c).connect_token bytes w.sized in
        Star-append ((disconnect-Runs c).steps v) (connect_outcome c bytes p e k);
  }

  unfoldable pub after_call : Client → Call → Client
  after_call c (connects bytes) = connect env c bytes
  after_call c disconnects = disconnect env c
  after_call c disconnects_loopback = disconnect_loopback env c
  after_call c closes = close env c
  after_call c (updates time packets now) = update env c time packets now
  after_call c (processes from bytes now) = process_packet env c from bytes now
  after_call c (sends bytes) = send_packet env c bytes
  after_call c receives = (receive_packet c).0
  after_call c (connects_loopback i m) = connect_loopback c i m
  after_call c (processes_loopback bytes sequence) = process_loopback_packet c bytes sequence

  unfoldable pub after_calls : Client → List Call → Client
  after_calls c [] = c
  after_calls c (a ∷ calls) = after_calls (after_call c a) calls

  after_call-Runs : (c : Client) (a : Call) → Runs c (after_call c a)
  unfolding after_call
  after_call-Runs c (connects bytes) = connect-Runs c bytes
  after_call-Runs c disconnects = disconnect-Runs c
  after_call-Runs c disconnects_loopback = disconnect_loopback-Runs c
  after_call-Runs c closes = close-Runs c
  after_call-Runs c (updates time packets now) = update-Runs env c time packets now
  after_call-Runs c (processes from bytes now) =
      Heards-Runs (Hearing-Heards from (process_packet-Hearing env c from bytes now))
  after_call-Runs c (sends bytes) = send_packet-Runs c bytes
  after_call-Runs c receives = receive_packet-Runs c
  after_call-Runs c (connects_loopback i m) = connect_loopback-Runs c i m
  after_call-Runs c (processes_loopback bytes sequence) =
      process_loopback_packet-link c bytes sequence

  -- Every public operation takes a valid client along steps of the link.
  after_client_call-Steps :
      (c : Client) (a : Call) → IsValid (link c) → Steps (link c) (link (after_call c a))
  after_client_call-Steps c a v = (after_call-Runs c a).steps v

  after_calls-IsValid :
      (c : Client) (calls : List Call) → IsValid (link c) → IsValid (link (after_calls c calls))
  unfolding after_calls
  after_calls-IsValid c [] v = v
  after_calls-IsValid c (a ∷ calls) v =
      after_calls-IsValid (after_call c a) calls (Steps-IsValid (after_client_call-Steps c a v) v)

new_client-IsValid : (time : Float64) → IsValid (link (new_client time))
unfolding new_client
new_client-IsValid time = idle-IsValid disconnected refl

-- A client from its creation, through any calls, with any packets from the network, is valid: a
-- loopback client is connected, only a client with a connection is about to leave it and then for a
-- state without one, and a connected or connecting network client uses the keys of its token and the
-- address that the token has at the client's index, which is below the token's number of servers.
pub client_reached-IsValid :
    (env : Env) (time : Float64) (calls : List Call)
    → IsValid (link (after_calls env (new_client time) calls))
client_reached-IsValid env time calls =
    after_calls-IsValid env (new_client time) calls (new_client-IsValid time)
