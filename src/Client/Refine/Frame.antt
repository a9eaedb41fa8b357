-- ===== src/Client/Refine/Frame.antt =====
-- client.go: sending, disconnection and the per-frame work, on the client's link.
use netcode_go.Prelude.{
  Star, ℕ, ◌+◌, ◌<◌, Bool, true, false, not, ◌||◌, List, Bytes, ◌≡◌, refl, ap, sym, ◌∙◌, one-Star,
  arith, Option-cases, Bool-cases, inl, inr, if◌then◌else◌,
}
use netcode_go.Float.{Float64}
use netcode_go.Address.{Address}
use netcode_go.Packet.{Packet}
use netcode_go.Server.{Env}
use netcode_go.Server.Send.{packet_data}
use netcode_go.Client.{
  Client, ClientEvent, ClientState, is_active, is_state, set_state, reset_before_next_connect,
  forget_connection, reset_connection_data, sending_connection_request, sending_connection_response,
  connected, connect_token_expired, invalid_connect_token, connection_timed_out,
  connection_response_timed_out, connection_request_timed_out, connection_denied, disconnected,
}
use netcode_go.Client.Send.{
  send_packet_to_server, send_by_state, send_packets, disconnect_internal, sent_recently,
}
use netcode_go.Client.Update.{
  select_next_server, is_last_server, connect_to_next_server, give_up, is_timed_out,
  is_token_expired, check_timeout, apply_timeouts, update,
}
use netcode_go.Client.Process.{receive_packets}
use netcode_go.Client.Link.{
  Heard, link, IsValid, idle, moved, moves, ends, Heards-loopback, Heards-Steps,
}
use netcode_go.Client.Refine.{Runs, Runs-append, Runs-same, Runs-if, Listens-Heards}
use netcode_go.Client.Refine.Packets.{receive_packets-Listens}

pub Heards-Runs : {c d : Client} → Star Heard (link c) (link d) → Runs c d
Heards-Runs h = record { steps = λ v. Heards-Steps h }

is_last_server_no :
    (c : Client)
    → is_last_server c ≡ false
    → c.server_address_index + 1 < c.connect_token.num_server_addresses
unfolding is_last_server
is_last_server_no c q = ground arith

module _ (env : Env) where
  -- What sending a packet does not write, it keeps.
  module _ {A : Type 0} (f : Client → A) where
    abbrev pub Keeps : Type 0
    Keeps =
        (c : Client) (n : ℕ) (events : List ClientEvent) (t : Float64)
        → f (record c { sequence = n; events = events; last_packet_send_time = t }) ≡ f c

    pub send_packet_to_server-keeps :
        Keeps → (c : Client) (p : Packet) → f (send_packet_to_server env c p) ≡ f c
    unfolding send_packet_to_server
    send_packet_to_server-keeps k c p =
        elim (Option-cases
          (packet_data env p c.sequence c.write_packet_key c.connect_token.protocol_id)) [
            | inl e ↦ rw (e, send_packet_to_server) (k c _ _ _)
            | inr (bytes, e) ↦ rw (e, send_packet_to_server) (k c _ _ _)
          ]

    unless_keeps : (b : Bool) (c d : Client) → f d ≡ f c → f (if b then c else d) ≡ f c
    unless_keeps true c d e = refl
    unless_keeps false c d e = e

    send_by_state-keeps : Keeps → (c : Client) (s : ClientState) → f (send_by_state env c s) ≡ f c
    unfolding send_by_state
    send_by_state-keeps k c sending_connection_request =
        unless_keeps (sent_recently env c) c _ (send_packet_to_server-keeps k c _)
    send_by_state-keeps k c sending_connection_response =
        unless_keeps (sent_recently env c) c _ (send_packet_to_server-keeps k c _)
    send_by_state-keeps k c connected =
        unless_keeps (sent_recently env c) c _ (send_packet_to_server-keeps k c _)
    send_by_state-keeps k c connect_token_expired = refl
    send_by_state-keeps k c invalid_connect_token = refl
    send_by_state-keeps k c connection_timed_out = refl
    send_by_state-keeps k c connection_response_timed_out = refl
    send_by_state-keeps k c connection_request_timed_out = refl
    send_by_state-keeps k c connection_denied = refl
    send_by_state-keeps k c disconnected = refl

    pub send_packets-keeps : Keeps → (c : Client) → f (send_packets env c) ≡ f c
    unfolding send_packets
    send_packets-keeps k c = send_by_state-keeps k c c.state

  pub send_packet_to_server-link :
      (c : Client) (p : Packet) → link (send_packet_to_server env c p) ≡ link c
  send_packet_to_server-link c p = send_packet_to_server-keeps link (λ d n e t. refl) c p

  pub send_packets-link : (c : Client) → link (send_packets env c) ≡ link c
  send_packets-link c = send_packets-keeps link (λ d n e t. refl) c

  pub reset_connection_data-link :
      (c : Client) (s : ClientState) → link (reset_connection_data env c s) ≡ idle s
  unfolding reset_connection_data reset_before_next_connect set_state forget_connection
  reset_connection_data-link c s = refl

  pub reset_connection_data-Runs :
      (c d : Client) (s : ClientState)
      → is_active s ≡ false
      → Runs c (reset_connection_data env d s)
  reset_connection_data-Runs c d s a = record {
    steps = λ v. rw (reset_connection_data-link d s) (one-Star (ends s a));
  }

  pub disconnect_internal-Runs :
      (c : Client) (s : ClientState) (b : Bool)
      → is_active s ≡ false
      → Runs c (disconnect_internal env c s b)
  unfolding disconnect_internal
  disconnect_internal-Runs c s b a =
      Runs-if (not (is_active c.state) || is_state c.state s) (λ q. Runs-same refl)
        (λ q. reset_connection_data-Runs c _ s a)

  pub moved-link :
      (c : Client)
      → link (
          set_state
            (reset_before_next_connect env (select_next_server c))
            sending_connection_request)
        ≡ moved (link c)
  unfolding set_state reset_before_next_connect select_next_server
  moved-link c = refl

  pub give_up_found :
      (c : Client) (s : ClientState)
      → is_last_server c ≡ false
      → give_up env c s
        ≡ set_state
            (reset_before_next_connect env (select_next_server c))
            sending_connection_request
  unfolding give_up connect_to_next_server
  give_up_found c s q = rw (q) refl

  pub give_up_missed :
      (c : Client) (s : ClientState)
      → is_last_server c ≡ true
      → give_up env c s ≡ disconnect_internal env c s false
  unfolding give_up connect_to_next_server
  give_up_missed c s q = rw (q) refl

  pub give_up-Runs :
      (c : Client) (s : ClientState)
      → (IsValid (link c) → is_active c.state ≡ true)
      → c.loopback ≡ false
      → is_active s ≡ false
      → Runs c (give_up env c s)
  give_up-Runs c s active network a = elim (Bool-cases (is_last_server c)) [
    | inl q ↦ rw (give_up_missed c s q) (disconnect_internal-Runs c s false a)
    | inr q ↦ rw (give_up_found c s q) (record {
      steps = λ v. rw (moved-link c) (one-Star (moves (active v) network (is_last_server_no c q)));
    })
  ]

  check_timeout-Runs :
      (c : Client) (s : ClientState)
      → s ≡ c.state
      → c.loopback ≡ false
      → Runs c (check_timeout env c s)
  unfolding check_timeout
  check_timeout-Runs c sending_connection_request e l =
      Runs-if (is_timed_out env c) (λ q. give_up-Runs c _ (λ v. ap is_active (sym e)) l refl)
        (λ q. Runs-same refl)
  check_timeout-Runs c sending_connection_response e l =
      Runs-if (is_timed_out env c) (λ q. give_up-Runs c _ (λ v. ap is_active (sym e)) l refl)
        (λ q. Runs-same refl)
  check_timeout-Runs c connected e l =
      Runs-if (is_timed_out env c) (λ q. disconnect_internal-Runs c _ false refl)
        (λ q. Runs-same refl)
  check_timeout-Runs c connect_token_expired e l = Runs-same refl
  check_timeout-Runs c invalid_connect_token e l = Runs-same refl
  check_timeout-Runs c connection_timed_out e l = Runs-same refl
  check_timeout-Runs c connection_response_timed_out e l = Runs-same refl
  check_timeout-Runs c connection_request_timed_out e l = Runs-same refl
  check_timeout-Runs c connection_denied e l = Runs-same refl
  check_timeout-Runs c disconnected e l = Runs-same refl

  apply_timeouts-Runs : (c : Client) → c.loopback ≡ false → Runs c (apply_timeouts env c)
  unfolding apply_timeouts
  apply_timeouts-Runs c l =
      Runs-if (is_token_expired env c) (λ q. disconnect_internal-Runs c _ false refl)
        (λ q.
          Runs-if c.should_disconnect
            (λ d. record {
              steps = λ v.
                  (give_up-Runs c c.should_disconnect_state (λ w. w.leaving_active d) l
                      v.idle_target).steps
                    v;
            })
            (λ d. check_timeout-Runs c c.state refl l))

  pub update-Runs :
      (c : Client) (time : Float64) (packets : List (Address × Bytes)) (now : ℕ)
      → Runs c (update env c time packets now)
  unfolding update
  update-Runs c time packets now =
      Runs-append (Runs-same {c = c} {d = record c { time = time }} refl) (
        Runs-if c.loopback (λ q. Runs-same refl)
          (λ q.
            let h =
              Listens-Heards packets
                (receive_packets-Listens env (record c { time = time }) packets now) in
            let t = receive_packets env (record c { time = time }) packets now in
            Runs-append (Runs-append (Heards-Runs {d = t} h) (Runs-same (send_packets-link t))) (
              apply_timeouts-Runs (send_packets env t)
                (ap (λ m. m.loopback) (send_packets-link t) ∙ Heards-loopback h ∙ q))))
