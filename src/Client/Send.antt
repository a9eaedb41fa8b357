-- ===== src/Client/Send.antt =====
-- client.go: packets that the client sends, and disconnection.
use netcode_go.Prelude.{
  ℕ, zero, suc, ◌+◌, ◌%◌, ◌^◌, Bool, not, ◌&&◌, ◌||◌, none, some, ◌∷◌, if◌then◌else◌,
}
use netcode_go.Float.{packet_send_interval}
use netcode_go.Packet.{Packet, request, response, keep_alive, disconnect}
use netcode_go.Packet.Write.{version_info}
use netcode_go.Server.{Env}
use netcode_go.Server.Send.{packet_data, num_disconnect_packets}
use netcode_go.Client.{
  Client, ClientState, sent, is_active, is_state, reset_connection_data, sending_connection_request,
  sending_connection_response, connected,
}

-- The packets of `sendPackets`.
unfoldable pub connect_request : Client → Packet
connect_request c = request (record {
  version_info = version_info;
  protocol_id = c.connect_token.protocol_id;
  connect_token_expire_timestamp = c.connect_token.expire_timestamp;
  connect_token_nonce = c.connect_token.nonce;
  connect_token_data = c.connect_token.private_data;
})

unfoldable pub challenge_response : Client → Packet
challenge_response c = response (record {
  challenge_token_sequence = c.challenge_token_sequence;
  challenge_token_data = c.challenge_token_data;
})

abbrev pub empty_keep_alive : Packet
empty_keep_alive = keep_alive (record { client_index = 0; max_clients = 0 })

module _ (env : Env) where
  -- `sendPacketToServerInternal`
  unfoldable pub send_packet_to_server : Client → Packet → Client
  send_packet_to_server c p =
      let next = (c.sequence + 1) % 2 ^ 64 in
      elim (packet_data env p c.sequence c.write_packet_key c.connect_token.protocol_id) [
        | none ↦ record c { sequence = next }
        | some bytes ↦ record c {
          sequence = next;
          events = sent c.server_address p c.sequence c.write_packet_key bytes ∷ c.events;
          last_packet_send_time = c.time;
        }
      ]

  -- A packet was sent less than a tenth of a second ago.
  unfoldable pub sent_recently : Client → Bool
  sent_recently c = env.fl.le c.time (env.fl.add c.last_packet_send_time packet_send_interval)

  unfoldable pub send_by_state : Client → ClientState → Client
  send_by_state c sending_connection_request =
      if sent_recently c then c else send_packet_to_server c (connect_request c)
  send_by_state c sending_connection_response =
      if sent_recently c then c else send_packet_to_server c (challenge_response c)
  send_by_state c connected =
      if sent_recently c then c else send_packet_to_server c empty_keep_alive
  send_by_state c _ = c

  -- `sendPackets`
  unfoldable pub send_packets : Client → Client
  send_packets c = send_by_state c c.state

  unfoldable pub send_disconnect_packets : ℕ → Client → Client
  send_disconnect_packets zero c = c
  send_disconnect_packets (suc n) c = send_disconnect_packets n (send_packet_to_server c disconnect)

  -- `disconnectInternal`
  unfoldable pub disconnect_internal : Client → ClientState → Bool → Client
  disconnect_internal c destination send_packets =
      if not (is_active c.state) || is_state c.state destination
      then c
      else reset_connection_data env
          (if not c.loopback && send_packets && is_active c.state
            then send_disconnect_packets num_disconnect_packets c
            else c)
          destination
