-- ===== src/Server/Refine/Send.antt =====
-- server.go: what sending and disconnecting do to the roster.
use netcode_go.Prelude.{
  ℕ, zero, suc, ◌+◌, ◌-◌, Bool, true, false, Bool-cases, Option-cases, Bytes, ◌≡◌, refl, ap, ◌∙◌,
  inl, inr, if◌then◌else◌, ◌%◌, ◌^◌,
}
use netcode_go.Address.{Address}
use netcode_go.Replay
use netcode_go.Encryption.{touch, get_send_key, at}
use netcode_go.Packet.{Packet, disconnect}
use netcode_go.Server.{
  Server, ClientSlot, Env, DisconnectReason, client, with_client, emit, connection_changed,
  new_slot, reset_client_slot,
}
use netcode_go.Server.Send.{
  packet_data, send_global_packet, send_with_key, send_client_packet, send_disconnect_packets,
  release_client, disconnect_client_internal, num_disconnect_packets,
}
use netcode_go.Server.Roster.{
  roster, seat, seat_of, seats_of-set, seats_of-set_same, get_or-seats_of, vacated,
}

-- The seat of a slot.
pub seat-roster : (s : Server) (i : ℕ) → seat (roster s) i ≡ seat_of (client s i)
unfolding new_slot
seat-roster s i = get_or-seats_of s.clients i new_slot

-- A slot written with the same seat.
pub with_client-roster :
    (s : Server) (i : ℕ) (c : ClientSlot)
    → seat_of c ≡ seat_of (client s i)
    → roster (with_client s i c) ≡ roster s
with_client-roster s i c h =
    ap (λ xs. record (roster s) { seats = xs }) (seats_of-set_same s.clients i c new_slot h)

pub reset_client_slot-roster :
    (s : Server) (i : ℕ) → roster (reset_client_slot s i) ≡ vacated (roster s) i
unfolding reset_client_slot
reset_client_slot-roster s i =
    ap (λ xs. record (roster s) { seats = xs; num = s.num_connected_clients - 1 })
      (seats_of-set s.clients i _)

module _ (env : Env) where
  pub send_global_packet-roster :
      (s : Server) (p : Packet) (to : Address) (key : Bytes)
      → roster (send_global_packet env s p to key) ≡ roster s
  unfolding send_global_packet
  send_global_packet-roster s p to key =
      elim (Option-cases (packet_data env p s.global_sequence key s.config.protocol_id)) [
        | inl e ↦ rw (e, send_global_packet) refl
        | inr (bytes, e) ↦ rw (e, send_global_packet) refl
      ]

  pub send_with_key-roster :
      (s : Server) (p : Packet) (i : ℕ) (key : Bytes)
      → roster (send_with_key env s p i key) ≡ roster s
  unfolding send_with_key
  send_with_key-roster s p i key =
      elim (Option-cases (packet_data env p (client s i).sequence key s.config.protocol_id)) [
        | inl e ↦ rw (e, send_with_key) refl
        | inr (bytes, e) ↦
            rw (e, send_with_key)
              (with_client-roster s i
                (record (client s i) {
                  sequence = ((client s i).sequence + 1) % 2 ^ 64;
                  last_packet_send_time = s.time;
                })
                refl)
      ]

  pub send_client_packet-roster :
      (s : Server) (p : Packet) (i : ℕ) → roster (send_client_packet env s p i) ≡ roster s
  unfolding send_client_packet get_send_key
  send_client_packet-roster s p i = elim (Option-cases ((client s i).encryption_index)) [
    | inl n ↦ rw (n, send_client_packet) refl
    | inr (e, n) ↦
        let (m, current) = touch s.encryption_manager e (client s i).address s.time in
        elim (Bool-cases ((touch s.encryption_manager e (client s i).address s.time).1)) [
          | inl q ↦
              rw (n, send_client_packet, q)
                (send_with_key-roster (record s { encryption_manager = m }) p i ((at m e).send_key))
          | inr q ↦ rw (n, send_client_packet, q) refl
        ]
  ]

  pub send_disconnect_packets-roster :
      (n : ℕ) (s : Server) (i : ℕ) → roster (send_disconnect_packets env n s i) ≡ roster s
  unfolding send_disconnect_packets
  send_disconnect_packets-roster zero s i = refl
  send_disconnect_packets-roster (suc n) s i =
      send_disconnect_packets-roster n (send_client_packet env s disconnect i) i
      ∙ send_client_packet-roster s disconnect i

  release_client-roster :
      (s : Server) (i : ℕ) → roster (release_client env s i) ≡ vacated (roster s) i
  unfolding release_client
  release_client-roster s i =
      let s1 = with_client s i (record (client s i) { replay_protection = Replay.reset }) in
      reset_client_slot-roster (record s1 { encryption_manager = _ }) i
      ∙ ap (λ r. vacated r i)
          (with_client-roster s i (record (client s i) { replay_protection = Replay.reset }) refl)

  pub disconnect_client_internal-roster :
      (s : Server) (i : ℕ) (send_packets : Bool) (reason : DisconnectReason)
      → roster (disconnect_client_internal env s i send_packets reason) ≡ vacated (roster s) i
  unfolding disconnect_client_internal
  disconnect_client_internal-roster s i b reason =
      let s2 =
        emit (with_client s i (record (client s i) { disconnect_reason = reason }))
          (connection_changed i false) in
      release_client-roster _ i
      ∙ ap (λ r. vacated r i)
          (sent s2 b
            ∙ with_client-roster s i (record (client s i) { disconnect_reason = reason }) refl)
    where
      sent :
          (t : Server) (b : Bool)
          → roster (if b then send_disconnect_packets env num_disconnect_packets t i else t)
            ≡ roster t
      sent t true = send_disconnect_packets-roster num_disconnect_packets t i
      sent t false = refl
