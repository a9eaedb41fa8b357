-- ===== src/Server/Refine/Api.antt =====
-- server.go: what the other public operations do to the roster.
use netcode_go.Prelude.{
  one-Star, ℕ, set, ◌+◌, ◌%◌, ◌^◌, ◌&&◌, ◌||◌, Bool, true, false, not, Bool-cases, Bytes, ◌≡◌, refl,
  ap, sym, subst, ◌∙◌, arith, inl, inr, if◌then◌else◌,
}
use netcode_go.Packet.{keep_alive}
use netcode_go.Queue
use netcode_go.Server.{
  Server, ClientSlot, Env, server_disconnect, client, loopback_sent, with_client, emit,
}
use netcode_go.Server.Send.{send_client_packet}
use netcode_go.Server.Api.{
  is_slot, has_client, send_loopback, connect_loopback_client, is_payload, process_loopback_packet,
  receive_packet, disconnect_client, announce, send_packet,
}
use netcode_go.Server.Refine.Send.{seat-roster, with_client-roster, send_client_packet-roster}
use netcode_go.Server.Refine.Process.{Runs, Runs-same, Runs-if, disconnect_client_internal-Runs}
use netcode_go.Server.Roster.{
  roster, seat_of, seats_of, seats_of-set, seated, loopback_seat, Steps, hosts,
}

-- A slot written with a loopback client's seat.
pub loopback_seated :
    (s : Server) (i id : ℕ) (c : ClientSlot)
    → seat_of c ≡ loopback_seat id
    → record (roster s) { seats = seats_of (set s.clients i c); num = s.num_connected_clients + 1 }
      ≡ seated (roster s) i (loopback_seat id)
loopback_seated s i id c h =
    ap (λ xs. record (roster s) { seats = xs; num = s.num_connected_clients + 1 })
      (seats_of-set s.clients i c ∙ ap (λ x. set (seats_of s.clients) i x) h)

pub connect_loopback_client-Runs :
    (s : Server) (i id : ℕ) (user_data : Bytes) → Runs s (connect_loopback_client s i id user_data)
unfolding connect_loopback_client
connect_loopback_client-Runs s i id user_data =
    Runs-if (is_slot s i && not (client s i).connected)
      (λ q. record {
        steps = λ v.
            subst (λ r. Steps (roster s) r) (sym (loopback_seated s i id _ refl))
              (one-Star
                (hosts i id (ground arith) (ap (λ x. x.taken) (seat-roster s i) ∙ ground arith)));
      })
      (λ q. Runs-same refl)

pub process_loopback_packet-roster :
    (s : Server) (i : ℕ) (bytes : Bytes) (sequence : ℕ)
    → roster (process_loopback_packet s i bytes sequence) ≡ roster s
unfolding process_loopback_packet
process_loopback_packet-roster s i bytes sequence = either _
  where
    either :
        (b : Bool)
        → roster (
            if b
            then with_client s i (record (client s i) {
              last_packet_receive_time = s.time;
              packet_queue =
                  (Queue.push
                    (client s i).packet_queue
                    (record { payload_data = bytes })
                    sequence).0;
            })
            else s)
          ≡ roster s
    either true =
        with_client-roster s i
          (record (client s i) {
            last_packet_receive_time = s.time;
            packet_queue =
                (Queue.push (client s i).packet_queue (record { payload_data = bytes }) sequence).0;
          })
          refl
    either false = refl

pub receive_packet-roster : (s : Server) (i : ℕ) → roster ((receive_packet s i).0) ≡ roster s
unfolding receive_packet
receive_packet-roster s i = elim (Bool-cases (has_client s i)) [
  | inl q ↦
      rw (q, receive_packet)
        (with_client-roster s i
          (record (client s i) { packet_queue = (Queue.pop (client s i).packet_queue).0 }) refl)
  | inr q ↦ rw (q, receive_packet) refl
]

same_either :
    (b : Bool) (s t u : Server)
    → roster t ≡ roster s
    → roster u ≡ roster s
    → roster (if b then t else u) ≡ roster s
same_either true s t u e f = e
same_either false s t u e f = f

send_loopback-roster :
    (s : Server) (i : ℕ) (bytes : Bytes) → roster (send_loopback s i bytes) ≡ roster s
unfolding send_loopback
send_loopback-roster s i bytes =
    with_client-roster (emit s (loopback_sent i bytes (client s i).sequence)) i
      (record (client s i) {
        sequence = ((client s i).sequence + 1) % 2 ^ 64;
        last_packet_send_time = s.time;
      })
      refl

module _ (env : Env) where
  pub disconnect_client-Runs : (s : Server) (i : ℕ) → Runs s (disconnect_client env s i)
  unfolding disconnect_client
  disconnect_client-Runs s i =
      Runs-if (has_client s i && not (client s i).loopback)
        (λ q. disconnect_client_internal-Runs env s i true server_disconnect (ground arith))
        (λ q. Runs-same refl)

  announce-roster : (s : Server) (i : ℕ) → roster (announce env s i) ≡ roster s
  unfolding announce
  announce-roster s i = either (client s i).confirmed
    where
      either :
          (b : Bool)
          → roster (
              if b
              then s
              else send_client_packet env s
                  (keep_alive (record { client_index = i; max_clients = s.max_clients }))
                  i)
            ≡ roster s
      either true = refl
      either false = send_client_packet-roster env s _ i

  pub send_packet-roster :
      (s : Server) (i : ℕ) (bytes : Bytes) → roster (send_packet env s i bytes) ≡ roster s
  unfolding send_packet
  send_packet-roster s i bytes =
      same_either (not (is_payload bytes) || not (has_client s i)) s _ _ refl (
        same_either (client s i).loopback s _ _ (send_loopback-roster s i bytes)
          (send_client_packet-roster env (announce env s i) _ i ∙ announce-roster s i))
