-- ===== src/Server/Calls/Does.antt =====
-- server.go: what each public operation does to the roster.
use netcode_go.Prelude.{
  ℕ, zero, suc, ◌+◌, Bool, true, false, not, ◌&&◌, ◌||◌, List, Bytes, ◌≡◌, refl, ap, sym, subst,
  ◌∙◌, arith, ◌⊎◌, inl, inr, leb, ltb, if◌then◌else◌,
}
use netcode_go.Float.{Float64}
use netcode_go.Address.{Address}
use netcode_go.Server.{
  Server, Env, client, for_slots, max_clients_limit, server_disconnect, timed_out,
}
use netcode_go.Server.Send.{disconnect_client_internal}
use netcode_go.Server.Process.{
  receive_packets, keep_alive_slot, send_packets, time_out_slot, check_for_timeouts, update,
}
use netcode_go.Server.Api.{
  is_slot, connect_loopback_client, disconnect_loopback_client, disconnect_client, disconnect_slot,
  disconnect_all_clients, stop, start, boot, clear_queue, clear_reason,
}
use netcode_go.Server.Refine.Send.{seat-roster, disconnect_client_internal-roster}
use netcode_go.Server.Refine.Process.{
  read_and_process_packet-Hearing, receive_packets-Listens, keep_alive_slot-roster,
}
use netcode_go.Server.Refine.Stop.{
  stop-empty, stop_off, loopback_vacated, clear_queue-roster, clear_reason-roster,
}
use netcode_go.Server.Refine.Api.{
  loopback_seated, process_loopback_packet-roster, receive_packet-roster, send_packet-roster,
}
use netcode_go.Server.Roster.{
  Roster, Seat, roster, seat, seat_of, free_seat, loopback_seat, seated, vacated, Listens,
}
use netcode_go.Server.Valid.{IsValid}
use netcode_go.Server.Calls.{
  Call, starts, stops, updates, processes, disconnects, disconnects_all, sends, receives,
  connects_loopback, disconnects_loopback, processes_loopback, after_call,
}
use netcode_go.Server.Timeouts.{overdue, Swept, same_overdue, time_out_slot-Swept}
use netcode_go.Server.Calls.Promises.{Empty, timed, is_seat, is_taken, is_networked, swept, Does}

-- An operation with a guard that the seat decides as well.
guarded :
    (b : Bool) (test : Seat → Bool) (s t : Server) (i : ℕ) (r : Roster)
    → b ≡ test (seat_of (client s i))
    → (b ≡ true → roster t ≡ r)
    → roster (if b then t else s) ≡ (if test (seat (roster s) i) then r else roster s)
guarded b test s t i r e h =
    either b h ∙ ap (λ a. if a then r else roster s) (e ∙ sym (ap test (seat-roster s i)))
  where
    either :
        (b : Bool)
        → (b ≡ true → roster t ≡ r)
        → roster (if b then t else s) ≡ (if b then r else roster s)
    either true h = h refl
    either false h = refl

for_slots-roster :
    (n i : ℕ) (body : Server → ℕ → Server) (s : Server)
    → ((t : Server) (j : ℕ) → roster (body t j) ≡ roster t)
    → roster (for_slots n i body s) ≡ roster s
unfolding for_slots
for_slots-roster zero i body s h = refl
for_slots-roster (suc n) i body s h = for_slots-roster n (i + 1) body (body s i) h ∙ h s i

same_unless :
    (b : Bool) (s t : Server) → roster t ≡ roster s → roster (if b then s else t) ≡ roster s
same_unless true s t h = refl
same_unless false s t h = h

if_roster :
    (b : Bool) (s t : Server) (r : Roster)
    → roster t ≡ r
    → roster (if b then s else t) ≡ (if b then roster s else r)
if_roster true s t r h = refl
if_roster false s t r h = h

connect_loopback_client-seated :
    (s : Server) (i id : ℕ) (user_data : Bytes)
    → roster (connect_loopback_client s i id user_data) ≡ (
        if is_seat (roster s) i && not (seat (roster s) i).taken
        then seated (roster s) i (loopback_seat id)
        else roster s)
unfolding connect_loopback_client
connect_loopback_client-seated s i id user_data =
    guarded _ (λ x. is_slot s i && not x.taken) s _ i (seated (roster s) i (loopback_seat id)) refl
      (λ q. loopback_seated s i id _ refl)

disconnect_loopback_client-vacated :
    (s : Server) (i : ℕ)
    → roster (disconnect_loopback_client s i) ≡ (
        if is_taken (roster s) i && (seat (roster s) i).loopback
        then vacated (roster s) i
        else roster s)
unfolding disconnect_loopback_client
disconnect_loopback_client-vacated s i =
    guarded _ (λ x. (is_slot s i && x.taken) && x.loopback) s _ i (vacated (roster s) i) refl
      (λ q. loopback_vacated s i)

module _ (env : Env) where
  disconnect_slot-roster :
      (s : Server) (i : ℕ)
      → roster (disconnect_slot env s i)
        ≡ (if is_networked (seat (roster s) i) then vacated (roster s) i else roster s)
  unfolding disconnect_slot
  disconnect_slot-roster s i =
      guarded _ is_networked s _ i (vacated (roster s) i) refl
        (λ q. disconnect_client_internal-roster env s i true server_disconnect)

  swept_lem :
      (n i : ℕ) (s : Server) → roster (for_slots n i (disconnect_slot env) s) ≡ swept n i (roster s)
  unfolding for_slots swept
  swept_lem zero i s = refl
  swept_lem (suc n) i s =
      swept_lem n (i + 1) (disconnect_slot env s i)
      ∙ ap (λ r. swept n (i + 1) r) (disconnect_slot-roster s i)

  disconnect_all_clients-swept :
      (s : Server)
      → roster (disconnect_all_clients env s)
        ≡ (if not s.running then roster s else swept s.max_clients 0 (roster s))
  unfolding disconnect_all_clients
  disconnect_all_clients-swept s = if_roster (not s.running) s _ _ (swept_lem s.max_clients 0 s)

  disconnect_client-vacated :
      (s : Server) (i : ℕ)
      → roster (disconnect_client env s i) ≡ (
          if is_taken (roster s) i && not (seat (roster s) i).loopback
          then vacated (roster s) i
          else roster s)
  unfolding disconnect_client
  disconnect_client-vacated s i =
      guarded _ (λ x. (is_slot s i && x.taken) && not x.loopback) s _ i (vacated (roster s) i) refl
        (λ q. disconnect_client_internal-roster env s i true server_disconnect)

  time_out_slot-roster :
      (s : Server) (i : ℕ)
      → roster (time_out_slot env s i)
        ≡ (if overdue env s i then vacated (roster s) i else roster s)
  unfolding time_out_slot
  time_out_slot-roster s i = either (overdue env s i)
    where
      either :
          (b : Bool)
          → roster (if b then disconnect_client_internal env s i false timed_out else s)
            ≡ (if b then vacated (roster s) i else roster s)
      either true = disconnect_client_internal-roster env s i false timed_out
      either false = refl

  -- The slots ahead of the loop are as late as they were.
  timed_lem :
      (s : Server) (n i : ℕ) (t : Server)
      → Swept env s i t
      → roster (for_slots n i (time_out_slot env) t) ≡ timed (overdue env s) n i (roster t)
  unfolding for_slots timed
  timed_lem s zero i t w = refl
  timed_lem s (suc n) i t w =
      timed_lem s n (i + 1) (time_out_slot env t i)
        (time_out_slot-Swept env (i + 1) s t i (omega arith) w)
      ∙ ap (λ r. timed (overdue env s) n (i + 1) r)
          (time_out_slot-roster t i
            ∙ ap (λ b. if b then vacated (roster t) i else roster t)
                (same_overdue env s t i w.time (w.ahead i (omega arith))))

  check_for_timeouts-timed :
      (s : Server)
      → roster (check_for_timeouts env s)
        ≡ (if not s.running then roster s else timed (overdue env s) s.max_clients 0 (roster s))
  unfolding check_for_timeouts
  check_for_timeouts-timed s = if_roster (not s.running) s _ _ (
      timed_lem s s.max_clients 0 s (record {
        time = refl;
        gone = λ k below o. absurd (omega arith);
        kept = λ k o. refl;
        ahead = λ k le. refl;
      }))

  send_packets-roster : (s : Server) → roster (send_packets env s) ≡ roster s
  unfolding send_packets
  send_packets-roster s =
      same_unless (not s.running) s _
        (for_slots-roster s.max_clients 0 (keep_alive_slot env) s (keep_alive_slot-roster env))

  update-Does :
      (s : Server) (time : Float64) (packets : List (Address × Bytes)) (now : ℕ)
      → IsValid (roster s)
      → let k = send_packets env (receive_packets env (record s { time = time }) packets now) in
        Listens (roster s) packets (roster k)
        × (roster (update env s time packets now) ≡ (
            if not k.running then roster k else timed (overdue env k) k.max_clients 0 (roster k)))
  unfolding update
  update-Does s time packets now v =
      let t = receive_packets env (record s { time = time }) packets now in
      (
        subst (λ r. Listens (roster s) packets r) (sym (send_packets-roster t))
            (receive_packets-Listens env (record s { time = time }) packets now v),
        check_for_timeouts-timed (send_packets env t),
      )

  stop-Empty : (s : Server) → IsValid (roster s) → Empty false 0 (roster (stop env s))
  stop-Empty s v =
      let (off, slots, num, free) = stop-empty env s 0 v in
      record {
        is_running = off;
        has_slots = slots;
        nobody = num;
        free = λ j. (stop-empty env s j v).3;
      }

  boot-Empty :
      (s : Server) (n : ℕ) (key : Bytes) (now : ℕ)
      → ((j : ℕ) → seat (roster s) j ≡ free_seat)
      → Empty true n (roster (boot s n key now))
  unfolding boot
  boot-Empty s n key now free = record {
    is_running = refl;
    has_slots = refl;
    nobody = refl;
    free = free;
  }

  start-Empty :
      (s : Server) (n : ℕ) (key : Bytes) (now : ℕ)
      → IsValid (roster s)
      → (((leb n 0 || ltb max_clients_limit n) ≡ true)
          × (roster (start env s n key now) ≡ roster s))
        ⊎ (((leb n 0 || ltb max_clients_limit n) ≡ false)
            × Empty true n (roster (start env s n key now)))
  unfolding start
  start-Empty s n key now v = either (leb n 0 || ltb max_clients_limit n)
    where
      halted : Server
      halted = if s.running then stop env s else s

      halted-free :
          (b : Bool)
          → s.running ≡ b
          → (j : ℕ) → seat (roster (if b then stop env s else s)) j ≡ free_seat
      halted-free true e j = (stop-Empty s v).free j
      halted-free false e j =
          sym (ap (λ t. seat (roster t) j) (stop_off env s e)) ∙ (stop-Empty s v).free j

      opened : Server
      opened = boot halted n key now

      cleared :
          roster (for_slots max_clients_limit 0 clear_reason (for_slots n 0 clear_queue opened))
          ≡ roster opened
      cleared =
          for_slots-roster max_clients_limit 0 clear_reason _ (clear_reason-roster env)
          ∙ for_slots-roster n 0 clear_queue opened (clear_queue-roster env)

      either :
          (b : Bool)
          → ((b ≡ true)
              × (roster (
                    if b
                    then s
                    else for_slots max_clients_limit 0 clear_reason
                        (for_slots n 0 clear_queue opened))
                  ≡ roster s))
            ⊎ ((b ≡ false)
                × Empty true n (
                    roster (
                      if b
                      then s
                      else for_slots max_clients_limit 0 clear_reason
                          (for_slots n 0 clear_queue opened))))
      either true = inl (refl, refl)
      either false = inr (
        refl,
        subst (λ r. Empty true n r) (sym cleared)
            (boot-Empty halted n key now (halted-free s.running refl)),
      )

  -- Every public operation does to a valid server's roster what the abstract server promises.
  -- Start with 1 to 256 slots opens them empty, with other numbers it changes nothing; Stop closes
  -- the server with nobody in it. A packet changes nothing, or, on a running server, a client from
  -- its address comes to a free seat, whose address and id no client has, or a client at its
  -- address goes. Update does that for each packet in order, and then, on a running server,
  -- exactly the seats in front of the maximum are vacated whose network client was silent for its
  -- timeout. DisconnectClient vacates exactly the seat given, if a network client has it,
  -- DisconnectAllClients the seats of all network clients in front of the maximum, and
  -- DisconnectLoopbackClient the seat given, if a loopback client has it. ConnectLoopbackClient
  -- takes the seat given if it is free. Payloads change nothing.
  pub after_call-Does :
      (s : Server) (c : Call) → IsValid (roster s) → Does env s c (roster (after_call env s c))
  unfolding after_call Does
  after_call-Does s (starts n key now) v = start-Empty s n key now v
  after_call-Does s stops v = stop-Empty s v
  after_call-Does s (updates time packets now) v = update-Does s time packets now v
  after_call-Does s (processes from bytes now) v =
      read_and_process_packet-Hearing env s from bytes now v
  after_call-Does s (disconnects i) v = disconnect_client-vacated s i
  after_call-Does s disconnects_all v = disconnect_all_clients-swept s
  after_call-Does s (sends i bytes) v = send_packet-roster env s i bytes
  after_call-Does s (receives i) v = receive_packet-roster s i
  after_call-Does s (connects_loopback i id user_data) v =
      connect_loopback_client-seated s i id user_data
  after_call-Does s (disconnects_loopback i) v = disconnect_loopback_client-vacated s i
  after_call-Does s (processes_loopback i bytes sequence) v =
      process_loopback_packet-roster s i bytes sequence
