-- ===== src/Server/Refine/Stop.antt =====
-- server.go: `Stop` and `Start` against the roster.
use netcode_go.Prelude.{
  one-Star, ℕ, ◌+◌, ◌<◌, ◌≤◌, ◌&&◌, ◌||◌, Bool, true, false, not, Bool-cases, Bytes, ◌≡◌, refl, ap,
  sym, subst, ◌∙◌, arith, inl, inr, if◌then◌else◌, ltb, leb,
}
use netcode_go.Server.{
  Server, Env, server_disconnect, connection_changed, with_client, emit, reset_client_slot, client,
  for_slots, max_clients_limit, no_reason,
}
use netcode_go.Queue
use netcode_go.Server.Api.{
  has_client, disconnect_loopback_client, stop_loopback_slot, shut_down, clear_queue, clear_reason,
  boot, disconnect_slot, disconnect_all_clients, stop, start,
}
use netcode_go.Server.Refine.Send.{
  seat-roster, with_client-roster, reset_client_slot-roster, disconnect_client_internal-roster,
}
use netcode_go.Server.Refine.Process.{
  Runs, Runs-append, Runs-same, Runs-if, for_slots-Runs, disconnect_client_internal-Runs,
}
use netcode_go.Server.Roster.{roster, seat, vacated, free_seat, Steps, leaves, starts, stops}
use netcode_go.Server.Valid.{IsValid, Steps-IsValid, count_bound, vacated_self}
use netcode_go.Server.Refine.Sweep.{
  Swept, Swept-vacated, Swept-hosted, Swept-empty, if_on, if_off, for_slots_lem,
}

-- The roster after the branch of `DisconnectLoopbackClient` that disconnects.
pub loopback_vacated :
    (s : Server) (i : ℕ)
    → roster (
        reset_client_slot
          (emit
            (with_client s i (record (client s i) { disconnect_reason = server_disconnect }))
            (connection_changed i false))
          i)
      ≡ vacated (roster s) i
loopback_vacated s i =
    reset_client_slot-roster _ i
    ∙ ap (λ r. vacated r i)
        (with_client-roster s i (record (client s i) { disconnect_reason = server_disconnect })
          refl)

disconnect_loopback_client-roster :
    (s : Server) (i : ℕ)
    → (has_client s i && (client s i).loopback) ≡ true
    → roster (disconnect_loopback_client s i) ≡ vacated (roster s) i
unfolding disconnect_loopback_client
disconnect_loopback_client-roster s i q = rw (q, disconnect_loopback_client) (loopback_vacated s i)

pub disconnect_loopback_client-Runs : (s : Server) (i : ℕ) → Runs s (disconnect_loopback_client s i)
unfolding disconnect_loopback_client
disconnect_loopback_client-Runs s i = elim (Bool-cases (has_client s i && (client s i).loopback)) [
  | inl q ↦ record {
    steps = λ v.
        subst (λ r. Steps (roster s) r) (sym (disconnect_loopback_client-roster s i q))
          (one-Star (leaves i (ap (λ x. x.taken) (seat-roster s i) ∙ ground arith)));
  }
  | inr q ↦ rw (q, disconnect_loopback_client) (Runs-same refl)
]

stop_loopback_slot-Runs : (s : Server) (i : ℕ) → Runs s (stop_loopback_slot s i)
unfolding stop_loopback_slot
stop_loopback_slot-Runs s i =
    Runs-if ((client s i).connected && (client s i).loopback)
      (λ q. disconnect_loopback_client-Runs s i) (λ q. Runs-same refl)

stop_loopback_slot-Swept :
    (m : ℕ) (s : Server) (i : ℕ)
    → i < m
    → Swept m m i (roster s)
    → Swept m m (i + 1) (roster (stop_loopback_slot s i))
unfolding stop_loopback_slot
stop_loopback_slot-Swept m s i lt w =
    elim (Bool-cases ((client s i).connected && (client s i).loopback)) [
      | inl q ↦
          let here : (has_client s i && (client s i).loopback) ≡ true =
            ground (arith, w.on, w.slots) in
          rw (q, stop_loopback_slot, disconnect_loopback_client-roster s i here)
            (Swept-empty (Swept-vacated w i) (ap (λ x. x.taken) (vacated_self (roster s) i)))
      | inr q ↦
          rw (q, stop_loopback_slot)
            (Swept-empty w (ground (arith, seat-roster s i, w.hosted i lt)))
    ]

module _ (env : Env) where
  pub disconnect_slot-Runs : (s : Server) (i : ℕ) → Runs s (disconnect_slot env s i)
  unfolding disconnect_slot
  disconnect_slot-Runs s i =
      Runs-if ((client s i).connected && not (client s i).loopback)
        (λ q. disconnect_client_internal-Runs env s i true server_disconnect (ground arith))
        (λ q. Runs-same refl)

  disconnect_slot-Swept :
      (m : ℕ) (s : Server) (i : ℕ)
      → i < m
      → Swept m i 0 (roster s)
      → Swept m (i + 1) 0 (roster (disconnect_slot env s i))
  unfolding disconnect_slot
  disconnect_slot-Swept m s i lt w =
      elim (Bool-cases ((client s i).connected && not (client s i).loopback)) [
        | inl q ↦
            rw
              (q, disconnect_slot, disconnect_client_internal-roster env s i true server_disconnect)
              (Swept-hosted (Swept-vacated w i) (λ t. cc (t, vacated_self (roster s) i)))
        | inr q ↦ rw (q, disconnect_slot) (Swept-hosted w (λ t. ground (arith, seat-roster s i)))
      ]

  pub disconnect_all_clients-Runs : (s : Server) → Runs s (disconnect_all_clients env s)
  unfolding disconnect_all_clients
  disconnect_all_clients-Runs s =
      Runs-if (not s.running) (λ q. Runs-same refl)
        (λ q. for_slots-Runs s.max_clients 0 (disconnect_slot env) s disconnect_slot-Runs)

  disconnect_all_clients-Swept :
      (s : Server)
      → s.running ≡ true
      → Swept s.max_clients s.max_clients 0 (roster (disconnect_all_clients env s))
  unfolding disconnect_all_clients
  disconnect_all_clients-Swept s on =
      subst (λ t. Swept s.max_clients s.max_clients 0 (roster t)) (sym (if_on _ _ s.running on))
        (for_slots_lem s.max_clients s.max_clients (λ i t. Swept s.max_clients i 0 (roster t))
          (disconnect_slot env) (disconnect_slot-Swept s.max_clients) 0 s (omega arith)
          (record {
            on = on;
            slots = refl;
            hosted = λ j lt. absurd (omega arith);
            empty = λ j lt. absurd (omega arith);
          }))

  -- The server when the loops of `Stop` are done.
  emptied : Server → Server
  emptied s =
      for_slots (disconnect_all_clients env s).max_clients 0 stop_loopback_slot
        (disconnect_all_clients env s)

  emptied-Swept :
      (s : Server)
      → s.running ≡ true
      → Swept s.max_clients s.max_clients s.max_clients (roster (emptied s))
  unfolding emptied
  emptied-Swept s on =
      let w = disconnect_all_clients-Swept s on in
      for_slots_lem s.max_clients (disconnect_all_clients env s).max_clients
        (λ i t. Swept s.max_clients s.max_clients i (roster t)) stop_loopback_slot
        (stop_loopback_slot-Swept s.max_clients) 0 (disconnect_all_clients env s)
        (omega (arith, w.slots)) w

  stop_lem : (s : Server) → s.running ≡ true → stop env s ≡ shut_down (emptied s)
  unfolding stop emptied
  stop_lem s on = if_on _ _ s.running on

  pub stop_off : (s : Server) → s.running ≡ false → stop env s ≡ s
  unfolding stop
  stop_off s off = if_off _ _ s.running off

  pub stop-Runs : (s : Server) → Runs s (stop env s)
  unfolding emptied shut_down
  stop-Runs s = elim (Bool-cases s.running) [
    | inl on ↦
        let w = emptied-Swept s on in
        subst (λ t. Runs s t) (sym (stop_lem s on))
          (Runs-append {t = emptied s}
            (Runs-append (disconnect_all_clients-Runs s) (
              for_slots-Runs (disconnect_all_clients env s).max_clients 0 stop_loopback_slot
                (disconnect_all_clients env s) stop_loopback_slot-Runs))
            (record {
              steps = λ v. one-Star (stops (λ j lt. w.empty j (omega (arith, lt, w.slots))));
            }))
    | inr off ↦ subst (λ t. Runs s t) (sym (stop_off s off)) (Runs-same refl)
  ]

  -- Whatever a server with a valid roster was doing, after `Stop` it is not running, it has no slots
  -- and counts no clients, and every seat is clear.
  pub stop-empty :
      (s : Server) (j : ℕ)
      → IsValid (roster s)
      → ((stop env s).running ≡ false)
        × ((stop env s).max_clients ≡ 0)
        × ((stop env s).num_connected_clients ≡ 0)
        × (seat (roster (stop env s)) j ≡ free_seat)
  unfolding shut_down
  stop-empty s j v = elim (Bool-cases s.running) [
    | inl on ↦
        let after = Steps-IsValid ((stop-Runs s).steps v) v in
        let closed = stop_lem s on in
        let none_left : (stop env s).max_clients ≡ 0 = ap (λ t. t.max_clients) closed in
        (
          ap (λ t. t.running) closed,
          none_left,
          ap (λ t. t.num_connected_clients) closed,
          after.cleared j (after.behind j (omega (arith, none_left))),
        )
    | inr off ↦
        let same = stop_off s off in
        let none : s.max_clients ≡ 0 = v.closed off in
        let free = v.behind j (omega (arith, none)) in
        let low = count_bound (roster s).seats s.max_clients v.behind in
        (
          ap (λ t. t.running) same ∙ off,
          ap (λ t. t.max_clients) same ∙ none,
          ap (λ t. t.num_connected_clients) same ∙ omega (arith, v.counted, low, none),
          ap (λ t. seat (roster t) j) same ∙ v.cleared j free,
        )
  ]

  pub clear_queue-roster : (s : Server) (i : ℕ) → roster (clear_queue s i) ≡ roster s
  unfolding clear_queue
  clear_queue-roster s i =
      with_client-roster s i (record (client s i) { packet_queue = Queue.clear }) refl

  pub clear_reason-roster : (s : Server) (i : ℕ) → roster (clear_reason s i) ≡ roster s
  unfolding clear_reason
  clear_reason-roster s i =
      with_client-roster s i (record (client s i) { disconnect_reason = no_reason }) refl

  boot-Runs :
      (s : Server) (n : ℕ) (key : Bytes) (now : ℕ)
      → n ≤ max_clients_limit
      → s.running ≡ false
      → Runs s (boot s n key now)
  unfolding boot
  boot-Runs s n key now le off = record { steps = λ v. one-Star (starts n le off) }

  pub start-Runs : (s : Server) (n : ℕ) (key : Bytes) (now : ℕ) → Runs s (start env s n key now)
  unfolding start shut_down
  start-Runs s n key now =
      Runs-if (leb n 0 || ltb max_clients_limit n) (λ q. Runs-same refl)
        (λ q. Runs-append (opened q) (
          Runs-append (for_slots-Runs n 0 clear_queue _ (λ t j. Runs-same (clear_queue-roster t j)))
            (for_slots-Runs max_clients_limit 0 clear_reason _
              (λ t j. Runs-same (clear_reason-roster t j)))))
    where
      halted : (b : Bool) → s.running ≡ b → (if b then stop env s else s).running ≡ false
      halted true on = ap (λ t. t.running) (stop_lem s on)
      halted false off = off

      opened :
          (leb n 0 || ltb max_clients_limit n) ≡ false
          → Runs s (boot (if s.running then stop env s else s) n key now)
      opened q =
          Runs-append (Runs-if s.running (λ on. stop-Runs s) (λ off. Runs-same refl))
            (boot-Runs _ n key now (ground (arith, q)) (halted s.running refl))
