-- ===== src/Server/Timeouts.antt =====
-- server.go: `checkForTimeouts` slot by slot.
use netcode_go.Prelude.{
  ℕ, ◌+◌, ◌<◌, ◌≤◌, ◌&&◌, ◌≡◌, ◌≢◌, ◌∙◌, Bool, true, false, not, Bool-cases, refl, sym, ap, subst,
  arith, inl, inr, get_or-set_ne, if◌then◌else◌, dec_lt, ◌⊎◌,
}
use netcode_go.Float.{Float64}
use netcode_go.Encryption.{is_positive}
use netcode_go.Server.{
  Server, ClientSlot, Env, timed_out, client, new_slot, for_slots, reset_client_slot,
}
use netcode_go.Server.Send.{release_client, disconnect_client_internal}
use netcode_go.Server.Process.{time_out_slot, check_for_timeouts}
use netcode_go.Server.Refine.Send.{seat-roster, disconnect_client_internal-roster}
use netcode_go.Server.Refine.Sweep.{for_slots_lem, if_on}
use netcode_go.Server.Roster.{roster, seat}
use netcode_go.Server.Valid.{vacated_self}

module _ (env : Env) where
  -- A client on the network with a timeout, from which nothing came for that time.
  abbrev pub is_silent : Float64 → ClientSlot → Bool
  is_silent time c =
      c.connected
      && is_positive c.timeout
      && not c.loopback
      && env.fl.le (env.fl.add c.last_packet_receive_time (env.fl.from_int32 c.timeout)) time

  abbrev pub overdue : Server → ℕ → Bool
  overdue s i = is_silent s.time (client s i)

  dropped : Server → ℕ → Server
  dropped s i = disconnect_client_internal env s i false timed_out

  client-dropped_other : (s : Server) (i j : ℕ) → i ≢ j → client (dropped s i) j ≡ client s j
  unfolding dropped disconnect_client_internal release_client reset_client_slot
  client-dropped_other s i j ne =
      get_or-set_ne _ i j _ new_slot ne
      ∙ get_or-set_ne _ i j _ new_slot ne
      ∙ get_or-set_ne s.clients i j _ new_slot ne

  client-dropped_self : (s : Server) (i : ℕ) → (client (dropped s i) i).connected ≡ false
  unfolding dropped
  client-dropped_self s i =
      sym (ap (λ x. x.taken) (seat-roster (dropped s i) i))
      ∙ ap (λ r. (seat r i).taken) (disconnect_client_internal-roster env s i false timed_out)
      ∙ ap (λ x. x.taken) (vacated_self (roster s) i)

  time-dropped : (s : Server) (i : ℕ) → (dropped s i).time ≡ s.time
  unfolding dropped disconnect_client_internal release_client reset_client_slot
  time-dropped s i = refl

  -- Where the loop stands in front of slot `i`.
  pub record Swept (s : Server) (i : ℕ) (t : Server) : Type 0 where
    pub time : t.time ≡ s.time
    pub gone : (j : ℕ) → j < i → overdue s j ≡ true → (client t j).connected ≡ false
    pub kept : (j : ℕ) → overdue s j ≡ false → client t j ≡ client s j
    pub ahead : (j : ℕ) → i ≤ j → client t j ≡ client s j

  pub same_overdue :
      (s t : Server) (i : ℕ) → t.time ≡ s.time → client t i ≡ client s i → overdue t i ≡ overdue s i
  same_overdue s t i e c = ap (λ x. is_silent x (client t i)) e ∙ ap (λ x. is_silent s.time x) c

  dropped-Swept :
      (s t : Server) (i : ℕ) → overdue t i ≡ true → Swept s i t → Swept s (i + 1) (dropped t i)
  dropped-Swept s t i q w = record {
    time = time-dropped t i ∙ w.time;
    gone = λ j lt o. elim (dec_lt j i) [
      | yes less ↦
          ap (λ c. c.connected) (client-dropped_other t i j (omega arith)) ∙ w.gone j less o
      | no more ↦
          subst (λ k. (client (dropped t i) k).connected ≡ false) (omega arith)
            (client-dropped_self t i)
    ];
    kept = λ j o. client-dropped_other t i j (different j o) ∙ w.kept j o;
    ahead = λ j le. client-dropped_other t i j (omega arith) ∙ w.ahead j (omega arith);
  }
    where
      different : (j : ℕ) → overdue s j ≡ false → i ≢ j
      different j o e = cc (sym (same_overdue s t i w.time (w.ahead i (omega arith))) ∙ q, o, e)

  skipped-Swept : (s t : Server) (i : ℕ) → overdue t i ≡ false → Swept s i t → Swept s (i + 1) t
  skipped-Swept s t i q w = record {
    time = w.time;
    gone = λ j lt o. elim (dec_lt j i) [
      | yes less ↦ w.gone j less o
      | no more ↦ absurd (same j (omega arith) o)
    ];
    kept = w.kept;
    ahead = λ j le. w.ahead j (omega arith);
  }
    where
      same : (j : ℕ) → i ≡ j → overdue s j ≡ true → ⊥
      same j e o = cc (sym (same_overdue s t i w.time (w.ahead i (omega arith))) ∙ q, o, e)

  pub time_out_slot-Swept :
      (m : ℕ) (s t : Server) (i : ℕ) → i < m → Swept s i t → Swept s (i + 1) (time_out_slot env t i)
  unfolding time_out_slot dropped
  time_out_slot-Swept m s t i lt w = either (overdue t i) refl
    where
      either :
          (b : Bool)
          → overdue t i ≡ b
          → Swept s (i + 1) (if b then disconnect_client_internal env t i false timed_out else t)
      either true q = dropped-Swept s t i q w
      either false q = skipped-Swept s t i q w

  -- On a running server, `checkForTimeouts` disconnects every network client in front of the last
  -- slot from which nothing came for its timeout, and leaves the slot of every other client as it
  -- was.
  pub check_for_timeouts-client :
      (s : Server) (j : ℕ)
      → s.running ≡ true
      → j < s.max_clients
      → ((overdue s j ≡ true) × ((client (check_for_timeouts env s) j).connected ≡ false))
        ⊎ ((overdue s j ≡ false) × (client (check_for_timeouts env s) j ≡ client s j))
  unfolding check_for_timeouts
  check_for_timeouts-client s j on lt =
      let start : Swept s 0 s = record {
        time = refl;
        gone = λ k below o. absurd (omega arith);
        kept = λ k o. refl;
        ahead = λ k le. refl;
      } in
      let w =
        for_slots_lem s.max_clients s.max_clients (λ i t. Swept s i t) (time_out_slot env)
          (time_out_slot-Swept s.max_clients s) 0 s (omega arith) start in
      let same = if_on s (for_slots s.max_clients 0 (time_out_slot env) s) s.running on in
      elim (Bool-cases (overdue s j)) [
        | inl o ↦ inl (o, ap (λ t. (client t j).connected) same ∙ w.gone j lt o)
        | inr o ↦ inr (o, ap (λ t. client t j) same ∙ w.kept j o)
      ]
