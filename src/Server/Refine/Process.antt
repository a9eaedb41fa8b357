-- ===== src/Server/Refine/Process.antt =====
-- server.go: what incoming packets and the per-frame work do to the roster.
use netcode_go.Prelude.{
  ◌⊎◌, inl, inr, Star-append, one-Star, same-Star, ℕ, zero, suc, ◌+◌, ◌&&◌, ◌||◌, Bool, true, false,
  not, Option, none, some, List, [], ◌∷◌, Bytes, ◌≡◌, refl, ap, sym, subst, ◌∙◌, arith,
  if◌then◌else◌, ◌==◌, leb, length, get_or, Result, ok, err, panics,
}
use netcode_go.Float.{Float64}
use netcode_go.Address.{Address}
use netcode_go.Encryption.{get_receive_key, is_positive}
use netcode_go.Packet.{
  Packet, ConnectionPayload, request, denied, challenge, response, keep_alive, payload, disconnect,
}
use netcode_go.Packet.Read.{Read}
use netcode_go.Queue
use netcode_go.Replay.{ReplayProtection}
use netcode_go.Server.{
  Server, Env, DisconnectReason, client_disconnect, timed_out, client, find_client_index_by_address,
  for_slots,
}
use netcode_go.Server.Send.{disconnect_client_internal}
use netcode_go.Server.Handshake.{is_none}
use netcode_go.Server.Process.{
  hear, enqueue, store_replay, reading_index, process_packet_internal, process_with_key,
  read_and_process_packet, receive_packets, keep_alive_slot, send_packets, time_out_slot,
  check_for_timeouts, update,
}
use netcode_go.Server.Refine.Send.{
  seat-roster, with_client-roster, send_client_packet-roster, disconnect_client_internal-roster,
}
use netcode_go.Server.Refine.Handshake.{
  Change, find_client_index_by_address-Sits, process_connection_request_packet-roster,
  process_connection_response_packet-Once,
}
use netcode_go.Server.Roster.{
  roster, Sits, Heard, departs, Hearing, Listens, Hearing-Steps, Listens-Steps, Steps, leaves,
}
use netcode_go.Server.Valid.{IsValid, Steps-IsValid}

-- From a valid server, one gets to another by changes of the roster.
pub record Runs (s t : Server) : Type 0 where
  pub steps : IsValid (roster s) → Steps (roster s) (roster t)

pub Runs-append : {s t u : Server} → Runs s t → Runs t u → Runs s u
Runs-append a b = record {
  steps = λ v. Star-append (a.steps v) (b.steps (Steps-IsValid (a.steps v) v));
}

pub Runs-same : {s t : Server} → roster t ≡ roster s → Runs s t
Runs-same e = record { steps = λ v. same-Star e }

pub Runs-if :
    {s t u : Server} (b : Bool)
    → (b ≡ true → Runs s t)
    → (b ≡ false → Runs s u)
    → Runs s (if b then t else u)
Runs-if true f g = f refl
Runs-if false f g = g refl

-- The roster of a valid server stays, or changes once by a packet from the address.
record Once (from : Address) (s t : Server) : Type 0 where
  once : IsValid (roster s) → Change s from t

Once-same : {from : Address} {s t : Server} → roster t ≡ roster s → Once from s t
Once-same e = record { once = λ v. inl e }

Once-if :
    {from : Address} {s t u : Server} (b : Bool)
    → (b ≡ true → Once from s t)
    → (b ≡ false → Once from s u)
    → Once from s (if b then t else u)
Once-if true f g = f refl
Once-if false f g = g refl

Once-after : {from : Address} {s t u : Server} → roster t ≡ roster s → Once from t u → Once from s u
Once-after {from} {s} {t} {u} e x = record {
  once = subst (λ r. IsValid r → (roster u ≡ r) ⊎ Heard r from (roster u)) e (λ v. x.once v);
}

pub for_slots-Runs :
    (n i : ℕ) (body : Server → ℕ → Server) (s : Server)
    → ((t : Server) (j : ℕ) → Runs t (body t j))
    → Runs s (for_slots n i body s)
unfolding for_slots
for_slots-Runs zero i body s h = Runs-same refl
for_slots-Runs (suc n) i body s h = Runs-append (h s i) (for_slots-Runs n (i + 1) body (body s i) h)

module _ (env : Env) where
  pub disconnect_client_internal-Runs :
      (s : Server) (i : ℕ) (b : Bool) (reason : DisconnectReason)
      → (client s i).connected ≡ true
      → Runs s (disconnect_client_internal env s i b reason)
  disconnect_client_internal-Runs s i b reason c = record {
    steps = λ v.
        subst (λ r. Steps (roster s) r) (sym (disconnect_client_internal-roster env s i b reason))
          (one-Star (leaves i (ap (λ x. x.taken) (seat-roster s i) ∙ c)));
  }

  store_replay-roster :
      (s : Server) (c : Option ℕ) (r : Option ReplayProtection)
      → roster (store_replay s c r) ≡ roster s
  unfolding store_replay
  store_replay-roster s none r = refl
  store_replay-roster s (some i) none = refl
  store_replay-roster s (some i) (some r) =
      with_client-roster s i (record (client s i) { replay_protection = r }) refl

  hear-roster : (s : Server) (i : ℕ) → roster (hear s i) ≡ roster s
  unfolding hear
  hear-roster s i =
      with_client-roster s i
        (record (client s i) { last_packet_receive_time = s.time; confirmed = true }) refl

  enqueue-roster :
      (s : Server) (i : ℕ) (p : ConnectionPayload) (q : ℕ) → roster (enqueue s i p q) ≡ roster s
  unfolding enqueue
  enqueue-roster s i p q =
      with_client-roster s i
        (record (client s i) { packet_queue = (Queue.push (client s i).packet_queue p q).0 }) refl

  disconnect_client_internal-Change :
      (s : Server) (from : Address) (i : ℕ) (b : Bool) (reason : DisconnectReason)
      → Sits (roster s) from i
      → Change s from (disconnect_client_internal env s i b reason)
  disconnect_client_internal-Change s from i b reason h = inr (
      subst (λ r. Heard (roster s) from r)
        (sym (disconnect_client_internal-roster env s i b reason)) (departs i h))

  process_packet_internal-Once :
      (s : Server) (from : Address) (p : Packet) (sequence : ℕ) (e c : Option ℕ) (now : ℕ)
      → ((i : ℕ) → c ≡ some i → Sits (roster s) from i)
      → Once from s (process_packet_internal env s from p sequence e c now)
  unfolding process_packet_internal
  process_packet_internal-Once s from (request p) sequence e c now h =
      Once-if s.ignore_connection_requests (λ q. Once-same refl)
        (λ q. Once-same (process_connection_request_packet-roster env s from p now))
  process_packet_internal-Once s from (response p) sequence e c now h =
      Once-if s.ignore_connection_responses (λ q. Once-same refl)
        (λ q. record { once = process_connection_response_packet-Once env s from p e })
  process_packet_internal-Once s from (keep_alive p) sequence e none now h = Once-same refl
  process_packet_internal-Once s from (keep_alive p) sequence e (some i) now h =
      Once-same (hear-roster s i)
  process_packet_internal-Once s from (payload p) sequence e none now h = Once-same refl
  process_packet_internal-Once s from (payload p) sequence e (some i) now h =
      Once-same (enqueue-roster (hear s i) i p sequence ∙ hear-roster s i)
  process_packet_internal-Once s from disconnect sequence e none now h = Once-same refl
  process_packet_internal-Once s from disconnect sequence e (some i) now h = record {
    once = λ v. disconnect_client_internal-Change s from i false client_disconnect (h i refl);
  }
  process_packet_internal-Once s from denied sequence e c now h = Once-same refl
  process_packet_internal-Once s from (challenge p) sequence e c now h = Once-same refl

  process_with_key-Once :
      (s : Server) (from : Address) (bytes : Bytes) (now : ℕ) (e c : Option ℕ)
      → ((i : ℕ) → c ≡ some i → Sits (roster s) from i)
      → Once from s (process_with_key env s from bytes now e c)
  unfolding process_with_key
  process_with_key-Once s from bytes now e c h = after _
    where
      opened :
          (w : Option ReplayProtection) (q : ℕ) (x : Option Packet)
          → Once from s (elim x [
            | none ↦ store_replay s c w
            | some p ↦ process_packet_internal env (store_replay s c w) from p q e c now
          ])
      opened w q none = Once-same (store_replay-roster s c w)
      opened w q (some p) =
          let same = store_replay-roster s c w in
          Once-after same (
            process_packet_internal-Once (store_replay s c w) from p q e c now
              (λ i j. subst (λ r. Sits r from i) (sym same) (h i j)))

      after :
          (x : Result Read)
          → Once from s (elim x [
            | err ↦ s
            | panics ↦ s
            | ok r ↦
                let s' = store_replay s c r.replay in
                elim (r.packet) [
                  | none ↦ s'
                  | some p ↦ process_packet_internal env s' from p r.sequence e c now
                ]
          ])
      after err = Once-same refl
      after panics = Once-same refl
      after (ok r) = opened r.replay r.sequence r.packet

  -- What a server that runs does with bytes.
  pub read_and_process_packet-Hearing :
      (s : Server) (from : Address) (bytes : Bytes) (now : ℕ)
      → IsValid (roster s)
      → Hearing (roster s) from (roster (read_and_process_packet env s from bytes now))
  unfolding read_and_process_packet Hearing
  read_and_process_packet-Hearing s from bytes now v =
      hearing (not s.running || leb (length bytes) 1) _ (λ q. ground (arith, q))
        (λ q.
          let c = find_client_index_by_address s from in
          let (m, e) = reading_index env s from c in
          let s' = record s { encryption_manager = m } in
          Once-if (is_none (get_receive_key m e) && not (get_or bytes 0 0 == 0))
            (λ a. Once-same refl)
            (λ a. Once-after {t = s'} refl (
              process_with_key-Once s' from bytes now e c
                (λ i found. find_client_index_by_address-Sits s from i found))))
    where
      hearing :
          (b : Bool) (t : Server)
          → (b ≡ false → s.running ≡ true)
          → (b ≡ false → Once from s t)
          → (roster (if b then s else t) ≡ roster s)
            ⊎ ((s.running ≡ true) × Heard (roster s) from (roster (if b then s else t)))
      hearing true t on h = inl refl
      hearing false t on h = elim ((h refl).once v) [ inl e ↦ inl e | inr x ↦ inr (on refl, x) ]

  pub read_and_process_packet-Runs :
      (s : Server) (from : Address) (bytes : Bytes) (now : ℕ)
      → Runs s (read_and_process_packet env s from bytes now)
  read_and_process_packet-Runs s from bytes now = record {
    steps = λ v. Hearing-Steps from (read_and_process_packet-Hearing s from bytes now v);
  }

  pub receive_packets-Listens :
      (s : Server) (packets : List (Address × Bytes)) (now : ℕ)
      → IsValid (roster s)
      → Listens (roster s) packets (roster (receive_packets env s packets now))
  unfolding receive_packets Listens
  receive_packets-Listens s [] now v = refl
  receive_packets-Listens s ((from, bytes) ∷ rest) now v =
      let t = read_and_process_packet env s from bytes now in
      let h = read_and_process_packet-Hearing s from bytes now v in
      (roster t, h, receive_packets-Listens t rest now (Steps-IsValid (Hearing-Steps from h) v))

  receive_packets-Runs :
      (s : Server) (packets : List (Address × Bytes)) (now : ℕ)
      → Runs s (receive_packets env s packets now)
  receive_packets-Runs s packets now = record {
    steps = λ v. Listens-Steps packets (receive_packets-Listens s packets now v);
  }

  pub keep_alive_slot-roster : (s : Server) (i : ℕ) → roster (keep_alive_slot env s i) ≡ roster s
  unfolding keep_alive_slot
  keep_alive_slot-roster s i = either _ _ (send_client_packet-roster env s _ i)
    where
      either :
          (b : Bool) (t : Server) → roster t ≡ roster s → roster (if b then t else s) ≡ roster s
      either true t e = e
      either false t e = refl

  time_out_slot-Runs : (s : Server) (i : ℕ) → Runs s (time_out_slot env s i)
  unfolding time_out_slot
  time_out_slot-Runs s i =
      Runs-if
        ((client s i).connected
          && is_positive (client s i).timeout
          && not (client s i).loopback
          && env.fl.le
              (env.fl.add (client s i).last_packet_receive_time
                (env.fl.from_int32 (client s i).timeout))
              s.time)
        (λ q. disconnect_client_internal-Runs s i false timed_out (ground arith))
        (λ q. Runs-same refl)

  send_packets-Runs : (s : Server) → Runs s (send_packets env s)
  unfolding send_packets
  send_packets-Runs s =
      Runs-if (not s.running) (λ q. Runs-same refl)
        (λ q.
          for_slots-Runs s.max_clients 0 (keep_alive_slot env) s
            (λ t j. Runs-same (keep_alive_slot-roster t j)))

  check_for_timeouts-Runs : (s : Server) → Runs s (check_for_timeouts env s)
  unfolding check_for_timeouts
  check_for_timeouts-Runs s =
      Runs-if (not s.running) (λ q. Runs-same refl)
        (λ q. for_slots-Runs s.max_clients 0 (time_out_slot env) s time_out_slot-Runs)

  pub update-Runs :
      (s : Server) (time : Float64) (packets : List (Address × Bytes)) (now : ℕ)
      → Runs s (update env s time packets now)
  unfolding update
  update-Runs s time packets now =
      let s1 = record s { time = time } in
      let s2 = receive_packets env s1 packets now in
      Runs-append {t = s1} (Runs-same refl) (
        Runs-append (receive_packets-Runs s1 packets now)
          (Runs-append (send_packets-Runs s2) (check_for_timeouts-Runs (send_packets env s2))))
