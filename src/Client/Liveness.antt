-- ===== src/Client/Liveness.antt =====
-- client.go: a client whose servers are silent tries one after another.
use netcode_go.Prelude.{
  ℕ, ◌+◌, ◌≤◌, Bool, true, false, not, ◌&&◌, ◌||◌, List, [], ◌∷◌, ◌≡◌, refl, ap, ◌∙◌, ◌⊎◌, inl, inr,
  arith, Bool-cases, length, if◌then◌else◌,
}
use netcode_go.Float.{Float64}
use netcode_go.Encryption.{is_positive}
use netcode_go.Server.{Env}
use netcode_go.Client.{
  Client, ClientState, is_active, is_state, set_state, reset_before_next_connect,
  sending_connection_request, sending_connection_response, connected, connect_token_expired,
  invalid_connect_token, connection_timed_out, connection_response_timed_out,
  connection_request_timed_out, connection_denied, disconnected,
}
use netcode_go.Client.Send.{send_packets, disconnect_internal}
use netcode_go.Client.Process.{receive_packets}
use netcode_go.Client.Update.{
  select_next_server, is_last_server, give_up, is_timed_out, is_token_expired, check_timeout,
  apply_timeouts, update,
}
use netcode_go.Client.Link.{link, IsValid, Steps-IsValid}
use netcode_go.Client.Refine.Packets.{is_state_eq}
use netcode_go.Client.Refine.Calls.{Call, updates, after_call, after_calls}
use netcode_go.Client.Refine.Frame.{
  reset_connection_data-link, give_up_found, give_up_missed, send_packets-keeps, send_packets-link,
  update-Runs,
}

-- The client turned to its token's next server at the time given.
pub record Retries (c : Client) (time : Float64) (d : Client) : Type 0 where
  pub state : d.state ≡ sending_connection_request
  pub loopback : d.loopback ≡ c.loopback
  pub token : d.connect_token ≡ c.connect_token
  pub index : d.server_address_index ≡ c.server_address_index + 1
  pub heard : d.last_packet_receive_time ≡ time

-- The client has no connection, or turned to the next server.
abbrev MovesOn : Client → Float64 → Client → Type 0
MovesOn c time d = (is_active d.state ≡ false) ⊎ Retries c time d

either_way :
    (P : Client → Type 0) (b : Bool) (d e : Client)
    → (b ≡ true → P d)
    → (b ≡ false → P e)
    → P (if b then d else e)
either_way P true d e f g = f refl
either_way P false d e f g = g refl

module _ (env : Env) where
  pub disconnect_internal-inactive :
      (c : Client) (s : ClientState) (b : Bool)
      → is_active s ≡ false
      → is_active (disconnect_internal env c s b).state ≡ false
  unfolding disconnect_internal
  disconnect_internal-inactive c s b a =
      elim (Bool-cases (not (is_active c.state) || is_state c.state s)) [
        | inl q ↦ rw (q) (ground (arith, is_state_eq c.state s))
        | inr q ↦ rw (q) (ap (λ l. is_active l.state) (reset_connection_data-link env _ s) ∙ a)
      ]

  moved-Retries :
      (c : Client)
      → Retries c c.time (
          set_state
            (reset_before_next_connect env (select_next_server c))
            sending_connection_request)
  unfolding set_state reset_before_next_connect select_next_server
  moved-Retries c = record {
    state = refl;
    loopback = refl;
    token = refl;
    index = refl;
    heard = refl;
  }

  give_up-Retries :
      (c : Client) (s : ClientState) → is_active s ≡ false → MovesOn c c.time (give_up env c s)
  give_up-Retries c s a = elim (Bool-cases (is_last_server c)) [
    | inl q ↦ inl (rw (give_up_missed env c s q) (disconnect_internal-inactive c s false a))
    | inr q ↦ inr (rw (give_up_found env c s q) (moved-Retries c))
  ]

  check_timeout-Retries :
      (c : Client) (s : ClientState)
      → is_active s ≡ true
      → is_timed_out env c ≡ true
      → MovesOn c c.time (check_timeout env c s)
  unfolding check_timeout
  check_timeout-Retries c sending_connection_request a q = rw (q) (give_up-Retries c _ refl)
  check_timeout-Retries c sending_connection_response a q = rw (q) (give_up-Retries c _ refl)
  check_timeout-Retries c connected a q = rw (q) (inl (disconnect_internal-inactive c _ false refl))
  check_timeout-Retries c connect_token_expired a q = ground (arith, a)
  check_timeout-Retries c invalid_connect_token a q = ground (arith, a)
  check_timeout-Retries c connection_timed_out a q = ground (arith, a)
  check_timeout-Retries c connection_response_timed_out a q = ground (arith, a)
  check_timeout-Retries c connection_request_timed_out a q = ground (arith, a)
  check_timeout-Retries c connection_denied a q = ground (arith, a)
  check_timeout-Retries c disconnected a q = ground (arith, a)

  apply_timeouts-Retries :
      (c : Client)
      → is_active c.state ≡ true
      → is_active c.should_disconnect_state ≡ false
      → is_timed_out env c ≡ true
      → MovesOn c c.time (apply_timeouts env c)
  unfolding apply_timeouts
  apply_timeouts-Retries c a t q =
      either_way (MovesOn c c.time) (is_token_expired env c) _ _
        (λ e. inl (disconnect_internal-inactive c _ false refl))
        (λ e.
          either_way (MovesOn c c.time) c.should_disconnect _ _ (λ d. give_up-Retries c _ t)
            (λ d. check_timeout-Retries c c.state a q))

  update_silent :
      (c : Client) (time : Float64) (now : ℕ)
      → c.loopback ≡ false
      → update env c time [] now ≡ apply_timeouts env (send_packets env (record c { time = time }))
  unfolding update receive_packets
  update_silent c time now l = rw (l, update) refl

  timed_out_sending :
      (c : Client) (time : Float64)
      → is_positive c.connect_token.timeout_seconds ≡ true
      → env.fl.lt
          (env.fl.add c.last_packet_receive_time
            (env.fl.from_int32 c.connect_token.timeout_seconds))
          time
        ≡ true
      → is_timed_out env (send_packets env (record c { time = time })) ≡ true
  unfolding is_timed_out
  timed_out_sending c time p q =
      send_packets-keeps env (is_timed_out env) (λ d n e t. refl) (record c { time = time })
      ∙ ground (arith, p, q)

  update-MovesOn :
      (c : Client) (time : Float64) (now : ℕ)
      → IsValid (link c)
      → c.loopback ≡ false
      → is_active c.state ≡ true
      → is_positive c.connect_token.timeout_seconds ≡ true
      → env.fl.lt
          (env.fl.add c.last_packet_receive_time
            (env.fl.from_int32 c.connect_token.timeout_seconds))
          time
        ≡ true
      → MovesOn c time (update env c time [] now)
  update-MovesOn c time now v l a p q =
      let e = send_packets-link env (record c { time = time }) in
      let t = send_packets-keeps env (λ d. d.time) (λ d n e t. refl) (record c { time = time }) in
      rw (update_silent c time now l)
        (elim (apply_timeouts-Retries (send_packets env (record c { time = time }))
          (ap (λ m. is_active m.state) e ∙ a) (ap (λ m. is_active m.target) e ∙ v.idle_target)
          (timed_out_sending c time p q)) [
            | inl d ↦ inl d
            | inr r ↦ inr (record {
              state = r.state;
              loopback = r.loopback ∙ ap (λ m. m.loopback) e;
              token = r.token ∙ ap (λ m. m.token) e;
              index = r.index ∙ ap (λ m. m.index + 1) e;
              heard = r.heard ∙ t;
            })
          ])

  check_timeout-inactive :
      (c : Client) (s : ClientState) → is_active s ≡ false → check_timeout env c s ≡ c
  unfolding check_timeout
  check_timeout-inactive c sending_connection_request a = ground (arith, a)
  check_timeout-inactive c sending_connection_response a = ground (arith, a)
  check_timeout-inactive c connected a = ground (arith, a)
  check_timeout-inactive c connect_token_expired a = refl
  check_timeout-inactive c invalid_connect_token a = refl
  check_timeout-inactive c connection_timed_out a = refl
  check_timeout-inactive c connection_response_timed_out a = refl
  check_timeout-inactive c connection_request_timed_out a = refl
  check_timeout-inactive c connection_denied a = refl
  check_timeout-inactive c disconnected a = refl

  apply_timeouts-inactive :
      (c : Client)
      → is_active c.state ≡ false
      → c.should_disconnect ≡ false
      → is_active (apply_timeouts env c).state ≡ false
  unfolding apply_timeouts
  apply_timeouts-inactive c a d =
      either_way (λ x. is_active x.state ≡ false) (is_token_expired env c) _ _
        (λ e. disconnect_internal-inactive c _ false refl)
        (λ e.
          either_way (λ x. is_active x.state ≡ false) c.should_disconnect _ _
            (λ k. ground (arith, k, d))
            (λ k. ap (λ x. is_active x.state) (check_timeout-inactive c c.state a) ∙ a))

  update-inactive :
      (c : Client) (time : Float64) (now : ℕ)
      → IsValid (link c)
      → is_active c.state ≡ false
      → is_active (update env c time [] now).state ≡ false
  update-inactive c time now v a =
      let e = send_packets-link env (record c { time = time }) in
      rw (update_silent c time now (ground (arith, v.looped, a))) (
        apply_timeouts-inactive (send_packets env (record c { time = time }))
          (ap (λ m. is_active m.state) e ∙ a)
          (ap (λ m. m.leaving) e ∙ ground (arith, v.leaving_active, a)))

  -- Every time comes after the timeout since the one before.
  abbrev pub are_late : ℕ → Float64 → List Float64 → Bool
  are_late timeout before [] = true
  are_late timeout before (t ∷ times) =
      env.fl.lt (env.fl.add before (env.fl.from_int32 timeout)) t && are_late timeout t times

  -- Updates at these times, with no packets.
  abbrev pub silence : ℕ → List Float64 → List Call
  silence now [] = []
  silence now (t ∷ times) = updates t [] now ∷ silence now times

  silence-inactive :
      (c : Client) (times : List Float64) (now : ℕ)
      → IsValid (link c)
      → is_active c.state ≡ false
      → is_active (after_calls env c (silence now times)).state ≡ false
  unfolding after_calls after_call
  silence-inactive c [] now v a = a
  silence-inactive c (t ∷ times) now v a =
      silence-inactive (update env c t [] now) times now
        (Steps-IsValid ((update-Runs env c t [] now).steps v) v) (update-inactive c t now v a)

  -- A valid network client whose token has a timeout, and that gets no packets at updates each of
  -- which comes after that timeout since the update before (the first one since the last packet), has
  -- no connection, nor tries to get one, after as many updates as the token has servers from the
  -- current one on.
  pub silence-gives_up :
      (c : Client) (times : List Float64) (now : ℕ)
      → IsValid (link c)
      → c.loopback ≡ false
      → is_positive c.connect_token.timeout_seconds ≡ true
      → are_late c.connect_token.timeout_seconds c.last_packet_receive_time times ≡ true
      → c.connect_token.num_server_addresses ≤ c.server_address_index + length times
      → is_active (after_calls env c (silence now times)).state ≡ false
  unfolding after_calls after_call
  silence-gives_up c [] now v l p q enough = elim (Bool-cases (is_active c.state)) [
    | inl a ↦ ground (arith, v.in_token a l, enough)
    | inr a ↦ a
  ]
  silence-gives_up c (t ∷ times) now v l p q enough =
      let w = Steps-IsValid ((update-Runs env c t [] now).steps v) v in
      elim (Bool-cases (is_active c.state)) [
        | inr a ↦ silence-inactive c (t ∷ times) now v a
        | inl a ↦ elim (update-MovesOn c t now v l a p (ground (arith, q))) [
          | inl d ↦ silence-inactive (update env c t [] now) times now w d
          | inr r ↦
              silence-gives_up (update env c t [] now) times now w (r.loopback ∙ l)
                (ap (λ x. is_positive x.timeout_seconds) r.token ∙ p)
                (rw (r.token, r.heard) (ground (arith, q)))
                (rw (r.token, r.index) (omega (arith, enough)))
        ]
      ]
