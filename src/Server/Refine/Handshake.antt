-- ===== src/Server/Refine/Handshake.antt =====
-- server.go: what the handlers of connection requests and responses do to the roster.
use netcode_go.Prelude.{
  ◌⊎◌, ℕ, ◌+◌, ◌<◌, ◌&&◌, Bool, true, false, not, Bool-cases, Option, none, some, Option-cases,
  Bytes, ◌≡◌, ◌≢◌, refl, ap, sym, subst, ◌∙◌, arith, inl, inr, if◌then◌else◌, ◌==◌, ==_refl, set,
  take, first_index-take_found, first_index-take_missed, Result-cases, List,
}
use netcode_go.Address.{Address, equal}
use netcode_go.Encryption.{EncryptionManager, at, get_send_key, get_timeout}
use netcode_go.Packet.{ConnectionRequest, ConnectionResponse, denied}
use netcode_go.Token.{
  ConnectTokenPrivate, ChallengeToken, read_connect_token_private, read_challenge_token,
  decrypt_challenge_token,
}
use netcode_go.TokenEntries.{ConnectTokenEntry, find_or_add, Found, admitted, refused, history_full}
use netcode_go.Server.{
  Server, Env, client, new_slot, find_client_index_by_id, find_client_index_by_address,
  find_free_client_index,
}
use netcode_go.Server.Handshake.{
  is_none, challenge_data, send_challenge, offer_challenge, process_connection_request_packet,
  occupy_slot, connect_client, accept_client, process_connection_response_packet, token_use,
  found_server_address,
}
use netcode_go.Server.Refine.Send.{
  seat-roster, send_global_packet-roster, send_client_packet-roster,
}
use netcode_go.Server.Roster.{
  Heard, enters, Sits, roster, seat, seats_of, seats_of-set, seated, network_seat, length-seats_of,
}
use netcode_go.Server.Valid.{IsValid, count_full, count_bound}

-- The roster stays, or a packet from the address changes it.
abbrev pub Change : Server → Address → Server → Type 0
Change s from t = (roster t ≡ roster s) ⊎ Heard (roster s) from (roster t)

-- What the searches find.
pub find_client_index_by_address_found :
    (s : Server) (a : Address) (i : ℕ)
    → find_client_index_by_address s a ≡ some i
    → (i < s.max_clients) × ((client s i).connected ≡ true)
unfolding find_client_index_by_address
find_client_index_by_address_found s a i h =
    let (lt, lt', p) =
      first_index-take_found (λ c. c.connected && equal c.address a) new_slot s.max_clients
        s.clients i h in
    ground (arith, lt, p)

-- The client that the search finds sits there.
pub find_client_index_by_address-Sits :
    (s : Server) (a : Address) (i : ℕ)
    → find_client_index_by_address s a ≡ some i
    → Sits (roster s) a i
unfolding find_client_index_by_address Sits
find_client_index_by_address-Sits s a i h =
    let (lt, lt', p) =
      first_index-take_found (λ c. c.connected && equal c.address a) new_slot s.max_clients
        s.clients i h in
    (lt, ground (arith, p, seat-roster s i), ground (arith, p, seat-roster s i))

find_client_index_by_address_missed :
    (s : Server) (a : Address) (j : ℕ)
    → IsValid (roster s)
    → find_client_index_by_address s a ≡ none
    → j < s.max_clients
    → (seat (roster s) j).taken ≡ true
    → equal (seat (roster s) j).address a ≡ false
unfolding find_client_index_by_address
find_client_index_by_address_missed s a j v h lt t = ground (
  arith,
  seat-roster s j,
  v.size,
  v.bounded,
  length-seats_of s.clients,
  first_index-take_missed (λ c. c.connected && equal c.address a) new_slot s.max_clients s.clients j
      h,
)

find_client_index_by_id_missed :
    (s : Server) (id j : ℕ)
    → IsValid (roster s)
    → find_client_index_by_id s id ≡ none
    → j < s.max_clients
    → (seat (roster s) j).taken ≡ true
    → (seat (roster s) j).client_id ≢ id
unfolding find_client_index_by_id
find_client_index_by_id_missed s id j v h lt t same = ground (
  arith,
  seat-roster s j,
  v.size,
  v.bounded,
  length-seats_of s.clients,
  ==_refl id,
  first_index-take_missed (λ c. c.connected && c.client_id == id) new_slot s.max_clients s.clients j
      h,
)

find_free_client_index_found :
    (s : Server) (i : ℕ)
    → find_free_client_index s ≡ some i
    → (i < s.max_clients) × ((seat (roster s) i).taken ≡ false)
unfolding find_free_client_index
find_free_client_index_found s i h =
    let (lt, lt', p) =
      first_index-take_found (λ c. not c.connected) new_slot s.max_clients s.clients i h in
    ground (arith, lt, p, seat-roster s i)

module _ (env : Env) where
  connect_client-roster :
      (s : Server) (i : ℕ) (a : Address) (id e timeout : ℕ) (user_data : Bytes)
      → (client s i).loopback ≡ false
      → roster (connect_client env s i a id e timeout user_data)
        ≡ seated (roster s) i (network_seat id a e)
  unfolding connect_client occupy_slot
  connect_client-roster s i a id e timeout user_data l =
      send_client_packet-roster env _ _ i
      ∙ ap (λ xs. record (roster s) { seats = xs; num = s.num_connected_clients + 1 })
          (seats_of-set s.clients i _
            ∙ ap (λ b. set (seats_of s.clients) i (record (network_seat id a e) { loopback = b }))
                l)

  accept_client-Once :
      (s : Server) (from : Address) (t : ChallengeToken) (e : ℕ) (key : Bytes)
      → IsValid (roster s)
      → Change s from (accept_client env s from t e key)
  unfolding accept_client
  accept_client-Once s from t e key v = elim (Option-cases (find_client_index_by_address s from)) [
    | inr (j, q) ↦ rw (q, accept_client) (inl refl)
    | inl q ↦ elim (Option-cases (find_client_index_by_id s t.client_id)) [
      | inr (j, p) ↦ rw (q, p, accept_client) (inl refl)
      | inl p ↦ elim (Bool-cases (s.num_connected_clients == s.max_clients)) [
        | inl full ↦
            rw (q, p, full, accept_client) (inl (send_global_packet-roster env s denied from key))
        | inr room ↦ elim (Option-cases (find_free_client_index s)) [
          | inl no_slot ↦ rw (q, p, room, no_slot, accept_client) (inl refl)
          | inr (i, free) ↦ rw (q, p, room, free, accept_client) (joined i q p free)
        ]
      ]
    ]
  ]
    where
      joined :
          (i : ℕ)
          → find_client_index_by_address s from ≡ none
          → find_client_index_by_id s t.client_id ≡ none
          → find_free_client_index s ≡ some i
          → Change s from (
              connect_client env s i from t.client_id e
                (get_timeout s.encryption_manager (some e))
                t.user_data)
      joined i q p free =
          let (lt, empty) = find_free_client_index_found s i free in
          let l : (client s i).loopback ≡ false = cc (v.cleared i empty, seat-roster s i) in
          inr (
            subst (λ r. Heard (roster s) from r)
              (sym (
                connect_client-roster s i from t.client_id e
                  (get_timeout s.encryption_manager (some e)) t.user_data l))
              (enters i t.client_id e lt empty
                (λ j. find_client_index_by_address_missed s from j v q)
                (λ j. find_client_index_by_id_missed s t.client_id j v p)))

  pub process_connection_response_packet-Once :
      (s : Server) (from : Address) (p : ConnectionResponse) (e : Option ℕ)
      → IsValid (roster s)
      → Change s from (process_connection_response_packet env s from p e)
  unfolding process_connection_response_packet get_send_key
  process_connection_response_packet-Once s from p none v =
      elim (Result-cases (
        decrypt_challenge_token env.crypto.chacha p.challenge_token_data p.challenge_token_sequence
          s.challenge_key)) [
            | inr (inl q) ↦ rw (q, process_connection_response_packet) (inl refl)
            | inr (inr q) ↦ rw (q, process_connection_response_packet) (inl refl)
            | inl (bytes, q) ↦ elim (Result-cases (read_challenge_token bytes)) [
              | inl (t, r) ↦ rw (q, r, process_connection_response_packet) (inl refl)
              | inr (inl r) ↦ rw (q, r, process_connection_response_packet) (inl refl)
              | inr (inr r) ↦ rw (q, r, process_connection_response_packet) (inl refl)
            ]
          ]
  process_connection_response_packet-Once s from p (some i) v =
      elim (Result-cases (
        decrypt_challenge_token env.crypto.chacha p.challenge_token_data p.challenge_token_sequence
          s.challenge_key)) [
            | inr (inl q) ↦ rw (q, process_connection_response_packet) (inl refl)
            | inr (inr q) ↦ rw (q, process_connection_response_packet) (inl refl)
            | inl (bytes, q) ↦ elim (Result-cases (read_challenge_token bytes)) [
              | inl (t, r) ↦
                  rw (q, r, process_connection_response_packet)
                    (accept_client-Once s from t i ((at s.encryption_manager i).send_key) v)
              | inr (inl r) ↦ rw (q, r, process_connection_response_packet) (inl refl)
              | inr (inr r) ↦ rw (q, r, process_connection_response_packet) (inl refl)
            ]
          ]

  send_challenge-roster :
      (s : Server) (from : Address) (t : ConnectTokenPrivate)
      → roster (send_challenge env s from t) ≡ roster s
  unfolding send_challenge
  send_challenge-roster s from t = elim (Result-cases (challenge_data env s t)) [
    | inr (inl q) ↦ rw (q, send_challenge) refl
    | inr (inr q) ↦ rw (q, send_challenge) refl
    | inl (bytes, q) ↦
        rw (q, send_challenge) (send_global_packet-roster env _ _ from t.server_to_client_key)
  ]

  offer_challenge-roster :
      (s : Server) (from : Address) (t : ConnectTokenPrivate) (entry : ℕ)
      → roster (offer_challenge env s from t entry) ≡ roster s
  unfolding offer_challenge
  offer_challenge-roster s from t entry =
      elim (Bool-cases (s.num_connected_clients == s.max_clients)) [
        | inl full ↦
            rw (full, offer_challenge)
              (send_global_packet-roster env s denied from t.server_to_client_key)
        | inr room ↦ rw (room, offer_challenge) (after _)
      ]
    where
      after :
          (a : EncryptionManager × Bool)
          → roster (
              if not a.1
              then s
              else send_challenge env (record s { encryption_manager = a.0 }) from t)
            ≡ roster s
      after (m, true) = send_challenge-roster (record s { encryption_manager = m }) from t
      after (m, false) = refl

  -- A connection request, whatever its connect token and its source, leaves the roster as it was: no
  -- client is connected, and none loses its slot.
  pub process_connection_request_packet-roster :
      (s : Server) (from : Address) (p : ConnectionRequest) (now : ℕ)
      → roster (process_connection_request_packet env s from p now) ≡ roster s
  unfolding process_connection_request_packet
  process_connection_request_packet-roster s from p now =
      elim (Result-cases (read_connect_token_private p.connect_token_data)) [
        | inr (inl r) ↦ rw (r, process_connection_request_packet) refl
        | inr (inr r) ↦ rw (r, process_connection_request_packet) refl
        | inl (t, r) ↦
            rw (r, process_connection_request_packet)
              (guarded t (found_server_address s (take t.num_server_addresses t.server_addresses))
                (is_none (find_client_index_by_address s from))
                (is_none (find_client_index_by_id s t.client_id)))
      ]
    where
      offered :
          (t : ConnectTokenPrivate) (entries : List ConnectTokenEntry) (found : Found)
          → roster (elim found [
            | history_full ↦ record s { connect_token_entries = entries }
            | refused ↦ record s { connect_token_entries = entries }
            | admitted entry ↦
                offer_challenge env (record s { connect_token_entries = entries }) from t entry
          ])
            ≡ roster s
      offered t entries history_full = refl
      offered t entries refused = refl
      offered t entries (admitted entry) =
          offer_challenge-roster (record s { connect_token_entries = entries }) from t entry

      guarded :
          (t : ConnectTokenPrivate) (a b c : Bool)
          → roster (
              if not a
              then s
              else if not b
              then s
              else if not c
              then s
              else let (entries, found) =
                  find_or_add s.connect_token_entries (token_use s from p now) in
                let s' = record s { connect_token_entries = entries } in
                elim found [
                  | history_full ↦ s'
                  | refused ↦ s'
                  | admitted entry ↦ offer_challenge env s' from t entry
                ])
            ≡ roster s
      guarded t false b c = refl
      guarded t true false c = refl
      guarded t true true false = refl
      guarded t true true true = offered t _ _

-- A server with a valid roster that has fewer clients than slots, or more, finds a free slot, and
-- the slot is in front of the last one.
pub find_free_client_index_room :
    (s : Server)
    → IsValid (roster s)
    → s.num_connected_clients ≢ s.max_clients
    → (i : ℕ) × (find_free_client_index s ≡ some i) × (i < s.max_clients)
unfolding find_free_client_index
find_free_client_index_room s v room = elim (Option-cases (find_free_client_index s)) [
  | inr (i, q) ↦ (i, q, (find_free_client_index_found s i q).0)
  | inl q ↦
      let all_taken : (j : ℕ) → j < s.max_clients → (seat (roster s) j).taken ≡ true = λ j lt.
        ground (
          arith,
          seat-roster s j,
          v.size,
          v.bounded,
          length-seats_of s.clients,
          q,
          first_index-take_missed (λ c. not c.connected) new_slot s.max_clients s.clients j q,
        ) in
      let high = count_full (roster s).seats s.max_clients all_taken in
      let low = count_bound (roster s).seats s.max_clients v.behind in
      absurd (room (omega (arith, v.counted, high, low)))
]
