-- ===== src/Server/Calls/Promises.antt =====
-- server.go: what each public operation promises to do to the roster.
use netcode_go.Prelude.{
  ℕ, zero, suc, ◌+◌, Bool, true, false, not, ◌&&◌, ◌||◌, ◌≡◌, ◌⊎◌, leb, ltb, if◌then◌else◌,
}
use netcode_go.Server.{Server, Env, max_clients_limit}
use netcode_go.Server.Process.{receive_packets, send_packets}
use netcode_go.Server.Timeouts.{overdue}
use netcode_go.Server.Roster.{
  roster, Roster, Seat, seat, free_seat, loopback_seat, seated, vacated, Hearing, Listens,
}
use netcode_go.Server.Calls.{
  Call, starts, stops, updates, processes, disconnects, disconnects_all, sends, receives,
  connects_loopback, disconnects_loopback, processes_loopback,
}

-- A roster with nobody in it.
pub record Empty (running : Bool) (slots : ℕ) (r : Roster) : Type 0 where
  pub is_running : r.running ≡ running
  pub has_slots : r.max ≡ slots
  pub nobody : r.num ≡ 0
  pub free : (j : ℕ) → seat r j ≡ free_seat

abbrev pub is_seat : Roster → ℕ → Bool
is_seat r i = r.running && ltb i r.max

abbrev pub is_taken : Roster → ℕ → Bool
is_taken r i = is_seat r i && (seat r i).taken

abbrev pub is_networked : Seat → Bool
is_networked x = x.taken && not x.loopback

-- The network clients of `n` seats from seat `i` on leave.
unfoldable pub swept : ℕ → ℕ → Roster → Roster
swept zero i r = r
swept (suc n) i r = swept n (i + 1) (if is_networked (seat r i) then vacated r i else r)

-- The seats that are late, of `n` seats from seat `i` on, are given up.
unfoldable pub timed : (ℕ → Bool) → ℕ → ℕ → Roster → Roster
timed late zero i r = r
timed late (suc n) i r = timed late n (i + 1) (if late i then vacated r i else r)

module _ (env : Env) where
  -- What an operation does to a server's roster. The timeouts look at the server behind the packets.
  unfoldable pub Does : Server → Call → Roster → Type 0
  Does s (starts n key now) m =
      (((leb n 0 || ltb max_clients_limit n) ≡ true) × (m ≡ roster s))
      ⊎ (((leb n 0 || ltb max_clients_limit n) ≡ false) × Empty true n m)
  Does s stops m = Empty false 0 m
  Does s (updates time packets now) m =
      let k = send_packets env (receive_packets env (record s { time = time }) packets now) in
      Listens (roster s) packets (roster k)
      × (m ≡ (if not k.running then roster k else timed (overdue env k) k.max_clients 0 (roster k)))
  Does s (processes from bytes now) m = Hearing (roster s) from m
  Does s (disconnects i) m = m ≡ (
      if is_taken (roster s) i && not (seat (roster s) i).loopback
      then vacated (roster s) i
      else roster s)
  Does s disconnects_all m =
      m ≡ (if not s.running then roster s else swept s.max_clients 0 (roster s))
  Does s (sends i bytes) m = m ≡ roster s
  Does s (receives i) m = m ≡ roster s
  Does s (connects_loopback i id user_data) m = m ≡ (
      if is_seat (roster s) i && not (seat (roster s) i).taken
      then seated (roster s) i (loopback_seat id)
      else roster s)
  Does s (disconnects_loopback i) m = m ≡ (
      if is_taken (roster s) i && (seat (roster s) i).loopback
      then vacated (roster s) i
      else roster s)
  Does s (processes_loopback i bytes sequence) m = m ≡ roster s
