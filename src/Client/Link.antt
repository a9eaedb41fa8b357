-- ===== src/Client/Link.antt =====
-- client.go: the abstract view of a client, with no packets and no clock: the state of its
-- connection, the server and the keys it uses, and the ways in which these change.
use netcode_go.Prelude.{
  ℕ, ◌+◌, ◌<◌, Bool, true, false, Bytes, get_or, ◌≡◌, refl, ap, Star, done, step_then, arith,
  length, length-replicate,
}
use netcode_go.Address.{Address, no_address}
use netcode_go.Token.Connect.{ConnectToken, no_connect_token}
use netcode_go.Token.{max_servers_per_connect}
use netcode_go.Token.Reads.{Checked}
use netcode_go.Client.{
  Client, ClientState, disconnected, sending_connection_request, sending_connection_response,
  connected, invalid_connect_token, is_active, is_state, connection_denied, zero_key,
}

pub record Link : Type 0 where
  pub state : ClientState
  pub loopback : Bool
  pub token : ConnectToken
  pub index : ℕ
  pub server : Address
  pub read_key : Bytes
  pub write_key : Bytes
  pub keyed : Bool
  pub leaving : Bool
  pub target : ClientState

-- No connection, after one that ended in the state given.
abbrev pub idle : ClientState → Link
idle s = record {
  state = s;
  loopback = false;
  token = no_connect_token;
  index = 0;
  server = no_address;
  read_key = zero_key;
  write_key = zero_key;
  keyed = false;
  leaving = false;
  target = disconnected;
}

-- The first server of a token.
abbrev pub begun : Link → ConnectToken → Link
begun l t = record l {
  state = sending_connection_request;
  token = t;
  index = 0;
  server = get_or t.server_addresses 0 no_address;
  read_key = t.server_to_client_key;
  write_key = t.client_to_server_key;
  keyed = true;
  leaving = false;
  target = disconnected;
}

-- The next server of the token.
abbrev pub moved : Link → Link
moved l = record l {
  state = sending_connection_request;
  index = l.index + 1;
  server = get_or l.token.server_addresses (l.index + 1) no_address;
  leaving = false;
  target = disconnected;
}

-- The changes that a packet from the server makes: it challenges the client, it accepts the
-- client, it denies the connection, it ends the connection. The client goes at its next update.
pub data Heard : Link → Link → Type 0 where
  challenged :
      {l : Link}
      → l.state ≡ sending_connection_request
      → Heard l (record l { state = sending_connection_response })
  accepted :
      {l : Link} → l.state ≡ sending_connection_response → Heard l (record l { state = connected })
  refused :
      {l : Link}
      → is_active l.state ≡ true
      → is_state l.state connected ≡ false
      → Heard l (record l { leaving = true; target = connection_denied })
  dropped :
      {l : Link}
      → l.state ≡ connected
      → Heard l (record l { leaving = true; target = disconnected })

-- All changes: what is heard, the connection begins, its token is refused, it moves to the next
-- server, it ends, it becomes a loopback connection.
pub data Step : Link → Link → Type 0 where
  hears : {l m : Link} → Heard l m → Step l m
  begins :
      {l : Link} (t : ConnectToken)
      → is_active l.state ≡ false
      → Checked (t, true)
      → Step l (begun l t)
  refuses :
      {l : Link} (t : ConnectToken)
      → is_active l.state ≡ false
      → length t.server_addresses ≡ max_servers_per_connect
      → Step l (record l { state = invalid_connect_token; token = t })
  moves :
      {l : Link}
      → is_active l.state ≡ true
      → l.loopback ≡ false
      → l.index + 1 < l.token.num_server_addresses
      → Step l (moved l)
  ends : {l : Link} (s : ClientState) → is_active s ≡ false → Step l (idle s)
  hosts : {l : Link} → Step l (record l { state = connected; loopback = true })

abbrev pub Steps : Link → Link → Type 0
Steps = Star Step

-- The link of a client.
abbrev pub link : Client → Link
link c = record {
  state = c.state;
  loopback = c.loopback;
  token = c.connect_token;
  index = c.server_address_index;
  server = c.server_address;
  read_key = c.read_packet_key;
  write_key = c.write_packet_key;
  keyed = c.has_packet_keys;
  leaving = c.should_disconnect;
  target = c.should_disconnect_state;
}

pub record IsValid (l : Link) : Type 0 where
  pub sized : length l.token.server_addresses ≡ max_servers_per_connect
  pub looped : l.loopback ≡ true → l.state ≡ connected
  pub idle_target : is_active l.target ≡ false
  pub leaving_active : l.leaving ≡ true → is_active l.state ≡ true
  pub keyed : is_active l.state ≡ true → l.loopback ≡ false → l.keyed ≡ true
  pub read_key :
      is_active l.state ≡ true → l.loopback ≡ false → l.read_key ≡ l.token.server_to_client_key
  pub write_key :
      is_active l.state ≡ true → l.loopback ≡ false → l.write_key ≡ l.token.client_to_server_key
  pub in_token :
      is_active l.state ≡ true → l.loopback ≡ false → l.index < l.token.num_server_addresses
  pub server :
      is_active l.state ≡ true
      → l.loopback ≡ false
      → l.server ≡ get_or l.token.server_addresses l.index no_address

-- A packet does not make a loopback client of another, nor back.
pub Heards-loopback : {l m : Link} → Star Heard l m → m.loopback ≡ l.loopback
Heards-loopback done = refl
Heards-loopback (step_then (challenged a) x) = Heards-loopback x
Heards-loopback (step_then (accepted a) x) = Heards-loopback x
Heards-loopback (step_then (refused a b) x) = Heards-loopback x
Heards-loopback (step_then (dropped a) x) = Heards-loopback x

pub Heards-Steps : {l m : Link} → Star Heard l m → Steps l m
Heards-Steps done = done
Heards-Steps (step_then a x) = step_then (hears a) (Heards-Steps x)

Heard-IsValid : {l m : Link} → Heard l m → IsValid l → IsValid m
Heard-IsValid {l} (challenged a) v = record {
  sized = v.sized;
  looped = λ q. ground (arith, a, v.looped q);
  idle_target = v.idle_target;
  leaving_active = λ q. refl;
  keyed = λ p q. v.keyed (ap is_active a) q;
  read_key = λ p q. v.read_key (ap is_active a) q;
  write_key = λ p q. v.write_key (ap is_active a) q;
  in_token = λ p q. v.in_token (ap is_active a) q;
  server = λ p q. v.server (ap is_active a) q;
}
Heard-IsValid {l} (accepted a) v = record {
  sized = v.sized;
  looped = λ q. refl;
  idle_target = v.idle_target;
  leaving_active = λ q. refl;
  keyed = λ p q. v.keyed (ap is_active a) q;
  read_key = λ p q. v.read_key (ap is_active a) q;
  write_key = λ p q. v.write_key (ap is_active a) q;
  in_token = λ p q. v.in_token (ap is_active a) q;
  server = λ p q. v.server (ap is_active a) q;
}
Heard-IsValid {l} (refused a b) v = record {
  sized = v.sized;
  looped = v.looped;
  idle_target = refl;
  leaving_active = λ q. a;
  keyed = v.keyed;
  read_key = v.read_key;
  write_key = v.write_key;
  in_token = v.in_token;
  server = v.server;
}
Heard-IsValid {l} (dropped a) v = record {
  sized = v.sized;
  looped = v.looped;
  idle_target = refl;
  leaving_active = λ q. ap is_active a;
  keyed = v.keyed;
  read_key = v.read_key;
  write_key = v.write_key;
  in_token = v.in_token;
  server = v.server;
}

no_connect_token-sized : length no_connect_token.server_addresses ≡ max_servers_per_connect
unfolding no_connect_token
no_connect_token-sized = length-replicate max_servers_per_connect no_address

Step-IsValid : {l m : Link} → Step l m → IsValid l → IsValid m
Step-IsValid (hears h) v = Heard-IsValid h v
Step-IsValid {l} (begins t a n) v = record {
  sized = n.size;
  looped = λ q. ground (arith, ap is_active (v.looped q), a);
  idle_target = refl;
  leaving_active = λ q. refl;
  keyed = λ p q. refl;
  read_key = λ p q. refl;
  write_key = λ p q. refl;
  in_token = λ p q. (n.usable refl).some_server;
  server = λ p q. refl;
}
Step-IsValid {l} (refuses t a n) v = record {
  sized = n;
  looped = λ q. ground (arith, ap is_active (v.looped q), a);
  idle_target = v.idle_target;
  leaving_active = λ q. ground (arith, v.leaving_active q, a);
  keyed = λ p q. ground (arith, p);
  read_key = λ p q. ground (arith, p);
  write_key = λ p q. ground (arith, p);
  in_token = λ p q. ground (arith, p);
  server = λ p q. ground (arith, p);
}
Step-IsValid {l} (moves a b n) v = record {
  sized = v.sized;
  looped = λ q. ground (arith, b, q);
  idle_target = refl;
  leaving_active = λ q. refl;
  keyed = λ p q. v.keyed a b;
  read_key = λ p q. v.read_key a b;
  write_key = λ p q. v.write_key a b;
  in_token = λ p q. n;
  server = λ p q. refl;
}
Step-IsValid (ends s a) v = record {
  sized = no_connect_token-sized;
  looped = λ q. ground (arith, q);
  idle_target = refl;
  leaving_active = λ q. ground (arith, q);
  keyed = λ p q. ground (arith, a, p);
  read_key = λ p q. ground (arith, a, p);
  write_key = λ p q. ground (arith, a, p);
  in_token = λ p q. ground (arith, a, p);
  server = λ p q. ground (arith, a, p);
}
Step-IsValid {l} hosts v = record {
  sized = v.sized;
  looped = λ q. refl;
  idle_target = v.idle_target;
  leaving_active = λ q. refl;
  keyed = λ p q. ground (arith, q);
  read_key = λ p q. ground (arith, q);
  write_key = λ p q. ground (arith, q);
  in_token = λ p q. ground (arith, q);
  server = λ p q. ground (arith, q);
}

pub Steps-IsValid : {l m : Link} → Steps l m → IsValid l → IsValid m
Steps-IsValid done v = v
Steps-IsValid (step_then s x) v = Steps-IsValid x (Step-IsValid s v)

pub idle-IsValid : (s : ClientState) → is_active s ≡ false → IsValid (idle s)
idle-IsValid s a = record {
  sized = no_connect_token-sized;
  looped = λ q. ground (arith, q);
  idle_target = refl;
  leaving_active = λ q. ground (arith, q);
  keyed = λ p q. ground (arith, a, p);
  read_key = λ p q. ground (arith, a, p);
  write_key = λ p q. ground (arith, a, p);
  in_token = λ p q. ground (arith, a, p);
  server = λ p q. ground (arith, a, p);
}
