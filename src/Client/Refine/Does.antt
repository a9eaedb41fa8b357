-- ===== src/Client/Refine/Does.antt =====
-- client.go: what each public operation does to the client's link.
use netcode_go.Address.{Address}
use netcode_go.Client.{Client}
use netcode_go.Client.Link.{Link}
