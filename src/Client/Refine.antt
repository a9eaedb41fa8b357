-- ===== src/Client/Refine.antt =====
-- client.go: what the operations do to the link of the client.
pub mod Packets
pub mod Frame
pub mod Calls
pub mod Promises
pub mod Does
use netcode_go.Prelude.{
  List, [], ◌∷◌, Bytes, ◌⊎◌, inl, inr, one-Star, Bool, true, false, ◌≡◌, refl, sym, subst, Star,
  Star-append, same-Star, if◌then◌else◌,
}
use netcode_go.Address.{Address, equal}
use netcode_go.Client.{Client}
use netcode_go.Client.Link.{Link, Heard, link, IsValid, Steps, Steps-IsValid}

-- From a valid client, one gets to another by changes of the link.
pub record Runs (c d : Client) : Type 0 where
  pub steps : IsValid (link c) → Steps (link c) (link d)

pub Runs-append : {c d e : Client} → Runs c d → Runs d e → Runs c e
Runs-append a b = record {
  steps = λ v. Star-append (a.steps v) (b.steps (Steps-IsValid (a.steps v) v));
}

pub Runs-same : {c d : Client} → link d ≡ link c → Runs c d
Runs-same e = record { steps = λ v. same-Star e }

pub Runs-if :
    {c d e : Client} (b : Bool)
    → (b ≡ true → Runs c d)
    → (b ≡ false → Runs c e)
    → Runs c (if b then d else e)
Runs-if true f g = f refl
Runs-if false f g = g refl

-- What a packet from an address comes to: nothing, or a change if that is the server's address.
pub Hearing : Link → Address → Link → Type 0
Hearing l from m = (m ≡ l) ⊎ ((equal from l.server ≡ true) × Heard l m)

-- What packets come to, one after another.
pub Listens : Link → List (Address × Bytes) → Link → Type 0
Listens l [] m = m ≡ l
Listens l ((from, bytes) ∷ rest) m = (k : Link) × Hearing l from k × Listens k rest m

pub Hearing-Heards : {l m : Link} (from : Address) → Hearing l from m → Star Heard l m
unfolding Hearing
Hearing-Heards from (inl e) = same-Star e
Hearing-Heards from (inr (q, h)) = one-Star h

pub Listens-Heards :
    {l m : Link} (packets : List (Address × Bytes)) → Listens l packets m → Star Heard l m
unfolding Listens
Listens-Heards [] e = same-Star e
Listens-Heards ((from, bytes) ∷ rest) (k, h, t) =
    Star-append (Hearing-Heards from h) (Listens-Heards rest t)

-- One gets from a client to another by one thing that it hears, or is still where one was.
pub record Hears (c d : Client) : Type 0 where
  pub heard : (link d ≡ link c) ⊎ Heard (link c) (link d)

pub Hears-same : {c d : Client} → link d ≡ link c → Hears c d
Hears-same e = record { heard = inl e }

pub Hears-if :
    {c d e : Client} (b : Bool)
    → (b ≡ true → Hears c d)
    → (b ≡ false → Hears c e)
    → Hears c (if b then d else e)
Hears-if true f g = f refl
Hears-if false f g = g refl

-- The packet is from the server's address.
pub Hears-Hearing :
    {c d : Client} (from : Address)
    → equal from c.server_address ≡ true
    → Hears c d
    → Hearing (link c) from (link d)
unfolding Hearing
Hears-Hearing from q h = elim (h.heard) [ inl e ↦ inl e | inr x ↦ inr (q, x) ]

pub Hearing-same : {l m : Link} (from : Address) → m ≡ l → Hearing l from m
unfolding Hearing
Hearing-same from e = inl e
