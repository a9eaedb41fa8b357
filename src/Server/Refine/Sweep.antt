-- ===== src/Server/Refine/Sweep.antt =====
-- Loops over the client slots of server.go, and how far a loop that empties them has come.
use netcode_go.Prelude.{
  ℕ, zero, suc, ◌+◌, ◌<◌, Bool, true, false, not, ◌≡◌, refl, sym, subst, arith, if◌then◌else◌,
  dec_lt,
}
use netcode_go.Server.{Server, for_slots}
use netcode_go.Server.Roster.{Roster, seat, vacated}
use netcode_go.Server.Valid.{seat-vacated}

-- A running server's roster with no network client in front of seat `i` and nobody in front of
-- seat `k`.
pub record Swept (m i k : ℕ) (r : Roster) : Type 0 where
  pub on : r.running ≡ true
  pub slots : r.max ≡ m
  pub hosted : (j : ℕ) → j < i → (seat r j).taken ≡ true → (seat r j).loopback ≡ true
  pub empty : (j : ℕ) → j < k → (seat r j).taken ≡ false

module _ {m i k : ℕ} {r : Roster} (w : Swept m i k r) where
  pub Swept-vacated : (x : ℕ) → Swept m i k (vacated r x)
  Swept-vacated x = record {
    on = w.on;
    slots = w.slots;
    hosted = λ j lt. ground (arith, seat-vacated r x j, w.hosted j);
    empty = λ j lt. ground (arith, seat-vacated r x j, w.empty j);
  }

  pub Swept-hosted : ((seat r i).taken ≡ true → (seat r i).loopback ≡ true) → Swept m (i + 1) k r
  Swept-hosted h = record {
    on = w.on;
    slots = w.slots;
    hosted = λ j lt. elim (dec_lt j i) [
      | yes less ↦ w.hosted j less
      | no more ↦
          subst (λ x. (seat r x).taken ≡ true → (seat r x).loopback ≡ true) (sym (same j lt more)) h
    ];
    empty = w.empty;
  }
    where
      same : (j : ℕ) → j < i + 1 → ¬ (j < i) → j ≡ i
      same j lt more = omega arith

  pub Swept-empty : (seat r k).taken ≡ false → Swept m i (k + 1) r
  Swept-empty h = record {
    on = w.on;
    slots = w.slots;
    hosted = w.hosted;
    empty = λ j lt. elim (dec_lt j k) [
      | yes less ↦ w.empty j less
      | no more ↦ subst (λ x. (seat r x).taken ≡ false) (sym (same j lt more)) h
    ];
  }
    where
      same : (j : ℕ) → j < k + 1 → ¬ (j < k) → j ≡ k
      same j lt more = omega arith

pub if_on {ℓ} : {A : Type ℓ} (x y : A) (b : Bool) → b ≡ true → (if not b then x else y) ≡ y
if_on x y true h = refl
if_on x y false h = cc

pub if_off {ℓ} : {A : Type ℓ} (x y : A) (b : Bool) → b ≡ false → (if not b then x else y) ≡ x
if_off x y true h = cc
if_off x y false h = refl

-- A loop over the slots, by a property that each round carries one slot further.
pub for_slots_lem :
    (m n : ℕ) (P : ℕ → Server → Type 0) (body : Server → ℕ → Server)
    → ((s : Server) (i : ℕ) → i < m → P i s → P (i + 1) (body s i))
    → (i : ℕ) (s : Server) → i + n ≡ m
    → P i s
    → P m (for_slots n i body s)
unfolding for_slots
for_slots_lem m zero P body step i s e p = subst (λ k. P k s) (omega arith) p
for_slots_lem m (suc n) P body step i s e p =
    for_slots_lem m n P body step (i + 1) (body s i) (omega arith) (step s i (omega arith) p)
