-- ===== src/Tests.antt =====
-- Runs at concrete inputs: each theorem with hypotheses is applied where they hold.
mod Access
mod Audit
mod Counters
mod Pipeline
mod Registers
mod Limits
mod Rovers
mod Sets
mod Swarm
use autonomous_rover_swarm_c.Common.{ℕ, ◌+◌, ◌-◌, ◌*◌, ◌/◌, ltb, leb, List, [], ◌∷◌}
use autonomous_rover_swarm_c.Common.Int.{pos}
use autonomous_rover_swarm_c.Common.Floats.{Floats}
use mathlib.Core.List.{Memᴰ}

-- Two states that arrive in either order.
pub swap {ℓ} : {A : Type ℓ} {x a b : A} → Memᴰ x (a ∷ b ∷ []) → Memᴰ x (b ∷ a ∷ [])
swap (Memᴰ.head e) = Memᴰ.tail (Memᴰ.head e)
swap (Memᴰ.tail (Memᴰ.head e)) = Memᴰ.head e
swap (Memᴰ.tail (Memᴰ.tail m)) = elim m [ ]

-- Natural numbers in the place of floats.
abbrev pub nat_floats : Floats ℕ
nat_floats = record {
  of_nat = λ n. n;
  add = λ a b. a + b;
  sub = λ a b. a - b;
  mul = λ a b. a * b;
  div = λ a b. a / b;
  lt = ltb;
  le = leb;
  trunc = λ n. pos n;
}
