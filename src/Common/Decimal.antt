-- ===== src/Common/Decimal.antt =====
-- Python's `str(n)` of a natural number, and the f-string `f"{node}:{n}"` that names an operation.
use autonomous_rover_swarm_c.Common.Tests.{if◌then◌else◌, ltb, eqb, Bool-cases, ltb→lt}
use Prim.Native.Nat.{ℕ, zero, suc, ◌+◌, ◌-◌, ◌*◌, ◌/◌, ◌%◌, ◌<◌}
use Prim.Native.Char.{Char, code}
use Prim.Native.String.{String, ◌++◌}
use mathlib.Core.Path.{◌≡◌, refl, ap, sym, ◌∙◌}
use mathlib.Core.Logic.{inl, inr}
use native.Mathlib.Omega.{arith}
use text.Mathlib.TextLemmas.{append_cancel_left}

abbrev digit : ℕ → Char
digit d =
    if eqb d 0
    then "0"
    else if eqb d 1
    then "1"
    else if eqb d 2
    then "2"
    else if eqb d 3
    then "3"
    else if eqb d 4
    then "4"
    else if eqb d 5
    then "5"
    else if eqb d 6
    then "6"
    else if eqb d 7
    then "7"
    else if eqb d 8
    then "8"
    else "9"

-- The digits of `n` before those of `rest`; `fuel` bounds their number.
show_loop : ℕ → ℕ → String → String
show_loop zero n rest = rest
show_loop (suc fuel) n rest =
    let more = show_loop fuel (n / 10) (String.◌∷◌ (digit (n % 10)) rest) in
    if ltb n 10 then String.◌∷◌ (digit n) rest else more

unfoldable pub show : ℕ → String
unfolding show_loop
show n = show_loop (suc n) n String.[]

read_loop : ℕ → String → ℕ
read_loop n String.[] = n
read_loop n (String.◌∷◌ c s) = read_loop (n * 10 + (code c - 48)) s

code-digit : (d : ℕ) → d < 10 → code (digit d) ≡ 48 + d
code-digit zero h = refl
code-digit (suc zero) h = refl
code-digit (suc (suc zero)) h = refl
code-digit (suc (suc (suc zero))) h = refl
code-digit (suc (suc (suc (suc zero)))) h = refl
code-digit (suc (suc (suc (suc (suc zero))))) h = refl
code-digit (suc (suc (suc (suc (suc (suc zero)))))) h = refl
code-digit (suc (suc (suc (suc (suc (suc (suc zero))))))) h = refl
code-digit (suc (suc (suc (suc (suc (suc (suc (suc zero)))))))) h = refl
code-digit (suc (suc (suc (suc (suc (suc (suc (suc (suc zero))))))))) h = refl
code-digit (suc (suc (suc (suc (suc (suc (suc (suc (suc (suc d)))))))))) h = absurd (omega arith)

read-show_loop :
    (fuel n : ℕ) (rest : String) → n < fuel → read_loop 0 (show_loop fuel n rest) ≡ read_loop n rest
unfolding show_loop read_loop
read-show_loop zero n rest h = absurd (omega arith)
read-show_loop (suc fuel) n rest h = elim (Bool-cases (ltb n 10)) [
  | inl last ↦ rw last (ap (λ k. read_loop k rest) (omega (arith, code-digit n (ltb→lt n 10 last))))
  | inr more ↦ rw more (
      read-show_loop fuel (n / 10) (String.◌∷◌ (digit (n % 10)) rest) (ground arith)
      ∙ ap (λ k. read_loop k rest) (omega (arith, code-digit (n % 10) (omega arith))))
]

-- Different numbers are written differently.
pub show-injective : (m n : ℕ) → show m ≡ show n → m ≡ n
unfolding show read_loop
show-injective m n h =
    sym (read-show_loop (suc m) m String.[] (omega arith))
    ∙ ap (read_loop 0) h
    ∙ read-show_loop (suc n) n String.[] (omega arith)

-- `f"{node}:{n}"`
unfoldable pub tag_of : String → ℕ → String
unfolding show
tag_of node n = node ++ (":" ++ show n)

pub tag_of-injective : (node : String) (m n : ℕ) → tag_of node m ≡ tag_of node n → m ≡ n
unfolding tag_of
tag_of-injective node m n h =
    show-injective m n (append_cancel_left ":" _ _ (append_cancel_left node _ _ h))
