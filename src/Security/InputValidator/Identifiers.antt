-- ===== src/Security/InputValidator/Identifiers.antt =====
-- security/input_validator.py: the identifiers that are accepted.
use autonomous_rover_swarm_c.Common.{
  ℕ, zero, suc, ◌+◌, ◌≤◌, String, string_eq, Bool, true, false, ◌&&◌, ltb, leb, eqb, eqb_iff,
  if◌then◌else◌, beq_ne, ◌==◌, ◌≡◌, refl, arith, Bool-cases, inl, inr,
}
use Prim.Native.Char.{Char, code}
use text.Mathlib.TextLemmas.{cons-ne-nil}
use autonomous_rover_swarm_c.Security.InputValidator.{
  chars, is_alnum, is_id_char, newline, match_rest, match_pattern, validate_rover_id,
  validate_mission_id, all_chars,
}

-- The text without one newline at its end.
abbrev pub without_newline : String → String
without_newline String.[] = String.[]
without_newline (String.◌∷◌ c String.[]) =
    if eqb (code c) newline then String.[] else String.◌∷◌ c String.[]
without_newline (String.◌∷◌ c (String.◌∷◌ d s)) = String.◌∷◌ c (without_newline (String.◌∷◌ d s))

-- A letter or a digit, and then at most `n` letters, digits, underscores and hyphens.
abbrev pub is_identifier : ℕ → String → Bool
is_identifier n String.[] = false
is_identifier n (String.◌∷◌ c s) = is_alnum c && all_chars is_id_char s && leb (chars s) n

match_rest_lem :
    (p : Char → Bool) (n : ℕ) (s : String)
    → match_rest p n s ≡ (all_chars p (without_newline s) && leb (chars (without_newline s)) n)
unfolding match_rest
match_rest_lem p n String.[] = ground arith
match_rest_lem p zero (String.◌∷◌ c String.[]) = elim (Bool-cases (eqb (code c) newline)) [
  | inl ends ↦ rw ends refl
  | inr goes_on ↦ rw goes_on (ground arith)
]
match_rest_lem p zero (String.◌∷◌ c (String.◌∷◌ d s)) = ground arith
match_rest_lem p (suc n) (String.◌∷◌ c String.[]) = elim (Bool-cases (eqb (code c) newline)) [
  | inl ends ↦ rw ends (ground arith)
  | inr goes_on ↦ rw goes_on (ground arith)
]
match_rest_lem p (suc n) (String.◌∷◌ c (String.◌∷◌ d s)) =
    ground (arith, match_rest_lem p n (String.◌∷◌ d s))

newline_not_alnum : (c : Char) → eqb (code c) newline ≡ true → (is_alnum c && true) ≡ false
newline_not_alnum c ends =
    let is_ten : code c ≡ 10 = (eqb_iff (code c) 10).0 ends in ground (arith, is_ten)

match_pattern_lem :
    (n : ℕ) (s : String)
    → match_pattern is_alnum is_id_char n s ≡ is_identifier n (without_newline s)
unfolding match_pattern
match_pattern_lem n String.[] = refl
match_pattern_lem n (String.◌∷◌ c String.[]) = elim (Bool-cases (eqb (code c) newline)) [
  | inl ends ↦ rw ends (newline_not_alnum c ends)
  | inr goes_on ↦ rw goes_on (ground arith)
]
match_pattern_lem n (String.◌∷◌ c (String.◌∷◌ d s)) =
    ground (arith, match_rest_lem is_id_char n (String.◌∷◌ d s))

chars-without_newline : (s : String) → chars s ≤ suc (chars (without_newline s))
chars-without_newline String.[] = ground arith
chars-without_newline (String.◌∷◌ c String.[]) = ground arith
chars-without_newline (String.◌∷◌ c (String.◌∷◌ d s)) =
    ground (arith, chars-without_newline (String.◌∷◌ d s))

short_enough : (n : ℕ) (s : String) → is_identifier n s ≡ true → chars s ≤ suc n
short_enough n String.[] h = ground (arith, h)
short_enough n (String.◌∷◌ c s) h = ground (arith, h)

fits :
    (n : ℕ) (s : String)
    → is_identifier n (without_newline s) ≡ true
    → ((s == "") ≡ false) × (ltb (n + 2) (chars s) ≡ false)
fits n String.[] h = ground (arith, h)
fits n (String.◌∷◌ c s) h = (
  beq_ne (String.◌∷◌ c s) "" (cons-ne-nil c s),
  ground (
    arith,
    h,
    short_enough n (without_newline (String.◌∷◌ c s)) h,
    chars-without_newline (String.◌∷◌ c s),
  ),
)

-- A rover's id is accepted exactly if, without a newline at its end, it is a letter or a digit and
-- then at most 62 letters, digits, underscores and hyphens; a mission's id likewise with 127, if it
-- has at most 128 characters with that newline.
pub validate_ids_lem :
    (s : String)
    → (validate_rover_id s ≡ is_identifier 62 (without_newline s))
      × (validate_mission_id s ≡ (is_identifier 127 (without_newline s) && leb (chars s) 128))
unfolding validate_rover_id validate_mission_id match_pattern
validate_ids_lem s = (
  ground (arith, match_pattern_lem 62 s, fits 62 s),
  ground (arith, match_pattern_lem 127 s, fits 127 s),
)
