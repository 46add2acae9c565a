-- ===== src/Security/InputValidator/Cleaning.antt =====
-- security/input_validator.py: what is left of a text that is cleaned.
use autonomous_rover_swarm_c.Common.{
  String, string_eq, Bool, true, false, not, ◌&&◌, ◌||◌, List, [], ◌∷◌, ltb, eqb, ◌==◌, ◌≡◌, refl,
  subst, arith, Bool-cases, inl, inr,
}
use autonomous_rover_swarm_c.Common.Errors.{ok, ok-injective}
use Prim.Native.Char.{Char, code}
use autonomous_rover_swarm_c.Security.InputValidator.{
  same_char, one_of, has_char, remove_char, remove_chars, remove_controls, shell_dangerous,
  filename_dangerous, sanitize_command, remove_dots, lstrip, rstrip, clean_filename,
  sanitize_filename, cons_kept,
}

-- A control character other than the tab.
abbrev pub is_control : Char → Bool
is_control c = ltb (code c) 32 && not (eqb (code c) 9)

has_char-remove_char :
    (c d : Char) (s : String) → has_char c (remove_char d s) ≡ (has_char c s && not (same_char c d))
unfolding remove_char
has_char-remove_char c d String.[] = refl
has_char-remove_char c d (String.◌∷◌ b s) = ground (arith, has_char-remove_char c d s)

has_char-remove_chars :
    (c : Char) (ds : List Char) (s : String)
    → has_char c (remove_chars ds s) ≡ (has_char c s && not (one_of c ds))
unfolding remove_chars
has_char-remove_chars c [] s = ground arith
has_char-remove_chars c (d ∷ ds) s =
    ground (arith, has_char-remove_chars c ds (remove_char d s), has_char-remove_char c d s)

has_char-remove_controls :
    (c : Char) (s : String) → has_char c (remove_controls s) ≡ (has_char c s && not (is_control c))
unfolding remove_controls
has_char-remove_controls c String.[] = refl
has_char-remove_controls c (String.◌∷◌ b s) = ground (arith, has_char-remove_controls c s)

-- A sanitized command has exactly those characters of the text that are neither dangerous in a shell
-- nor control characters.
pub has_char-sanitize_command :
    (c : Char) (s : String)
    → has_char c (sanitize_command s)
      ≡ (has_char c s && not (one_of c shell_dangerous || is_control c))
unfolding sanitize_command
has_char-sanitize_command c s = ground (
  arith,
  has_char-remove_controls c (remove_chars shell_dangerous s),
  has_char-remove_chars c shell_dangerous s,
)

no_char-lstrip :
    (is_space : Char → Bool) (c : Char) (s : String)
    → has_char c s ≡ false
    → has_char c (lstrip is_space s) ≡ false
unfolding lstrip
no_char-lstrip is_space c String.[] h = h
no_char-lstrip is_space c (String.◌∷◌ d s) h = ground (arith, h, no_char-lstrip is_space c s)

has_char-cons_kept :
    (space : Bool) (c d : Char) (s : String)
    → has_char c s ≡ false
    → same_char c d ≡ false
    → has_char c (cons_kept space d s) ≡ false
has_char-cons_kept true c d String.[] h k = refl
has_char-cons_kept false c d String.[] h k = ground (arith, h, k)
has_char-cons_kept space c d (String.◌∷◌ b s) h k = ground (arith, h, k)

no_char-rstrip :
    (is_space : Char → Bool) (c : Char) (s : String)
    → has_char c s ≡ false
    → has_char c (rstrip is_space s) ≡ false
unfolding rstrip
no_char-rstrip is_space c String.[] h = h
no_char-rstrip is_space c (String.◌∷◌ d s) h =
    has_char-cons_kept (is_space d) c d (rstrip is_space s)
      (no_char-rstrip is_space c s (ground (arith, h))) (ground (arith, h))

-- A file name that is accepted has none of the characters that are removed from it: in particular no
-- separator of directories.
pub sanitize_filename_removes :
    (is_space : Char → Bool) (s name : String) (c : Char)
    → sanitize_filename is_space s ≡ ok name
    → one_of c filename_dangerous ≡ true
    → has_char c name ≡ false
unfolding sanitize_filename clean_filename
sanitize_filename_removes is_space s name c h dangerous =
    let removed = remove_chars filename_dangerous (remove_dots s) in
    let gone : has_char c (clean_filename is_space s) ≡ false =
      no_char-rstrip is_space c (lstrip is_space removed) (
        no_char-lstrip is_space c removed (
          ground (arith, dangerous, has_char-remove_chars c filename_dangerous (remove_dots s)))) in
    elim (Bool-cases (s == "")) [
      | inl empty ↦
          let same : "" ≡ name = ok-injective (ground (arith, h, empty)) in
          subst (λ t. has_char c t ≡ false) same refl
      | inr filled ↦
          let same : clean_filename is_space s ≡ name = ok-injective (ground (arith, h, filled)) in
          subst (λ t. has_char c t ≡ false) same gone
    ]
