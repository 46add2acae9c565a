-- ===== src/Security/InputValidator.antt =====
-- security/input_validator.py: `InputValidator` on texts. A regular expression of the form
-- `^[first][rest]{0,n}$` is written out; its `$` also matches before a newline that ends the text.
-- `is_space` is `str.isspace` of one character: library code.
pub mod Cleaning
pub mod Identifiers
pub mod Payload
use autonomous_rover_swarm_c.Common.{
  ℕ, zero, suc, ◌+◌, String, string_eq, Bool, true, false, not, ◌&&◌, ◌||◌, Option, none, some,
  List, [], ◌∷◌, ltb, leb, eqb, if◌then◌else◌, ◌==◌, Key, ◌≡◌, ◌↔◌, arith, nat_eq,
}
use autonomous_rover_swarm_c.Common.Errors.{Result, ok, err, validation_error}
use Prim.Native.Char.{Char, code}
use text.Mathlib.TextEquality.{Char-path}

-- `len(s)`
abbrev pub chars : String → ℕ
chars String.[] = 0
chars (String.◌∷◌ c s) = suc (chars s)

abbrev pub same_char : Char → Char → Bool
same_char c d = eqb (code c) (code d)

abbrev pub one_of : Char → List Char → Bool
one_of c [] = false
one_of c (d ∷ ds) = same_char c d || one_of c ds

abbrev pub has_char : Char → String → Bool
has_char c String.[] = false
has_char c (String.◌∷◌ d s) = same_char c d || has_char c s

-- `[a-zA-Z0-9]`
abbrev pub is_alnum : Char → Bool
is_alnum c =
    (leb 48 (code c) && leb (code c) 57)
    || ((leb 65 (code c) && leb (code c) 90) || (leb 97 (code c) && leb (code c) 122))

-- `[a-zA-Z0-9_-]`
abbrev pub is_id_char : Char → Bool
is_id_char c = is_alnum c || one_of c ("_" ∷ "-" ∷ [])

-- `[a-zA-Z0-9._-]`
abbrev pub is_name_char : Char → Bool
is_name_char c = is_alnum c || one_of c ("." ∷ "_" ∷ "-" ∷ [])

abbrev pub newline : ℕ
newline = 10

-- `[rest]{0,n}$`
unfoldable pub match_rest : (Char → Bool) → ℕ → String → Bool
match_rest rest n String.[] = true
match_rest rest zero (String.◌∷◌ c String.[]) = eqb (code c) newline
match_rest rest zero (String.◌∷◌ c (String.◌∷◌ d s)) = false
match_rest rest (suc n) (String.◌∷◌ c String.[]) = rest c || eqb (code c) newline
match_rest rest (suc n) (String.◌∷◌ c (String.◌∷◌ d s)) =
    rest c && match_rest rest n (String.◌∷◌ d s)

-- `^[first][rest]{0,n}$`
unfoldable pub match_pattern : (first rest : Char → Bool) → ℕ → String → Bool
unfolding match_rest
match_pattern first rest n String.[] = false
match_pattern first rest n (String.◌∷◌ c s) = first c && match_rest rest n s

unfoldable pub validate_rover_id : String → Bool
unfolding match_pattern
validate_rover_id rover_id =
    if rover_id == ""
    then false
    else if ltb 64 (chars rover_id)
    then false
    else match_pattern is_alnum is_id_char 62 rover_id

unfoldable pub require_valid_rover_id : String → Result (Unit {0})
unfolding validate_rover_id
require_valid_rover_id rover_id =
    if not (validate_rover_id rover_id) then err validation_error else ok tt

unfoldable pub validate_mission_id : String → Bool
unfolding match_pattern
validate_mission_id mission_id =
    if mission_id == ""
    then false
    else if ltb 128 (chars mission_id)
    then false
    else match_pattern is_alnum is_id_char 127 mission_id

unfoldable pub require_valid_mission_id : String → Result (Unit {0})
unfolding validate_mission_id
require_valid_mission_id mission_id =
    if not (validate_mission_id mission_id) then err validation_error else ok tt

unfoldable pub validate_username : String → Bool
unfolding match_pattern
validate_username username =
    if ltb (chars username) 2 || ltb 32 (chars username)
    then false
    else match_pattern (λ c. is_alnum c || one_of c ("_" ∷ [])) is_name_char 31 username

unfoldable pub validate_port : ℕ → Bool
validate_port port = leb 1 port && leb port 65535

-- `s.replace(c, "")` of one character
unfoldable pub remove_char : Char → String → String
remove_char c String.[] = String.[]
remove_char c (String.◌∷◌ d s) =
    let rest = remove_char c s in if same_char c d then rest else String.◌∷◌ d rest

unfoldable pub remove_chars : List Char → String → String
unfolding remove_char
remove_chars [] s = s
remove_chars (c ∷ cs) s = remove_chars cs (remove_char c s)

abbrev pub shell_dangerous : List Char
shell_dangerous =
    ";" ∷ "&" ∷ "|" ∷ "`" ∷ "$" ∷ "(" ∷ ")" ∷ "<" ∷ ">" ∷ "\n" ∷ "\r" ∷ "!" ∷ "{" ∷ "}" ∷ "[" ∷ "]"
    ∷ []

-- The loop over the control characters but the tab.
unfoldable pub remove_controls : String → String
remove_controls String.[] = String.[]
remove_controls (String.◌∷◌ c s) =
    let rest = remove_controls s in
    if ltb (code c) 32 && not (eqb (code c) 9) then rest else String.◌∷◌ c rest

unfoldable pub sanitize_command : String → String
unfolding remove_chars remove_controls
sanitize_command value = remove_controls (remove_chars shell_dangerous value)

unfoldable pub safe_subprocess_args : List String → List String
unfolding sanitize_command
safe_subprocess_args [] = []
safe_subprocess_args (arg ∷ args) = sanitize_command arg ∷ safe_subprocess_args args

-- `s.replace("..", "")`
unfoldable pub remove_dots : String → String
remove_dots String.[] = String.[]
remove_dots (String.◌∷◌ c String.[]) = String.◌∷◌ c String.[]
remove_dots (String.◌∷◌ c (String.◌∷◌ d s)) =
    let without = remove_dots s in
    let rest = remove_dots (String.◌∷◌ d s) in
    if same_char c "." && same_char d "." then without else String.◌∷◌ c rest

-- `s.lstrip()` and `s.rstrip()`
unfoldable pub lstrip : (Char → Bool) → String → String
lstrip is_space String.[] = String.[]
lstrip is_space (String.◌∷◌ c s) =
    let rest = lstrip is_space s in if is_space c then rest else String.◌∷◌ c s

abbrev cons_kept : Bool → Char → String → String
cons_kept space c String.[] = if space then String.[] else String.◌∷◌ c String.[]
cons_kept space c (String.◌∷◌ d s) = String.◌∷◌ c (String.◌∷◌ d s)

unfoldable pub rstrip : (Char → Bool) → String → String
rstrip is_space String.[] = String.[]
rstrip is_space (String.◌∷◌ c s) = cons_kept (is_space c) c (rstrip is_space s)

abbrev pub filename_dangerous : List Char
filename_dangerous = "/" ∷ "\\" ∷ "<" ∷ ">" ∷ "|" ∷ ":" ∷ "\"" ∷ "?" ∷ "*" ∷ []

-- The text that `sanitize_filename` makes, before it is tested.
unfoldable pub clean_filename : (Char → Bool) → String → String
unfolding remove_dots remove_chars lstrip rstrip
clean_filename is_space filename =
    rstrip is_space (lstrip is_space (remove_chars filename_dangerous (remove_dots filename)))

unfoldable pub sanitize_filename : (Char → Bool) → String → Result String
unfolding clean_filename
sanitize_filename is_space filename =
    let cleaned = clean_filename is_space filename in
    if filename == "" then ok "" else if cleaned == "" then err validation_error else ok cleaned

abbrev pub all_chars : (Char → Bool) → String → Bool
all_chars p String.[] = true
all_chars p (String.◌∷◌ c s) = p c && all_chars p s

-- A set of characters that is missing or empty is no condition.
abbrev pub allowed : List Char → Char → Bool
allowed [] c = true
allowed (d ∷ ds) c = one_of c (d ∷ ds)

-- `validate_string` of a text.
unfoldable pub validate_string :
    (Char → Bool)
    → (min_length max_length : ℕ) → (allow_empty : Bool)
    → (allowed_chars forbidden_chars : List Char) → String
    → Bool
validate_string is_space min_length max_length allow_empty allowed_chars forbidden_chars value =
    if not allow_empty && all_chars is_space value
    then false
    else if ltb (chars value) min_length || ltb max_length (chars value)
    then false
    else if not (all_chars (allowed allowed_chars) value)
    then false
    else all_chars (λ c. not (one_of c forbidden_chars)) value
