-- ===== src/Tests/Access.antt =====
-- Runs of API keys, tokens, identifiers, roles, messages and sequences.
use Prim.Native.String.{◌++◌}
use autonomous_rover_swarm_c.Tests.{nat_floats}
use autonomous_rover_swarm_c.Common.{
  All, ◌≤◌, ℕ, ◌+◌, ◌-◌, ◌*◌, String, string_eq, Bool, true, false, ◌&&◌, ◌≡◌, ◌≢◌, refl, Option,
  none, some, or_else, is_some, List, [], ◌∷◌, leb, eqb, beq_refl, arith, if◌then◌else◌, ◌==◌,
}
use autonomous_rover_swarm_c.Common.Int.{pos}
use autonomous_rover_swarm_c.Common.Errors.{Result, ok, err, is_ok, crdt_merge_error}
use autonomous_rover_swarm_c.Common.Dict.{Dict, keys, lookup, insert, first_some}
use autonomous_rover_swarm_c.Security.ApiKeys.{
  ApiKeyHash, Draw, revoke_key, generate_key, validate_key, scan, accepts,
}
use autonomous_rover_swarm_c.Security.ApiKeys.Revocation.{
  Op, validates, revokes, run, revoked_refused,
}
use autonomous_rover_swarm_c.Security.ApiKeys.Revocation
use autonomous_rover_swarm_c.Security.ApiKeys.Acceptance.{generated_accepted}
use autonomous_rover_swarm_c.Security.Rbac.{admin, observer, system_admin, default_permissions}
use autonomous_rover_swarm_c.Security.Jwt.{
  Claims, JwtConfig, get_user_from_token, create_access_token,
}
use autonomous_rover_swarm_c.Security.Jwt.Tokens.{IsJwt, token_user_is_observer}
use Prim.Native.Char.{Char, code}
use autonomous_rover_swarm_c.Common.Sets.{member}
use autonomous_rover_swarm_c.Security.InputValidator.{
  sanitize_filename, chars, validate_rover_id, validate_mission_id,
}
use autonomous_rover_swarm_c.Security.InputValidator.Identifiers.{
  is_identifier, without_newline, validate_ids_lem,
}
use autonomous_rover_swarm_c.Swarm.RoleAssignment.{redistribute, general_text}
use autonomous_rover_swarm_c.Swarm.RoleAssignment.Needs.{total, need}
use autonomous_rover_swarm_c.Swarm.RoleAssignment.Shares.{count, redistribute_lem}
use autonomous_rover_swarm_c.Communication.MessageEnvelope.{
  MessageEnvelope, Wire, alert, to_binary, from_binary, from_binary-to_binary,
}
use autonomous_rover_swarm_c.Crdt.MergeEngine
use autonomous_rover_swarm_c.Crdt.MergeEngine.{MergeRecord, records}
use autonomous_rover_swarm_c.Crdt.MergeEngine.Success
use autonomous_rover_swarm_c.Crdt.MergeEngine.Success.{
  merges_with, resets, succeeds, merge_never_succeeds,
}
use autonomous_rover_swarm_c.Crdt.Rga.{Rga, Element, value}
use autonomous_rover_swarm_c.Crdt.Rga
use autonomous_rover_swarm_c.Crdt.VectorClock
use autonomous_rover_swarm_c.Crdt.Rga.Walk.{value_ends}
use autonomous_rover_swarm_c.Crdt.Rga.Links.{shown}
use autonomous_rover_swarm_c.Crdt.Rga.Refinement
use autonomous_rover_swarm_c.Crdt.Rga.Refinement.{Edit, inserts, deletes, spec_run, value-run}

-- Here a hash is the key after the salt.
abbrev derive : String → String → String
derive key salt = salt ++ key

abbrev draw : Draw String ℕ
draw = record { key_encoded = "abc"; key_id = "k1"; salt = "s"; now = 1 }

generated_accepted_example :
    (validate_key derive (generate_key derive draw (some "ada") []).2 3 (
      run derive
        (revokes "k2" ∷ validates "rv_x" 2 ∷ [])
        (generate_key derive draw (some "ada") []).0)).1
    ≡ true
generated_accepted_example =
    generated_accepted derive draw (some "ada") 3 (revokes "k2" ∷ validates "rv_x" 2 ∷ []) []
      ((λ same. ground (arith, string_eq.beq_iff "k2" "k1", same)), (tt, tt))

-- The keys after the key was made, and after it was revoked and tried.
abbrev made : Dict String (ApiKeyHash String String ℕ)
made = (generate_key derive draw (some "ada") []).0

abbrev tries : List (Op String ℕ)
tries = validates "rv_abc" 2 ∷ []

others_refuse :
    All
      (λ (p : String × ApiKeyHash String String ℕ).
        p.0 ≢ "k1" → accepts derive "rv_abc" p.1 ≡ false)
      (run derive tries (revoke_key "k1" made).0)
unfolding run Revocation.apply validate_key scan revoke_key generate_key lookup insert
others_refuse = ((λ other. absurd (other refl)), tt)

revoked_refused_example :
    ((validate_key derive "rv_abc" 3 (run derive tries (revoke_key "k1" made).0)).1 ≡ false)
    × ((validate_key derive "rv_abc" 3 (run derive tries (revoke_key "k1" made).0)).2 ≡ none)
revoked_refused_example = revoked_refused derive "k1" "rv_abc" 3 tries made (tt, tt) others_refuse

-- A token that is the claims themselves.
abbrev config : JwtConfig ℕ
config = record {
  access_token_expire_minutes = 30;
  refresh_token_expire_days = 7;
  issuer = "rover-swarm";
  audience = none;
}

abbrev encode : Claims ℕ → Claims ℕ
encode c = c

-- The audience of the token is the one that is asked for.
abbrev same_audience : Option String → Option String → Bool
same_audience (some a) none = false
same_audience none none = true
same_audience none (some b) = false
same_audience (some a) (some b) = a == b

abbrev decode : String → Option String → ℕ → Claims ℕ → Option (Claims ℕ)
decode issuer audience now c = if same_audience audience c.aud then some c else none

same_audience_refl : (a : Option String) → same_audience a a ≡ true
same_audience_refl none = refl
same_audience_refl (some a) = beq_refl a

is_jwt : IsJwt nat_floats encode decode
is_jwt = record {
  decode-encode = λ c now fresh. ground (arith, same_audience_refl c.aud);
  decode_other = λ c now audience missing. ground (arith, missing);
}

token_user_is_observer_example :
    get_user_from_token nat_floats encode decode config 100
      (create_access_token nat_floats encode config "ada" admin (system_admin ∷ []) none 50)
    ≡ ok (record {
      user_id = "ada";
      username = "ada";
      role = observer;
      permissions = or_else (default_permissions observer) [];
      token_type = some "access";
      issued_at = some 50;
      expires_at = some (50 + 30 * 60);
    })
token_user_is_observer_example =
    token_user_is_observer nat_floats encode decode is_jwt config "ada" admin (system_admin ∷ []) 50
      100 refl refl

validate_ids_lem_example :
    (validate_rover_id "rover-1\n" ≡ is_identifier 62 (without_newline "rover-1\n"))
    × (validate_mission_id "rover-1\n"
        ≡ (is_identifier 127 (without_newline "rover-1\n") && leb (chars "rover-1\n") 128))
validate_ids_lem_example = validate_ids_lem "rover-1\n"

-- A newline at the end of an id is accepted.
newline_accepted : validate_rover_id "rover-1\n" ≡ true
unfolding validate_rover_id
newline_accepted = refl

-- Two dots come together when what stands between them is removed.
abbrev is_blank : Char → Bool
is_blank c = eqb (code c) 32

dots_survive : sanitize_filename is_blank "./." ≡ ok ".."
unfolding sanitize_filename
dots_survive = refl

abbrev needs : Dict String ℕ
needs = ("scout", 2) ∷ ("relay", 1) ∷ []

redistribute_lem_example :
    let out = redistribute ("a" ∷ "b" ∷ []) needs (("c", "scout") ∷ []) in
    (keys out.assignments ≡ "a" ∷ "b" ∷ [])
    × ((rover : String)
        → lookup rover out.roles
          ≡ first_some (lookup rover out.assignments) (lookup rover (("c", "scout") ∷ [])))
    × ((role : String)
        → ((general_text == role) ≡ true → 2 ≤ 3)
        → count role out.assignments + need (lookup role out.unmet) ≡ need (lookup role needs))
    × (total out.unmet ≡ 3 - 2)
redistribute_lem_example =
    redistribute_lem ("a" ∷ "b" ∷ []) needs (("c", "scout") ∷ [])
      (unfold member in (refl, (refl, tt))) (unfold keys member in (refl, (refl, tt)))

abbrev alarm : MessageEnvelope ℕ ℕ
alarm = record {
  msg_type = alert;
  sender = "a";
  receiver = none;
  payload = 7;
  timestamp = 5;
  sequence = pos 1;
  ttl = pos 60;
  correlation_id = none;
}

abbrev same_wire : Wire ℕ ℕ → Wire ℕ ℕ
same_wire w = w

from_binary-to_binary_example :
    from_binary same_wire same_wire 0 0 (to_binary same_wire same_wire alarm) ≡ ok alarm
from_binary-to_binary_example = from_binary-to_binary same_wire same_wire alarm 0 0 (λ w. refl)

abbrev kind : ℕ → String
kind n = "GCounter"

abbrev always : ℕ → Bool
always n = true

abbrev joins : ℕ → ℕ → Result ℕ
joins m n = if eqb n 0 then err crdt_merge_error else ok n

merge_never_succeeds_example :
    let s = Success.run kind always joins (merges_with 1 2 ∷ resets ∷ []) MergeEngine.new in
    (succeeds (MergeEngine.merge kind always joins 1 2 s).1 ≡ false)
    × ((rs : List MergeRecord)
        → succeeds
            (MergeEngine.merge kind always joins 1 2 (record s { merge_history = records rs })).1
          ≡ (kind 1 == kind 2 && is_ok (joins 1 2)))
merge_never_succeeds_example =
    merge_never_succeeds kind always joins (merges_with 1 2 ∷ resets ∷ []) 1 2

-- Two elements whose links run in a circle.
abbrev element : String → String → Element ℕ
element id next = record { id = id; value = 1; next = some next; deleted = false; origin = "a" }

abbrev ring : Rga ℕ
ring = record {
  node_id = "a";
  vector_clock = VectorClock.fresh "a";
  elements = ("a:1", element "a:1" "a:2") ∷ ("a:2", element "a:2" "a:1") ∷ [];
  head = some "a:1";
  tag_counter = 2;
  delta_ops = [];
}

value_ends_example : is_some (value ring) ≡ true
value_ends_example = value_ends ring

-- The second element goes to the front, and the first is deleted.
abbrev edits : List (Edit ℕ)
edits = inserts none 1 ∷ inserts none 2 ∷ inserts (some "a:1") 3 ∷ deletes "a:1" ∷ []

value-run_example :
    value (Refinement.run edits (Rga.new "a")) ≡ some (shown (spec_run "a" 0 edits []))
value-run_example = value-run "a" edits
