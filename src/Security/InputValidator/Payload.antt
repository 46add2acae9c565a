-- ===== src/Security/InputValidator/Payload.antt =====
-- security/input_validator.py: `validate_json_payload` and its `_check_depth`.
use autonomous_rover_swarm_c.Common.{
  ℕ, suc, ◌+◌, ◌≤◌, max, String, Bool, true, false, not, ◌&&◌, ltb, if◌then◌else◌, ◌≡◌, Option,
  none, some, arith, Option-cases, inl, inr,
}
use autonomous_rover_swarm_c.Security.InputValidator.{chars}

-- A value of Python as JSON knows it; `other` is any other object. A key is a text or another object.
mutual
  pub data Json : Type 0 where
    text : String → Json
    scalar : Json
    array : JsonList → Json
    object : JsonFields → Json
    other : Json

  pub data JsonList : Type 0 where
    no_items : JsonList
    item : Json → JsonList → JsonList

  pub data JsonFields : Type 0 where
    no_fields : JsonFields
    field : Option String → Json → JsonFields → JsonFields

-- The key is a text of at most 256 characters.
abbrev pub good_key : Option String → Bool
good_key none = false
good_key (some key) = not (ltb 256 (chars key))

unfoldable mutual
  pub check_depth : (max_depth : ℕ) → Json → (current_depth : ℕ) → Bool
  check_depth max_depth (text t) depth =
      if ltb max_depth depth then false else not (ltb 65536 (chars t))
  check_depth max_depth scalar depth = not (ltb max_depth depth)
  check_depth max_depth (array items) depth =
      let rest = check_items max_depth items (suc depth) in
      if ltb max_depth depth then false else rest
  check_depth max_depth (object fields) depth =
      let rest = check_fields max_depth fields (suc depth) in
      if ltb max_depth depth then false else rest
  check_depth max_depth other depth = false

  pub check_items : (max_depth : ℕ) → JsonList → (current_depth : ℕ) → Bool
  check_items max_depth no_items depth = true
  check_items max_depth (item j items) depth =
      check_depth max_depth j depth && check_items max_depth items depth

  pub check_fields : (max_depth : ℕ) → JsonFields → (current_depth : ℕ) → Bool
  check_fields max_depth no_fields depth = true
  check_fields max_depth (field key j fields) depth =
      good_key key && check_depth max_depth j depth && check_fields max_depth fields depth

-- `dumped` is the length of `json.dumps(payload)`, `none` where that raises: library code.
unfoldable pub validate_json_payload :
    (Json → Option ℕ) → (max_depth max_size_bytes : ℕ) → Json → Bool
unfolding check_depth
validate_json_payload dumped max_depth max_size_bytes payload = elim (dumped payload) [
  | none ↦ false
  | some size ↦ if ltb max_size_bytes size then false else check_depth max_depth payload 0
]

-- How deep a value is nested; a text or a number has depth 0.
unfoldable mutual
  pub depth_of : Json → ℕ
  depth_of (text t) = 0
  depth_of scalar = 0
  depth_of (array items) = depth_items items
  depth_of (object fields) = depth_fields fields
  depth_of other = 0

  pub depth_items : JsonList → ℕ
  depth_items no_items = 0
  depth_items (item j items) = max (suc (depth_of j)) (depth_items items)

  pub depth_fields : JsonFields → ℕ
  depth_fields no_fields = 0
  depth_fields (field key j fields) = max (suc (depth_of j)) (depth_fields fields)

mutual
  unfolding check_depth depth_of

  check_depth-bound :
      (n : ℕ) (j : Json) (depth : ℕ) → check_depth n j depth ≡ true → depth_of j + depth ≤ n
  check_depth-bound n (text t) depth h = ground (arith, h)
  check_depth-bound n scalar depth h = ground (arith, h)
  check_depth-bound n (array items) depth h = ground (arith, h, check_items-bound n items depth)
  check_depth-bound n (object fields) depth h = ground (arith, h, check_fields-bound n fields depth)
  check_depth-bound n other depth h = ground (arith, h)

  check_items-bound :
      (n : ℕ) (js : JsonList) (depth : ℕ)
      → check_items n js (suc depth) ≡ true
      → depth ≤ n
      → depth_items js + depth ≤ n
  check_items-bound n no_items depth h k = ground (arith, k)
  check_items-bound n (item j items) depth h k =
      ground (arith, h, check_depth-bound n j (suc depth), check_items-bound n items depth)

  check_fields-bound :
      (n : ℕ) (js : JsonFields) (depth : ℕ)
      → check_fields n js (suc depth) ≡ true
      → depth ≤ n
      → depth_fields js + depth ≤ n
  check_fields-bound n no_fields depth h k = ground (arith, k)
  check_fields-bound n (field key j fields) depth h k =
      ground (arith, h, check_depth-bound n j (suc depth), check_fields-bound n fields depth)

-- A payload that is accepted is not nested deeper than `max_depth`, and its JSON text has at most
-- `max_size_bytes` characters.
pub validate_json_payload_bounds :
    (dumped : Json → Option ℕ) (max_depth max_size_bytes : ℕ) (payload : Json)
    → validate_json_payload dumped max_depth max_size_bytes payload ≡ true
    → (depth_of payload ≤ max_depth)
      × ((size : ℕ) × (dumped payload ≡ some size) × (size ≤ max_size_bytes))
unfolding validate_json_payload
validate_json_payload_bounds dumped max_depth max_size_bytes payload h =
    elim (Option-cases (dumped payload)) [
      | inl fails ↦ absurd (ground (arith, h, fails))
      | inr (size, dumps) ↦
          let shallow : check_depth max_depth payload 0 ≡ true = ground (arith, h, dumps) in
          (
            ground (arith, check_depth-bound max_depth payload 0 shallow),
            (size, dumps, ground (arith, h, dumps)),
          )
    ]
