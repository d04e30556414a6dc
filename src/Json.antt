-- ===== src/Json.antt =====
-- JSON documents as Python's `json` hands them over, and the dict operations that the source uses.
-- An object keeps its members in insertion order; a float is known by its `repr`.
use mcp_heartbeat.Prelude.{
  Bool, List, Option, String, [], arith, eq_iff, false, if◌then◌else◌, ltb, none, not, refl, some,
  true, ◌==◌, ◌||◌, ◌∷◌, ◌≡◌,
}
use mcp_heartbeat.Prelude.Int.{negsuc, pos, ℤ}

mutual
  pub data Json : Type 0 where
    null : Json
    bool : Bool → Json
    int : ℤ → Json
    float : String → Json
    str : String → Json
    arr : Items → Json
    obj : Fields → Json

  pub data Items : Type 0 where
    nil : Items
    cons : Json → Items → Items

  pub data Fields : Type 0 where
    end : Fields
    field : String → Json → Fields → Fields

-- `raw.get(key)`: a missing member and a member that is null both read as None.
abbrev pub get : String → Fields → Json
get k end = null
get k (field j v fs) = if j == k then v else get k fs

-- `key in raw`
abbrev pub has : String → Fields → Bool
has k end = false
has k (field j v fs) = j == k || has k fs

-- `list(raw)`
abbrev pub keys : Fields → List String
keys end = []
keys (field j v fs) = j ∷ keys fs

-- `value is None`
abbrev pub is_null : Json → Bool
is_null null = true
is_null _ = false

-- `value == text`, for a text
abbrev pub is_text : Json → String → Bool
is_text (str s) t = s == t
is_text _ t = false

-- `value if isinstance(value, Mapping) else {}`, and `value or {}` before a `.get`
abbrev pub members : Json → Fields
members (obj fs) = fs
members _ = end

-- a text or None, as a JSON value
abbrev pub optional_text : Option String → Json
optional_text none = null
optional_text (some s) = str s

-- `isinstance(value, Mapping)`
abbrev pub is_mapping : Json → Bool
is_mapping (obj fs) = true
is_mapping _ = false

-- `bool(value)`
abbrev pub truthy : Json → Bool
truthy null = false
truthy (bool b) = b
truthy (int (pos n)) = ltb 0 n
truthy (int (negsuc n)) = true
truthy (float r) = not (r == "0.0" || r == "-0.0")
truthy (str s) = not (s == "")
truthy (arr nil) = false
truthy (arr (cons x xs)) = true
truthy (obj end) = false
truthy (obj (field k v fs)) = true

-- `raw[key] = value`
abbrev pub set_item : String → Json → Fields → Fields
set_item k v end = field k v end
set_item k v (field j w fs) = if j == k then field j v fs else field j w (set_item k v fs)

-- `{**a, **b}`
abbrev pub merged : Fields → Fields → Fields
merged a end = a
merged a (field k v fs) = merged (set_item k v a) fs

-- `isinstance(value, str) and value`
abbrev pub non_empty_text : Json → Option String
non_empty_text (str s) = if s == "" then none else some s
non_empty_text _ = none

-- `value` if it is a mapping
abbrev pub mapping_in : Json → Option Fields
mapping_in (obj fs) = some fs
mapping_in _ = none

-- `text in value`, for a value that may be a list
abbrev pub has_text : String → Items → Bool
has_text t nil = false
has_text t (cons v vs) = is_text v t || has_text t vs

pub get-set_item :
    (j k : String) (v : Json) (fs : Fields)
    → get j (set_item k v fs) ≡ (if k == j then v else get j fs)
get-set_item j k v end = refl
get-set_item j k v (field i w fs) =
    ground (arith, eq_iff k j, eq_iff i k, eq_iff i j, get-set_item j k v fs)

pub has-set_item :
    (j k : String) (v : Json) (fs : Fields) → has j (set_item k v fs) ≡ (k == j || has j fs)
has-set_item j k v end = refl
has-set_item j k v (field i w fs) =
    ground (arith, eq_iff k j, eq_iff i k, eq_iff i j, has-set_item j k v fs)
