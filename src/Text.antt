-- ===== src/Text.antt =====
-- Python's text operations that the source uses, over code points, and the regular expressions of
-- mcp_heartbeat/model.py read as `re.match` reads them.
use Prim.Native.Char.{code}
use mcp_heartbeat.Prelude.{
  Bool, List, String, [], false, leb, nat_eq, suc, true, zero, ℕ, ◌&&◌, ◌||◌, ◌∷◌,
}

abbrev pub codes : String → List ℕ
codes String.[] = []
codes (String.◌∷◌ c s) = code c ∷ codes s

-- `"." in text`
abbrev pub has_code : ℕ → List ℕ → Bool
has_code d [] = false
has_code d (c ∷ cs) = nat_eq c d || has_code d cs

-- `text[:-1]`
abbrev pub drop_last : String → String
drop_last String.[] = String.[]
drop_last (String.◌∷◌ c String.[]) = String.[]
drop_last (String.◌∷◌ c (String.◌∷◌ d s)) = String.◌∷◌ c (drop_last (String.◌∷◌ d s))

-- `text.endswith("Z")`
abbrev pub ends_with_z : String → Bool
ends_with_z String.[] = false
ends_with_z (String.◌∷◌ c String.[]) = nat_eq (code c) b'Z'
ends_with_z (String.◌∷◌ c (String.◌∷◌ d s)) = ends_with_z (String.◌∷◌ d s)

-- `[A-Za-z0-9]`
abbrev pub is_alnum : ℕ → Bool
is_alnum c = leb b'A' c && leb c b'Z' || leb b'a' c && leb c b'z' || leb b'0' c && leb c b'9'

-- `[A-Za-z0-9._-]`
abbrev pub is_boot_char : ℕ → Bool
is_boot_char c = is_alnum c || nat_eq c b'.' || nat_eq c b'_' || nat_eq c b'-'

-- `[A-Za-z0-9._:/+-]`
abbrev pub is_node_char : ℕ → Bool
is_node_char c = is_boot_char c || nat_eq c b':' || nat_eq c b'/' || nat_eq c b'+'

-- `[0-9a-f]`
abbrev pub is_hex : ℕ → Bool
is_hex c = leb b'0' c && leb c b'9' || leb b'a' c && leb c b'f'

-- `$` stands at the end, and also before a line feed that is the last character.
abbrev pub at_end : List ℕ → Bool
at_end [] = true
at_end (c ∷ []) = nat_eq c 10
at_end (c ∷ d ∷ cs) = false

-- `p{0,n}$`
abbrev pub up_to : (ℕ → Bool) → ℕ → List ℕ → Bool
up_to p zero cs = at_end cs
up_to p (suc n) [] = true
up_to p (suc n) (c ∷ cs) = at_end (c ∷ cs) || p c && up_to p n cs

-- `p{n}$`
abbrev pub exactly : (ℕ → Bool) → ℕ → List ℕ → Bool
exactly p zero cs = at_end cs
exactly p (suc n) [] = false
exactly p (suc n) (c ∷ cs) = p c && exactly p n cs

-- `^[A-Za-z0-9]p{0,n}$`
abbrev pub identifier : (ℕ → Bool) → ℕ → List ℕ → Bool
identifier p n [] = false
identifier p n (c ∷ cs) = is_alnum c && up_to p n cs

-- `_NODE_ID_RE`
unfoldable pub node_id_re : String → Bool
node_id_re s = identifier is_node_char 254 (codes s)

-- `_BOOT_ID_RE`
unfoldable pub boot_id_re : String → Bool
boot_id_re s = identifier is_boot_char 127 (codes s)

abbrev after_prefix : List ℕ → List ℕ → (List ℕ → Bool) → Bool
after_prefix [] cs k = k cs
after_prefix (p ∷ ps) [] k = false
after_prefix (p ∷ ps) (c ∷ cs) k = nat_eq c p && after_prefix ps cs k

-- `_DIGEST_RE`
unfoldable pub digest_re : String → Bool
digest_re s = after_prefix (codes "sha256:") (codes s) (exactly is_hex 64)
