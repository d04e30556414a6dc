-- ===== src/Current/Lint.antt =====
-- lint.py: the scan of the adapter for primitives that its era forbids.
-- What `ast.parse` makes of a module is a parameter: the nodes that `ast.walk` visits, in order.
pub mod Members
pub mod Literals
pub mod Findings
pub mod Seam
use mathlib.Core.List.{flat_map}
use mcp_heartbeat.Prelude.{
  Bool, List, Option, String, [], contains, false, if◌then◌else◌, map, nat_eq, none, some, true, ℕ,
  ◌==◌, ◌||◌, ◌∷◌,
}
use mcp_heartbeat.Platform.{Platform}
use mcp_heartbeat.Text.{codes}
use mcp_heartbeat.Tools.Lines.{cut_prefix, occurs}
use mcp_heartbeat.Tools.Order.{Text, sort_by}

-- `FORBIDDEN_LITERALS`
abbrev pub forbidden_literals : List (String × String)
forbidden_literals =
    ("initialize", "initialize")
    ∷ ("notifications/initialized", "notifications/initialized")
    ∷ ("mcp-session-id", "Mcp-Session-Id")
    ∷ ("last-event-id", "Last-Event-ID")
    ∷ ("resources/subscribe", "resources/subscribe")
    ∷ ("text/event-stream", "GET <mcp endpoint> -> text/event-stream")
    ∷ ("experimental.presencelease", "experimental.presenceLease")
    ∷ []

-- `sorted(DECLARATION_MODULES)` and `SDK_MODULES`
abbrev pub declaration_modules : List String
declaration_modules = "contract.py" ∷ "era.py" ∷ "lint.py" ∷ []

abbrev pub sdk_modules : List String
sdk_modules = "sdk.py" ∷ []

-- The first statement of a body. A constant has the `id` of its node, and its text if it is one.
pub data Statement : Type 0 where
  constant_expression : ℕ → Option String → Statement
  other_statement : Statement

-- A node: a module, class or function with the first statement of its body, a constant with its
-- `id`, line and text, `import names`, `from module import`, or another one.
pub data Node : Type 0 where
  scope : Option Statement → Node
  constant : ℕ → ℕ → Option String → Node
  import_names : List String → Node
  import_from : Option String → Node
  other_node : Node

-- A module of the package: its name and its nodes.
pub record Source : Type 0 where
  pub name : String
  pub nodes : List Node

pub record LintViolation : Type 0 where
  pub module_ : String
  pub line : ℕ
  pub primitive : String
  pub literal : String

pub record LintReport : Type 0 where
  pub modules_scanned : List String
  pub violations : List LintViolation
  pub declarations : List String
  pub sdk_importers : List String

-- `LintReport.clean`
abbrev pub no_violations : List LintViolation → Bool
no_violations [] = true
no_violations (v ∷ vs) = false

abbrev pub clean : LintReport → Bool
clean r = no_violations r.violations

abbrev pub docstring_in : Node → List ℕ
docstring_in (scope (some (constant_expression ref (some value)))) = ref ∷ []
docstring_in _ = []

-- `_docstring_nodes`
unfoldable pub docstring_nodes : List Node → List ℕ
unfolding flat_map
docstring_nodes nodes = flat_map docstring_in nodes

abbrev pub has_ref : ℕ → List ℕ → Bool
has_ref ref [] = false
has_ref ref (r ∷ rs) = nat_eq ref r || has_ref ref rs

abbrev pub constant_in : List ℕ → Node → List (ℕ × String)
constant_in skip (constant ref line (some value)) =
    if has_ref ref skip then [] else (line, value) ∷ []
constant_in skip _ = []

-- `_string_constants`
unfoldable pub string_constants : List Node → List (ℕ × String)
unfolding docstring_nodes flat_map
string_constants nodes = flat_map (constant_in (docstring_nodes nodes)) nodes

-- `text.startswith(prefix)`
abbrev pub starts_with : String → String → Bool
starts_with prefix value = elim (cut_prefix (codes prefix) (codes value)) [
  | none ↦ false
  | some rest ↦ true
]

-- `any(name == "mcp" or name.startswith("mcp.") for name in …)`
abbrev pub any_sdk_name : List String → Bool
any_sdk_name [] = false
any_sdk_name (name ∷ names) = name == "mcp" || starts_with "mcp." name || any_sdk_name names

abbrev pub imports_sdk_in : Node → Bool
imports_sdk_in (import_names names) = any_sdk_name names
imports_sdk_in (import_from (some name)) =
    name == "mcp" || starts_with "mcp." name || starts_with "mcp_types" name
imports_sdk_in _ = false

-- `_imports_sdk`
unfoldable pub imports_sdk : List Node → Bool
imports_sdk [] = false
imports_sdk (n ∷ ns) = imports_sdk_in n || imports_sdk ns

abbrev pub source_key : Source → Text
source_key f = codes f.name

abbrev pub source_name : Source → String
source_name f = f.name

abbrev pub importer_in : Source → List String
importer_in f = if imports_sdk f.nodes then f.name ∷ [] else []

module _ (p : Platform) where
  -- the innermost loop, over a literal that may stand in a lowered text
  abbrev pub judge_literal : String → ℕ × String → String × String → List LintViolation
  judge_literal name (line, value) (fragment, primitive) =
      if occurs (codes fragment) (codes (p.lower value))
      then (record { module_ = name; line = line; primitive = primitive; literal = value }) ∷ []
      else []

  abbrev pub judge_constant : String → ℕ × String → List LintViolation
  judge_constant name c = flat_map (judge_literal name c) forbidden_literals

  abbrev pub judge_source : Source → List LintViolation
  judge_source f =
      if contains f.name declaration_modules
      then []
      else flat_map (judge_constant f.name) (string_constants f.nodes)

  -- `lint_package`, of the modules that the directory holds, in any order
  unfoldable pub lint_package : List Source → LintReport
  unfolding string_constants imports_sdk flat_map
  lint_package files =
      let modules = sort_by source_key files in
      record {
        modules_scanned = map source_name modules;
        violations = flat_map judge_source modules;
        declarations = declaration_modules;
        sdk_importers = sort_by codes (flat_map importer_in modules);
      }

-- `unexpected_sdk_importers`
abbrev pub foreign_in : String → List String
foreign_in m = if contains m sdk_modules then [] else m ∷ []

unfoldable pub unexpected_sdk_importers : LintReport → List String
unfolding flat_map
unexpected_sdk_importers report = flat_map foreign_in report.sdk_importers
