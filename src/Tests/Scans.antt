-- ===== src/Tests/Scans.antt =====
-- The scan of the adapter, of two small modules.
use mathlib.Core.List.{Memᴰ}
use mcp_heartbeat.Prelude.{List, [], none, refl, some, ◌↔◌, ◌∷◌, ◌≡◌}
use mcp_heartbeat.Current.Lint.{
  LintViolation, Source, constant, constant_expression, declaration_modules, import_from,
  lint_package, scope,
}
use mcp_heartbeat.Tests.Toy.{toy}
use mcp_heartbeat.Tools.Lines.{cut_prefix, partition}
use mcp_heartbeat.Tools.Order.{sort_by, sorted_insert, text_leb}
use mcp_heartbeat.Current.Lint.Findings.{IsForbidden, lint_package-violations}

-- a module with a docstring and a method name of the other era, and the one that declares it
abbrev wire_module : Source
wire_module = record {
  name = "wire.py";
  nodes =
      scope (some (constant_expression 1 (some "no resources/subscribe here")))
      ∷ import_from (some "mcp_types.v2")
      ∷ constant 1 1 (some "no resources/subscribe here")
      ∷ constant 2 12 (some "resources/subscribe")
      ∷ [];
}

abbrev era_module : Source
era_module = record {
  name = "era.py";
  nodes = scope none ∷ constant 1 46 (some "resources/subscribe") ∷ [];
}

abbrev modules : List Source
modules = wire_module ∷ era_module ∷ []

abbrev emitted : LintViolation
emitted = record {
  module_ = "wire.py";
  line = 12;
  primitive = "resources/subscribe";
  literal = "resources/subscribe";
}

package_report : lint_package toy modules ≡ record {
  modules_scanned = "era.py" ∷ "wire.py" ∷ [];
  violations = emitted ∷ [];
  declarations = declaration_modules;
  sdk_importers = "wire.py" ∷ [];
}
unfolding lint_package sort_by sorted_insert text_leb partition cut_prefix
package_report = refl

lint_package-violations_example :
    Memᴰ emitted (lint_package toy modules).violations ↔ IsForbidden toy modules emitted
lint_package-violations_example = lint_package-violations toy modules emitted
