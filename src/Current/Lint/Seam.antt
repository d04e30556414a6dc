-- ===== src/Current/Lint/Seam.antt =====
-- Which modules the scan says import the SDK against its rule.
use mathlib.Core.Path.{subst}
use mathlib.Core.List.{Memᴰ, flat_map}
use mathlib.Core.List.Memᴰ
use mathlib.Core.List.Permᴰ
use mcp_heartbeat.Prelude.{List, String, [], contains, false, refl, same, sym, true, ◌↔◌, ◌∷◌, ◌≡◌}
use mcp_heartbeat.Platform.{Platform}
use mcp_heartbeat.Text.{codes}
use mcp_heartbeat.Current.Lint.{
  Source, foreign_in, importer_in, imports_sdk, lint_package, sdk_modules, source_key,
  unexpected_sdk_importers,
}
use mcp_heartbeat.Legacy.Identity.{named}
use mcp_heartbeat.Tools.Order.{perm-sort_by, sort_by}
use mcp_heartbeat.Current.Lint.Members.{Memᴰ-flat_map, Memᴰ-perm, Memᴰ-unless, Memᴰ-when}

-- A module of the package, under this name, has an import of the SDK and is not the one that may.
pub record IsForeign (files : List Source) (name : String) : Type 0 where
  pub source : Source
  pub listed : Memᴰ source files
  pub importing : imports_sdk source.nodes ≡ true
  pub named : name ≡ source.name
  pub refused : contains name sdk_modules ≡ false

module _ (p : Platform) (files : List Source) (name : String) where
  abbrev importers : List String
  importers = flat_map importer_in (sort_by source_key files)

  importer-Source :
      Memᴰ name (sort_by codes importers)
      ↔ ((f : Source) × Memᴰ f files × (imports_sdk f.nodes ≡ true) × (name ≡ f.name))
  importer-Source =
      let order = perm-sort_by source_key files in
      let through = Memᴰ-flat_map importer_in (sort_by source_key files) name in
      (
        λ m.
            let (f, k, one) =
              through.0 (Memᴰ-perm (Permᴰ.symm (perm-sort_by codes importers)) name m) in
            let (e, same) = (Memᴰ-when (imports_sdk f.nodes) (f.name ∷ []) name).0 one in
            (f, Memᴰ-perm (Permᴰ.symm order) f k, e, Memᴰ.eq_of_singleton same),
        λ (f, k, e, q). Memᴰ-perm (perm-sort_by codes importers) name (
            through.1 (
              f,
              Memᴰ-perm order f k,
              (Memᴰ-when (imports_sdk f.nodes) (f.name ∷ []) name).1 (e, Memᴰ.head q),
            )),
      )

  unexpected_sdk_importers-IsForeign :
      Memᴰ name (unexpected_sdk_importers (lint_package p files)) ↔ IsForeign files name
  unfolding unexpected_sdk_importers lint_package
  unexpected_sdk_importers-IsForeign =
      let through = Memᴰ-flat_map foreign_in (sort_by codes importers) name in
      (
        λ m.
            let (n, k, one) = through.0 m in
            let (out, same) = (Memᴰ-unless (contains n sdk_modules) (n ∷ []) name).0 one in
            let e = Memᴰ.eq_of_singleton same in
            let (f, listed, importing, named) = importer-Source.0 (Memᴰ.cast e k) in
            record {
              source = f;
              listed = listed;
              importing = importing;
              named = named;
              refused = subst (λ (x : String). contains x sdk_modules ≡ false) (sym e) out;
            },
        λ h. through.1 (
          name,
          importer-Source.1 (h.source, h.listed, h.importing, h.named),
          (Memᴰ-unless (contains name sdk_modules) (name ∷ []) name).1 (h.refused, Memᴰ.head refl),
        ),
      )
