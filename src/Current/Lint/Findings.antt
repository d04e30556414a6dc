-- ===== src/Current/Lint/Findings.antt =====
-- What the scan reports.
use mathlib.Core.List.{Memᴰ, flat_map}
use mathlib.Core.List.Memᴰ
use mathlib.Core.List.Permᴰ
use mathlib.Core.Path.{subst}
use mcp_heartbeat.Prelude.{
  Bool-cases, List, String, [], ap, arith, contains, false, inl, inr, nat_eq, none, refl, same,
  some, sym, true, ℕ, ◌↔◌, ◌∷◌, ◌≡◌,
}
use mcp_heartbeat.Platform.{Platform}
use mcp_heartbeat.Text.{codes}
use mcp_heartbeat.Conformance.Release.{sorted}
use mcp_heartbeat.Current.Identity.{judged}
use mcp_heartbeat.Current.Lint.{
  LintViolation, Node, Source, constant, constant_expression, constant_in, declaration_modules,
  docstring_in, docstring_nodes, forbidden_literals, has_ref, import_from, import_names,
  judge_constant, judge_literal, judge_source, lint_package, other_node, other_statement, scope,
  source_key, string_constants,
}
use mcp_heartbeat.Tools.Lines.{occurs}
use mcp_heartbeat.Tools.Order.{perm-sort_by, sort_by}
use mcp_heartbeat.Current.Lint.Literals.{Forbids, Forbids-of_Memᴰ, Memᴰ-of_Forbids}
use mcp_heartbeat.Current.Lint.Members.{Memᴰ-flat_map, Memᴰ-perm, Memᴰ-unless, Memᴰ-when}
use mcp_heartbeat.Tools.Archive.Reproducible.{written}

-- A constant is the docstring of a module, class or function.
abbrev pub IsDocstring : List Node → ℕ → Type 0
IsDocstring nodes ref =
    (value : String) × Memᴰ (scope (some (constant_expression ref (some value)))) nodes

-- A module that is no declaration module has a constant, no docstring, whose lowered text has a
-- forbidden literal in it.
pub record IsForbidden (p : Platform) (files : List Source) (v : LintViolation) : Type 0 where
  pub source : Source
  pub listed : Memᴰ source files
  pub named : source.name ≡ v.module_
  pub judged : contains source.name declaration_modules ≡ false
  pub ref : ℕ
  pub written : Memᴰ (constant ref v.line (some v.literal)) source.nodes
  pub executable : ¬ IsDocstring source.nodes ref
  pub fragment : String
  pub forbidden : Forbids fragment v.primitive
  pub inside : occurs (codes fragment) (codes (p.lower v.literal)) ≡ true

has_ref_iff : (ref : ℕ) (refs : List ℕ) → (has_ref ref refs ≡ true) ↔ Memᴰ ref refs
has_ref_iff ref [] = (λ e. ground (arith, e), λ m. absurd (Memᴰ.not-nil m))
has_ref_iff ref (r ∷ rs) = (
  λ e. elim (Bool-cases (nat_eq ref r)) [
    | inl q ↦ Memᴰ.head (ground (arith, q))
    | inr q ↦ Memᴰ.tail ((has_ref_iff ref rs).0 (ground (arith, e, q)))
  ],
  λ m. elim (Memᴰ.cases_cons m) [
    | inl q ↦ ground (arith, q)
    | inr n ↦ ground (arith, (has_ref_iff ref rs).1 n)
  ],
)

docstring_in-Memᴰ :
    (n : Node) (ref : ℕ)
    → Memᴰ ref (docstring_in n)
      ↔ ((value : String) × (scope (some (constant_expression ref (some value))) ≡ n))
docstring_in-Memᴰ n ref =
    (found n, λ (value, e). subst (λ m. Memᴰ ref (docstring_in m)) e (Memᴰ.head refl))
  where
    Docstring : Node → Type 0
    Docstring n = (value : String) × (scope (some (constant_expression ref (some value))) ≡ n)

    found : (n : Node) → Memᴰ ref (docstring_in n) → Docstring n
    found (scope (some (constant_expression r (some value)))) m = (
      value,
      ap (λ (k : ℕ). scope (some (constant_expression k (some value)))) (Memᴰ.eq_of_singleton m),
    )
    found (scope (some (constant_expression r none))) m = absurd (Memᴰ.not-nil m)
    found (scope (some other_statement)) m = absurd (Memᴰ.not-nil m)
    found (scope none) m = absurd (Memᴰ.not-nil m)
    found (constant r line value) m = absurd (Memᴰ.not-nil m)
    found (import_names names) m = absurd (Memᴰ.not-nil m)
    found (import_from name) m = absurd (Memᴰ.not-nil m)
    found other_node m = absurd (Memᴰ.not-nil m)

docstring_nodes-IsDocstring :
    (nodes : List Node) (ref : ℕ)
    → (has_ref ref (docstring_nodes nodes) ≡ true) ↔ IsDocstring nodes ref
unfolding docstring_nodes
docstring_nodes-IsDocstring nodes ref =
    let through = Memᴰ-flat_map docstring_in nodes ref in
    let tested = has_ref_iff ref (flat_map docstring_in nodes) in
    (
      λ e.
          let (n, listed, m) = through.0 (tested.0 e) in
          let (value, q) = (docstring_in-Memᴰ n ref).0 m in (value, Memᴰ.cast q listed),
      λ (value, m).
          tested.1
            (through.1 (scope (some (constant_expression ref (some value))), m, Memᴰ.head refl)),
    )

executable_iff :
    (nodes : List Node) (ref : ℕ)
    → (has_ref ref (docstring_nodes nodes) ≡ false) ↔ (¬ IsDocstring nodes ref)
executable_iff nodes ref = (
  λ e d. ground (arith, e, (docstring_nodes-IsDocstring nodes ref).1 d),
  λ n. elim (Bool-cases (has_ref ref (docstring_nodes nodes))) [
    | inl t ↦ absurd (n ((docstring_nodes-IsDocstring nodes ref).0 t))
    | inr e ↦ e
  ],
)

constant_in-Memᴰ :
    (skip : List ℕ) (n : Node) (line : ℕ) (value : String)
    → Memᴰ (line, value) (constant_in skip n)
    → (ref : ℕ) × (constant ref line (some value) ≡ n) × (has_ref ref skip ≡ false)
constant_in-Memᴰ skip (constant ref l (some t)) line value m =
    let (kept, one) = (Memᴰ-unless (has_ref ref skip) ((l, t) ∷ []) (line, value)).0 m in
    let e = Memᴰ.eq_of_singleton one in
    (ref, ap (λ (c : ℕ × String). constant ref c.0 (some c.1)) e, kept)
constant_in-Memᴰ skip (constant ref l none) line value m = absurd (Memᴰ.not-nil m)
constant_in-Memᴰ skip (scope body) line value m = absurd (Memᴰ.not-nil m)
constant_in-Memᴰ skip (import_names names) line value m = absurd (Memᴰ.not-nil m)
constant_in-Memᴰ skip (import_from name) line value m = absurd (Memᴰ.not-nil m)
constant_in-Memᴰ skip other_node line value m = absurd (Memᴰ.not-nil m)

string_constants-Memᴰ :
    (nodes : List Node) (line : ℕ) (value : String)
    → Memᴰ (line, value) (string_constants nodes)
      ↔ ((ref : ℕ) × Memᴰ (constant ref line (some value)) nodes × (¬ IsDocstring nodes ref))
unfolding string_constants docstring_nodes
string_constants-Memᴰ nodes line value =
    let skip = docstring_nodes nodes in
    let through = Memᴰ-flat_map (constant_in skip) nodes (line, value) in
    (
      λ m.
          let (n, listed, k) = through.0 m in
          let (ref, q, kept) = constant_in-Memᴰ skip n line value k in
          (ref, Memᴰ.cast q listed, (executable_iff nodes ref).0 kept),
      λ (ref, listed, n). through.1 (
        constant ref line (some value),
        listed,
        (Memᴰ-unless (has_ref ref skip) ((line, value) ∷ []) (line, value)).1
            ((executable_iff nodes ref).1 n, Memᴰ.head refl),
      ),
    )

abbrev reported_as : Source → ℕ × String → String × String → LintViolation
reported_as f c l = record { module_ = f.name; line = c.0; primitive = l.1; literal = c.1 }

module _ (p : Platform) where
  -- A violation is reported by `lint_package` exactly if some module of the package, under
  -- the name it reports and not one of the declaration modules, has a constant with its line
  -- and its text, which is not the docstring of a module, class or function, and the lowered
  -- text has in it one of seven literals, each written out, that belongs to the primitive it
  -- reports.
  pub lint_package-violations :
      (files : List Source) (v : LintViolation)
      → Memᴰ v (lint_package p files).violations ↔ IsForbidden p files v
  unfolding lint_package
  lint_package-violations files v = (found, reported)
    where
      found : Memᴰ v (lint_package p files).violations → IsForbidden p files v
      found m =
          let (f, sorted, k) = (Memᴰ-flat_map (judge_source p) (sort_by source_key files) v).0 m in
          let (judged, k') =
            (Memᴰ-unless (contains f.name declaration_modules)
                (flat_map (judge_constant p f.name) (string_constants f.nodes)) v).0
              k in
          let (c, written, k'') =
            (Memᴰ-flat_map (judge_constant p f.name) (string_constants f.nodes) v).0 k' in
          let (l, forbidden, one) =
            (Memᴰ-flat_map (judge_literal p f.name c) forbidden_literals v).0 k'' in
          let (inside, same) =
            (Memᴰ-when (occurs (codes l.0) (codes (p.lower c.1))) (reported_as f c l ∷ []) v).0
              one in
          let (ref, node, executable) = (string_constants-Memᴰ f.nodes c.0 c.1).0 written in
          subst (IsForbidden p files) (sym (Memᴰ.eq_of_singleton same)) (record {
            source = f;
            listed = Memᴰ-perm (Permᴰ.symm (perm-sort_by source_key files)) f sorted;
            named = refl;
            judged = judged;
            ref = ref;
            written = node;
            executable = executable;
            fragment = l.0;
            forbidden = Forbids-of_Memᴰ l forbidden;
            inside = inside;
          })

      reported : IsForbidden p files v → Memᴰ v (lint_package p files).violations
      reported h =
          let f = h.source in
          let c : ℕ × String = (v.line, v.literal) in
          let l : String × String = (h.fragment, v.primitive) in
          let same : v ≡ reported_as f c l = λ i. record {
            module_ = sym h.named i;
            line = v.line;
            primitive = v.primitive;
            literal = v.literal;
          } in
          (Memᴰ-flat_map (judge_source p) (sort_by source_key files) v).1 (
            f,
            Memᴰ-perm (perm-sort_by source_key files) f h.listed,
            (Memᴰ-unless (contains f.name declaration_modules)
                  (flat_map (judge_constant p f.name) (string_constants f.nodes)) v).1
                (
                  h.judged,
                  (Memᴰ-flat_map (judge_constant p f.name) (string_constants f.nodes) v).1 (
                    c,
                    (string_constants-Memᴰ f.nodes v.line v.literal).1
                        (h.ref, h.written, h.executable),
                    (Memᴰ-flat_map (judge_literal p f.name c) forbidden_literals v).1 (
                      l,
                      Memᴰ-of_Forbids h.fragment v.primitive h.forbidden,
                      (Memᴰ-when (occurs (codes h.fragment) (codes (p.lower v.literal)))
                            (reported_as f c l ∷ []) v).1
                          (h.inside, Memᴰ.head same),
                    ),
                  ),
                ),
          )
