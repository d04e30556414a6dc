-- ===== src/Tools/Dict.antt =====
-- A dict with texts as keys: its items, in insertion order, with distinct keys.
use mathlib.Core.List.{Permᴰ, append-nil, append_assoc}
use mathlib.Core.List.Permᴰ
use mcp_heartbeat.Prelude.{
  Bool, List, Option, [], ap, arith, false, if◌then◌else◌, none, refl, some, sym, true, ◌&&◌, ◌++◌,
  ◌||◌, ◌∙◌, ◌∷◌, ◌≡◌,
}
use mcp_heartbeat.Tools.Order.{
  All, All-perm, Distinct, Distinct-perm, Text, has_key, text_eq, text_eq_refl, text_eq_sym,
  text_eq→≡,
}

and_swap : (a b c : Bool) → (a && (b && c)) ≡ (b && (a && c))
and_swap a b c = ground arith

module _ {ℓ} {V : Type ℓ} where
  abbrev pub item_key : Text × V → Text
  item_key e = e.0

  -- `d[k] = v`
  unfoldable pub set_at : Text → V → List (Text × V) → List (Text × V)
  set_at k v [] = (k, v) ∷ []
  set_at k v ((j, w) ∷ d) = if text_eq j k then (j, v) ∷ d else (j, w) ∷ set_at k v d

  -- `d.get(k)`
  unfoldable pub value_at : Text → List (Text × V) → Option V
  value_at k [] = none
  value_at k ((j, w) ∷ d) = if text_eq j k then some w else value_at k d

  -- the items are set one after another
  unfoldable pub set_all : List (Text × V) → List (Text × V) → List (Text × V)
  unfolding set_at
  set_all [] d = d
  set_all ((k, v) ∷ es) d = set_all es (set_at k v d)

  abbrev pub Holds : List (Text × V) → Text × V → Type ℓ
  Holds d e = value_at e.0 d ≡ some e.1

  set_at-fresh :
      (k : Text) (v : V) (d : List (Text × V))
      → has_key item_key k d ≡ false
      → set_at k v d ≡ d ++ (k, v) ∷ []
  unfolding set_at
  set_at-fresh k v [] n = refl
  set_at-fresh k v ((j, w) ∷ d) n = ground (arith, text_eq_sym j k, set_at-fresh k v d)

  Holds-cons :
      (j : Text) (w : V) (d e : List (Text × V))
      → has_key item_key j e ≡ false
      → All (Holds d) e
      → All (Holds ((j, w) ∷ d)) e
  unfolding value_at
  Holds-cons j w d [] n h = tt
  Holds-cons j w d ((k, v) ∷ e) n h = (ground (arith, h.0), Holds-cons j w d e (ground arith) h.1)

  -- each item of a dict is looked up in it
  pub Holds-self : (d : List (Text × V)) → Distinct item_key d → All (Holds d) d
  unfolding value_at
  Holds-self [] u = tt
  Holds-self ((k, v) ∷ d) u = (rw text_eq_refl refl, Holds-cons k v d d u.0 (Holds-self d u.1))

  abbrev Absent : List (Text × V) → Text × V → Type 0
  Absent d e = has_key item_key e.0 d ≡ false

  has_key-snoc :
      (k j : Text) (v : V) (d : List (Text × V))
      → has_key item_key k (d ++ (j, v) ∷ []) ≡ (has_key item_key k d || text_eq k j)
  has_key-snoc k j v [] = ground arith
  has_key-snoc k j v ((i, w) ∷ d) = ground (arith, has_key-snoc k j v d)

  Absent-snoc :
      (d : List (Text × V)) (k : Text) (v : V) (es : List (Text × V))
      → has_key item_key k es ≡ false
      → All (Absent d) es
      → All (Absent (d ++ (k, v) ∷ [])) es
  Absent-snoc d k v [] n a = tt
  Absent-snoc d k v ((j, w) ∷ es) n a = (
    ground (arith, a.0, has_key-snoc j k v d, text_eq_sym j k),
    Absent-snoc d k v es (ground arith) a.1,
  )

  set_all-Absent :
      (es d : List (Text × V)) → All (Absent d) es → Distinct item_key es → set_all es d ≡ d ++ es
  unfolding set_all
  set_all-Absent [] d a u = sym (append-nil d)
  set_all-Absent ((k, v) ∷ es) d a u =
      ap (set_all es) (set_at-fresh k v d a.0)
      ∙ set_all-Absent es (d ++ (k, v) ∷ []) (Absent-snoc d k v es u.0 a.1) u.1
      ∙ append_assoc d ((k, v) ∷ []) es

  Absent-nil : (es : List (Text × V)) → All (Absent []) es
  Absent-nil [] = tt
  Absent-nil (e ∷ es) = (refl, Absent-nil es)

  -- items with distinct keys make up a dict
  pub set_all-Distinct : (es : List (Text × V)) → Distinct item_key es → set_all es [] ≡ es
  set_all-Distinct es u = set_all-Absent es [] (Absent-nil es) u

  -- what is looked up does not depend on the order of the items
  pub value_at-perm :
      (k : Text) {d e : List (Text × V)}
      → Permᴰ d e
      → Distinct item_key d
      → value_at k d ≡ value_at k e
  unfolding value_at
  value_at-perm k Permᴰ.nil u = refl
  value_at-perm k (Permᴰ.cons {a} {b} {l₁ = l} {l₂ = r} p q) u =
      ap (λ (x : Option V). if text_eq a.0 k then some a.1 else x) (value_at-perm k q u.1)
      ∙ ap (λ (x : Text × V). value_at k (x ∷ r)) p
  value_at-perm k (Permᴰ.swap {a} {b} {a'} {b'} {l} p q) u =
      value_at-swap k a b l u.0
      ∙ ap (λ (x : Text × V). value_at k (b ∷ x ∷ l)) p
      ∙ ap (λ (x : Text × V). value_at k (x ∷ b' ∷ l)) q
    where
      value_at-swap :
          (k : Text) (a b : Text × V) (l : List (Text × V))
          → has_key item_key a.0 (b ∷ l) ≡ false
          → value_at k (a ∷ b ∷ l) ≡ value_at k (b ∷ a ∷ l)
      value_at-swap k a b l n = ground (arith, n, text_eq→≡ a.0 k, text_eq→≡ b.0 k, text_eq_refl k)
  value_at-perm k (Permᴰ.trans p q) u =
      value_at-perm k p u ∙ value_at-perm k q (Distinct-perm item_key p u)

  module _ (same : V → V → Bool) where
    abbrev pub is_value : Option V → V → Bool
    is_value none v = false
    is_value (some w) v = same w v

    -- every item of the first dict is one of the second
    unfoldable pub included : List (Text × V) → List (Text × V) → Bool
    unfolding value_at
    included [] e = true
    included ((k, v) ∷ d) e = is_value (value_at k e) v && included d e

    -- `a == b`
    abbrev pub same_dict : List (Text × V) → List (Text × V) → Bool
    same_dict d e = included d e && included e d

    included_of_Holds :
        ((v : V) → same v v ≡ true)
        → (d e : List (Text × V)) → All (Holds e) d
        → included d e ≡ true
    unfolding included
    included_of_Holds r [] e h = refl
    included_of_Holds r ((k, v) ∷ d) e h = rw (h.0, r v) (included_of_Holds r d e h.1)

    -- a dict is equal to one with the same items in another order
    pub same_dict-perm :
        ((v : V) → same v v ≡ true)
        → {d e : List (Text × V)} → Permᴰ d e
        → Distinct item_key d
        → same_dict d e ≡ true
    same_dict-perm r {d} {e} p u =
        let there =
          included_of_Holds r d e
            (All-perm (Holds e) (Permᴰ.symm p) (Holds-self e (Distinct-perm item_key p u))) in
        let back = included_of_Holds r e d (All-perm (Holds d) p (Holds-self d u)) in
        rw (there, back) refl

    included_left :
        {d d' : List (Text × V)} (e : List (Text × V)) → Permᴰ d d' → included d e ≡ included d' e
    unfolding included
    included_left e Permᴰ.nil = refl
    included_left e (Permᴰ.cons {a} {b} {l₁ = l} {l₂ = r} p q) =
        ap (λ (x : Bool). is_value (value_at a.0 e) a.1 && x) (included_left e q)
        ∙ ap (λ (x : Text × V). included (x ∷ r) e) p
    included_left e (Permᴰ.swap {a} {b} {a'} {b'} {l} p q) =
        and_swap (is_value (value_at a.0 e) a.1) (is_value (value_at b.0 e) b.1) (included l e)
        ∙ ap (λ (x : Text × V). included (b ∷ x ∷ l) e) p
        ∙ ap (λ (x : Text × V). included (x ∷ b' ∷ l) e) q
    included_left e (Permᴰ.trans p q) = included_left e p ∙ included_left e q

    included_right :
        (e : List (Text × V)) {d d' : List (Text × V)}
        → Permᴰ d d'
        → Distinct item_key d
        → included e d ≡ included e d'
    unfolding included
    included_right [] p u = refl
    included_right ((k, v) ∷ e) p u = rw (value_at-perm k p u, included_right e p u) refl

    -- `==` does not depend on the order of the items
    pub same_dict-left :
        (e : List (Text × V)) {d d' : List (Text × V)}
        → Permᴰ d d'
        → Distinct item_key d
        → same_dict d e ≡ same_dict d' e
    same_dict-left e p u = rw (included_left e p, included_right e p u) refl
