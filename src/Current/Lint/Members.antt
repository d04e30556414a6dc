-- ===== src/Current/Lint/Members.antt =====
-- What stands in a list that loops have built.
use mathlib.Core.Path.{subst}
use mathlib.Core.List.{Memᴰ, flat_map, Permᴰ}
use mathlib.Core.List.Memᴰ
use mcp_heartbeat.Prelude.{
  Bool, List, [], arith, false, if◌then◌else◌, inl, inr, refl, true, ◌↔◌, ◌∙◌, ◌∷◌, ◌≡◌,
}

-- nested loops that append
pub Memᴰ-flat_map {ℓ κ} :
    {A : Type ℓ} {B : Type κ} (f : A → List B) (xs : List A) (b : B)
    → Memᴰ b (flat_map f xs) ↔ ((a : A) × Memᴰ a xs × Memᴰ b (f a))
unfolding flat_map
Memᴰ-flat_map {A = A} {B = B} f xs b = (found f xs b, λ (a, m, n). placed f xs b a m n)
  where
    found :
        (f : A → List B) (xs : List A) (b : B)
        → Memᴰ b (flat_map f xs)
        → (a : A) × Memᴰ a xs × Memᴰ b (f a)
    found f [] b m = absurd (Memᴰ.not-nil m)
    found f (x ∷ xs) b m = elim (Memᴰ.append_cases (f x) m) [
      | inl n ↦ (x, Memᴰ.head refl, n)
      | inr n ↦ let (a, k, n') = found f xs b n in (a, Memᴰ.tail k, n')
    ]

    placed :
        (f : A → List B) (xs : List A) (b : B) (a : A)
        → Memᴰ a xs
        → Memᴰ b (f a)
        → Memᴰ b (flat_map f xs)
    placed f [] b a m n = absurd (Memᴰ.not-nil m)
    placed f (x ∷ xs) b a (Memᴰ.head e) n =
        Memᴰ.append_left (flat_map f xs) (subst (λ c. Memᴰ b (f c)) e n)
    placed f (x ∷ xs) b a (Memᴰ.tail m) n = Memᴰ.append_right (f x) (placed f xs b a m n)

-- what is appended on a condition, or skipped
pub Memᴰ-when {ℓ} :
    {A : Type ℓ} (c : Bool) (xs : List A) (b : A)
    → Memᴰ b (if c then xs else []) ↔ ((c ≡ true) × Memᴰ b xs)
Memᴰ-when true xs b = (λ m. (refl, m), λ h. h.1)
Memᴰ-when false xs b = (λ m. absurd (Memᴰ.not-nil m), λ h. ground (arith, h.0))

pub Memᴰ-unless {ℓ} :
    {A : Type ℓ} (c : Bool) (xs : List A) (b : A)
    → Memᴰ b (if c then [] else xs) ↔ ((c ≡ false) × Memᴰ b xs)
Memᴰ-unless true xs b = (λ m. absurd (Memᴰ.not-nil m), λ h. ground (arith, h.0))
Memᴰ-unless false xs b = (λ m. (refl, m), λ h. h.1)

pub Memᴰ-perm {ℓ} : {A : Type ℓ} {l r : List A} → Permᴰ l r → (a : A) → Memᴰ a l → Memᴰ a r
Memᴰ-perm Permᴰ.nil a m = m
Memᴰ-perm (Permᴰ.cons e d) a (Memᴰ.head h) = Memᴰ.head (h ∙ e)
Memᴰ-perm (Permᴰ.cons e d) a (Memᴰ.tail m) = Memᴰ.tail (Memᴰ-perm d a m)
Memᴰ-perm (Permᴰ.swap e g) a (Memᴰ.head h) = Memᴰ.tail (Memᴰ.head (h ∙ e))
Memᴰ-perm (Permᴰ.swap e g) a (Memᴰ.tail (Memᴰ.head h)) = Memᴰ.head (h ∙ g)
Memᴰ-perm (Permᴰ.swap e g) a (Memᴰ.tail (Memᴰ.tail m)) = Memᴰ.tail (Memᴰ.tail m)
Memᴰ-perm (Permᴰ.trans d e) a m = Memᴰ-perm e a (Memᴰ-perm d a m)
