-- ===== src/Tools/Order.antt =====
-- Texts as code points, in Python's order, and `sorted` by a key that is a text.
use mathlib.Core.List.{Permᴰ}
use mathlib.Core.List.Permᴰ
use mathlib.Core.Path.{subst}
use mcp_heartbeat.Prelude.{
  Bool, Bool-cases, List, [], ap, arith, false, if◌then◌else◌, inl, inr, ltb, map, nat_eq, refl,
  sym, true, ℕ, ◌&&◌, ◌||◌, ◌∙◌, ◌∷◌, ◌≡◌,
}

abbrev pub Text : Type 0
Text = List ℕ

-- `a == b`
unfoldable pub text_eq : Text → Text → Bool
text_eq [] [] = true
text_eq [] (d ∷ t) = false
text_eq (c ∷ s) [] = false
text_eq (c ∷ s) (d ∷ t) = nat_eq c d && text_eq s t

-- `a <= b`
unfoldable pub text_leb : Text → Text → Bool
text_leb [] t = true
text_leb (c ∷ s) [] = false
text_leb (c ∷ s) (d ∷ t) = ltb c d || nat_eq c d && text_leb s t

pub text_eq→≡ : (s t : Text) → text_eq s t ≡ true → s ≡ t
unfolding text_eq
text_eq→≡ [] [] h = refl
text_eq→≡ [] (d ∷ t) h = ground arith
text_eq→≡ (c ∷ s) [] h = ground arith
text_eq→≡ (c ∷ s) (d ∷ t) h = ground (arith, text_eq→≡ s t)

pub text_eq_refl : (s : Text) → text_eq s s ≡ true
unfolding text_eq
text_eq_refl [] = refl
text_eq_refl (c ∷ s) = ground (arith, text_eq_refl s)

pub text_eq_sym : (s t : Text) → text_eq s t ≡ true → text_eq t s ≡ true
text_eq_sym s t h = rw (text_eq→≡ s t h) (text_eq_refl t)

pub text_leb_antisym : (s t : Text) → text_leb s t ≡ true → text_leb t s ≡ true → s ≡ t
unfolding text_leb
text_leb_antisym [] [] h g = refl
text_leb_antisym [] (d ∷ t) h g = ground arith
text_leb_antisym (c ∷ s) [] h g = ground arith
text_leb_antisym (c ∷ s) (d ∷ t) h g = ground (arith, text_leb_antisym s t)

pub text_leb_total : (s t : Text) → text_leb s t ≡ false → text_leb t s ≡ true
unfolding text_leb
text_leb_total [] t h = ground arith
text_leb_total (c ∷ s) [] h = refl
text_leb_total (c ∷ s) (d ∷ t) h = ground (arith, text_leb_total s t)

pub text_leb_trans :
    (r s t : Text) → text_leb r s ≡ true → text_leb s t ≡ true → text_leb r t ≡ true
unfolding text_leb
text_leb_trans [] s t h g = refl
text_leb_trans (b ∷ r) [] t h g = ground arith
text_leb_trans (b ∷ r) (c ∷ s) [] h g = ground arith
text_leb_trans (b ∷ r) (c ∷ s) (d ∷ t) h g = ground (arith, text_leb_trans r s t)

-- `sorted(xs, key=…)`, which is stable
module _ {ℓ} {A : Type ℓ} (key : A → Text) where
  unfoldable pub sorted_insert : A → List A → List A
  sorted_insert x [] = x ∷ []
  sorted_insert x (y ∷ ys) = if text_leb (key x) (key y) then x ∷ y ∷ ys else y ∷ sorted_insert x ys

  unfoldable pub sort_by : List A → List A
  unfolding sorted_insert
  sort_by [] = []
  sort_by (x ∷ xs) = sorted_insert x (sort_by xs)

  -- `key(x)` is among the keys of a list
  abbrev pub has_key : Text → List A → Bool
  has_key k [] = false
  has_key k (x ∷ xs) = text_eq k (key x) || has_key k xs

  -- no two elements have one key
  abbrev pub Distinct : List A → Type 0
  Distinct [] = Unit
  Distinct (x ∷ xs) = (has_key (key x) xs ≡ false) × Distinct xs

  sorted_insert_comm :
      (x y : A) (l : List A)
      → text_eq (key x) (key y) ≡ false
      → sorted_insert x (sorted_insert y l) ≡ sorted_insert y (sorted_insert x l)
  unfolding sorted_insert
  sorted_insert_comm x y [] n = ground (
    arith,
    text_leb_total (key x) (key y),
    text_leb_antisym (key x) (key y),
    text_eq_refl (key x),
  )
  sorted_insert_comm x y (z ∷ l) n = ground (
    arith,
    text_leb_total (key x) (key y),
    text_leb_antisym (key x) (key y),
    text_eq_refl (key x),
    text_leb_total (key x) (key z),
    text_leb_total (key y) (key z),
    text_leb_trans (key x) (key y) (key z),
    text_leb_trans (key y) (key x) (key z),
    sorted_insert_comm x y l,
  )

  has_key-perm : (k : Text) {l r : List A} → Permᴰ l r → has_key k l ≡ has_key k r
  has_key-perm k Permᴰ.nil = refl
  has_key-perm k (Permᴰ.cons e d) = cc (has_key-perm k d, e)
  has_key-perm k (Permᴰ.swap e f) = ground (arith, e, f)
  has_key-perm k (Permᴰ.trans d e) = has_key-perm k d ∙ has_key-perm k e

  pub Distinct-perm : {l r : List A} → Permᴰ l r → Distinct l → Distinct r
  Distinct-perm Permᴰ.nil u = u
  Distinct-perm (Permᴰ.cons {a} {b} {l₁ = l} {l₂ = r} e d) (n, u) = (
    sym (ap (λ (x : A). has_key (key x) r) e) ∙ sym (has_key-perm (key a) d) ∙ n,
    Distinct-perm d u,
  )
  Distinct-perm (Permᴰ.swap {a} {b} {a'} {b'} {l} e f) (n, (m, u)) =
      let swapped : Distinct (b ∷ a ∷ l) =
        (ground (arith, n, m, text_eq_sym (key b) (key a)), (ground (arith, n), u)) in
      subst (λ (x : A). Distinct (x ∷ b' ∷ l)) f (subst (λ (y : A). Distinct (b ∷ y ∷ l)) e swapped)
  Distinct-perm (Permᴰ.trans d e) u = Distinct-perm e (Distinct-perm d u)

  -- sorting forgets the order, where the keys are distinct
  pub sort_by-perm : {l r : List A} → Permᴰ l r → Distinct l → sort_by l ≡ sort_by r
  unfolding sort_by
  sort_by-perm Permᴰ.nil u = refl
  sort_by-perm (Permᴰ.cons e d) (n, u) = cc (sort_by-perm d u, e)
  sort_by-perm (Permᴰ.swap {a} {b} {a'} {b'} {l} e f) (n, u) =
      sorted_insert_comm a b (sort_by l) (ground arith)
      ∙ ap (λ (x : A). sorted_insert b (sorted_insert x (sort_by l))) e
      ∙ ap (λ (y : A). sorted_insert y (sorted_insert b' (sort_by l))) f
  sort_by-perm (Permᴰ.trans d e) u = sort_by-perm d u ∙ sort_by-perm e (Distinct-perm d u)

  sorted_insert-perm : (x : A) (l : List A) → Permᴰ (x ∷ l) (sorted_insert x l)
  unfolding sorted_insert
  sorted_insert-perm x [] = Permᴰ.cons refl Permᴰ.nil
  sorted_insert-perm x (y ∷ ys) = elim (Bool-cases (text_leb (key x) (key y))) [
    | inl h ↦ rw h (Permᴰ.refl (x ∷ y ∷ ys))
    | inr h ↦ rw h (Permᴰ.trans (Permᴰ.swap refl refl) (Permᴰ.cons refl (sorted_insert-perm x ys)))
  ]

  pub perm-sort_by : (l : List A) → Permᴰ l (sort_by l)
  unfolding sort_by
  perm-sort_by [] = Permᴰ.nil
  perm-sort_by (x ∷ xs) =
      Permᴰ.trans (Permᴰ.cons refl (perm-sort_by xs)) (sorted_insert-perm x (sort_by xs))

-- a projection that keeps the key goes through the sort
module _ {ℓ κ} {A : Type ℓ} {B : Type κ} (key : A → Text) (key' : B → Text) (f : A → B) where
  map-sorted_insert :
      ((x : A) → key' (f x) ≡ key x)
      → (x : A) (l : List A) → map f (sorted_insert key x l) ≡ sorted_insert key' (f x) (map f l)
  unfolding sorted_insert
  map-sorted_insert k x [] = refl
  map-sorted_insert k x (y ∷ ys) = rw (k x, k y) (ground (arith, map-sorted_insert k x ys))

  pub map-sort_by :
      ((x : A) → key' (f x) ≡ key x) → (l : List A) → map f (sort_by key l) ≡ sort_by key' (map f l)
  unfolding sort_by
  map-sort_by k [] = refl
  map-sort_by k (x ∷ xs) =
      map-sorted_insert k x (sort_by key xs) ∙ ap (sorted_insert key' (f x)) (map-sort_by k xs)

-- every element satisfies a predicate
abbrev pub All {ℓ κ} : {A : Type ℓ} → (A → Type κ) → List A → Type κ
All P [] = Unit
All P (x ∷ xs) = P x × All P xs

pub All-perm {ℓ κ} : {A : Type ℓ} (P : A → Type κ) {l r : List A} → Permᴰ l r → All P l → All P r
All-perm P Permᴰ.nil h = h
All-perm P (Permᴰ.cons e d) h = (subst P e h.0, All-perm P d h.1)
All-perm P (Permᴰ.swap e f) h = (subst P f h.1.0, (subst P e h.0, h.1.1))
All-perm P (Permᴰ.trans d e) h = All-perm P e (All-perm P d h)

pub map-perm {ℓ κ} :
    {A : Type ℓ} {B : Type κ} (f : A → B) {l r : List A} → Permᴰ l r → Permᴰ (map f l) (map f r)
map-perm f Permᴰ.nil = Permᴰ.nil
map-perm f (Permᴰ.cons e d) = Permᴰ.cons (ap f e) (map-perm f d)
map-perm f (Permᴰ.swap e g) = Permᴰ.swap (ap f e) (ap f g)
map-perm f (Permᴰ.trans d e) = Permᴰ.trans (map-perm f d) (map-perm f e)

pub has_key-map {ℓ κ} :
    {A : Type ℓ} {B : Type κ} (key : A → Text) (key' : B → Text) (f : A → B)
    → ((x : A) → key' (f x) ≡ key x)
    → (k : Text) (l : List A) → has_key key' k (map f l) ≡ has_key key k l
has_key-map key key' f e k [] = refl
has_key-map key key' f e k (x ∷ xs) = rw (e x, has_key-map key key' f e k xs) refl

pub Distinct-map {ℓ κ} :
    {A : Type ℓ} {B : Type κ} (key : A → Text) (key' : B → Text) (f : A → B)
    → ((x : A) → key' (f x) ≡ key x)
    → (l : List A) → Distinct key l
    → Distinct key' (map f l)
Distinct-map key key' f k [] u = tt
Distinct-map key key' f k (x ∷ xs) u =
    (rw (k x) (has_key-map key key' f k (key x) xs ∙ u.0), Distinct-map key key' f k xs u.1)

pub Distinct-of_map {ℓ κ} :
    {A : Type ℓ} {B : Type κ} (key : A → Text) (key' : B → Text) (f : A → B)
    → ((x : A) → key' (f x) ≡ key x)
    → (l : List A) → Distinct key' (map f l)
    → Distinct key l
Distinct-of_map key key' f k [] u = tt
Distinct-of_map key key' f k (x ∷ xs) u = (
  sym (has_key-map key key' f k (key x) xs)
      ∙ sym (ap (λ (j : Text). has_key key' j (map f xs)) (k x))
      ∙ u.0,
  Distinct-of_map key key' f k xs u.1,
)

pub All-map {ℓ κ μ} :
    {A : Type ℓ} {B : Type κ} (P : B → Type μ) (f : A → B) (l : List A)
    → All (λ (x : A). P (f x)) l
    → All P (map f l)
All-map P f [] h = tt
All-map P f (x ∷ xs) h = (h.0, All-map P f xs h.1)

pub All-of_map {ℓ κ μ} :
    {A : Type ℓ} {B : Type κ} (P : B → Type μ) (f : A → B) (l : List A)
    → All P (map f l)
    → All (λ (x : A). P (f x)) l
All-of_map P f [] h = tt
All-of_map P f (x ∷ xs) h = (h.0, All-of_map P f xs h.1)
