-- ===== src/Conformance/Attestation/Tree.antt =====
-- Two trees with one digest are one tree, or show a collision of the hash.
use mathlib.Core.List.{append_assoc}
use mcp_heartbeat.Prelude.{
  Bool, Bool-cases, List, [], ap, arith, false, inl, inr, nat_eq, refl, same, sym, ℕ, ◌++◌, ◌||◌,
  ◌∙◌, ◌∷◌, ◌≡◌, ◌⊎◌,
}
use mcp_heartbeat.Tools.Order.{Text, text_eq, text_eq→≡}
use mcp_heartbeat.Conformance.Attestation.Digest.{
  AttestedFile, Sha256, adapter_digest, attested_stream,
}

abbrev pub has_code_in : ℕ → Text → Bool
has_code_in d [] = false
has_code_in d (c ∷ s) = nat_eq c d || has_code_in d s

-- a hexadecimal digest has neither of the separators
abbrev pub IsHexLike : (List ℕ → Text) → Type 0
IsHexLike f = (b : List ℕ) → (has_code_in b':' (f b) ≡ false) × (has_code_in 10 (f b) ≡ false)

abbrev pub OnOneLine : List AttestedFile → Type 0
OnOneLine [] = Unit
OnOneLine (f ∷ fs) = (has_code_in 10 f.relative ≡ false) × OnOneLine fs

-- two inputs of a function that have one value
abbrev pub Collides : (List ℕ → Text) → Type 0
Collides f = (a : List ℕ) × (b : List ℕ) × (text_eq a b ≡ false) × (f a ≡ f b)

-- the text up to the first separator, and what follows it
first_split :
    (d : ℕ) (s s' t t' : Text)
    → has_code_in d s ≡ false
    → has_code_in d s' ≡ false
    → (s ++ d ∷ t) ≡ (s' ++ d ∷ t')
    → (s ≡ s') × (t ≡ t')
first_split d [] [] t t' n n' e = ground arith
first_split d [] (c ∷ s') t t' n n' e = ground arith
first_split d (c ∷ s) [] t t' n n' e = ground arith
first_split d (c ∷ s) (c' ∷ s') t t' n n' e = ground (arith, first_split d s s' t t')

holds_separator :
    (d : ℕ) (s t t' : Text) → has_code_in d t ≡ false → ◌≡◌ {A = Text} t (s ++ d ∷ t') → ⊥
holds_separator d [] [] t' n e = ground arith
holds_separator d [] (b ∷ t) t' n e = ground arith
holds_separator d (c ∷ s) [] t' n e = ground arith
holds_separator d (c ∷ s) (b ∷ t) t' n e = holds_separator d s t t' (ground arith) (ground arith)

-- the text up to the last separator, and what follows it
last_split :
    (d : ℕ) (s s' t t' : Text)
    → has_code_in d t ≡ false
    → has_code_in d t' ≡ false
    → (s ++ d ∷ t) ≡ (s' ++ d ∷ t')
    → (s ≡ s') × (t ≡ t')
last_split d [] [] t t' n n' e = ground arith
last_split d [] (c ∷ s') t t' n n' e = absurd (holds_separator d s' t t' n (ground arith))
last_split d (c ∷ s) [] t t' n n' e = absurd (holds_separator d s t' t n' (ground arith))
last_split d (c ∷ s) (c' ∷ s') t t' n n' e = ground (arith, last_split d s s' t t')

has_code_in-append :
    (d : ℕ) (s t : Text) → has_code_in d (s ++ t) ≡ (has_code_in d s || has_code_in d t)
has_code_in-append d [] t = refl
has_code_in-append d (c ∷ s) t = ground (arith, has_code_in-append d s t)

module _ (h : Sha256) (hex : IsHexLike h.of_bytes) where
  abbrev entry : AttestedFile → Text
  entry f = f.relative ++ b':' ∷ h.of_bytes f.body

  stream-cons :
      (f : AttestedFile) (fs : List AttestedFile)
      → attested_stream h (f ∷ fs) ≡ entry f ++ 10 ∷ attested_stream h fs
  unfolding attested_stream
  stream-cons f fs =
      append_assoc f.relative (b':' ∷ (h.of_bytes f.body ++ 10 ∷ [])) (attested_stream h fs)
      ∙ ap (λ (t : Text). f.relative ++ b':' ∷ t)
          (append_assoc (h.of_bytes f.body) (10 ∷ []) (attested_stream h fs))
      ∙ sym (append_assoc f.relative (b':' ∷ h.of_bytes f.body) (10 ∷ attested_stream h fs))

  entry-OneLine :
      (f : AttestedFile) → has_code_in 10 f.relative ≡ false → has_code_in 10 (entry f) ≡ false
  entry-OneLine f n =
      has_code_in-append 10 f.relative (b':' ∷ h.of_bytes f.body) ∙ rw (n, (hex f.body).1) refl

  not_blank : (s t : Text) → ◌≡◌ {A = Text} [] (s ++ 10 ∷ t) → ⊥
  not_blank [] t e = ground arith
  not_blank (c ∷ s) t e = ground arith

  same_files :
      (fs gs : List AttestedFile)
      → OnOneLine fs
      → OnOneLine gs
      → attested_stream h fs ≡ attested_stream h gs
      → (fs ≡ gs) ⊎ Collides h.of_bytes
  unfolding attested_stream
  same_files [] [] m n e = inl refl
  same_files [] (g ∷ gs) m n e =
      absurd (not_blank (entry g) (attested_stream h gs) (e ∙ stream-cons g gs))
  same_files (f ∷ fs) [] m n e =
      absurd (not_blank (entry f) (attested_stream h fs) (sym e ∙ stream-cons f fs))
  same_files (f ∷ fs) (g ∷ gs) m n e =
      let (line, rest) =
        first_split 10 (entry f) (entry g) (attested_stream h fs) (attested_stream h gs)
          (entry-OneLine f m.0) (entry-OneLine g n.0)
          (sym (stream-cons f fs) ∙ e ∙ stream-cons g gs) in
      let (path, content) =
        last_split b':' f.relative g.relative (h.of_bytes f.body) (h.of_bytes g.body) (hex f.body).0
          (hex g.body).0 line in
      elim (Bool-cases (text_eq f.body g.body)) [
        | inr differ ↦ inr (f.body, g.body, differ, content)
        | inl same ↦ elim (same_files fs gs m.1 n.1 rest) [
          | inr clash ↦ inr clash
          | inl q ↦
              inl (λ i. (record { relative = path i; body = text_eq→≡ f.body g.body same i }) ∷ q i)
        ]
      ]

  -- When the digest of a content has no colon and no line feed and paths are one line: if two
  -- lists of files have the same adapter digest, they are the same files with the same
  -- contents in the same order, or two different texts or two different contents have the
  -- same hash.
  pub adapter_digest-same :
      (fs gs : List AttestedFile)
      → OnOneLine fs
      → OnOneLine gs
      → adapter_digest h fs ≡ adapter_digest h gs
      → (fs ≡ gs) ⊎ Collides h.of_bytes ⊎ Collides h.of_text
  unfolding adapter_digest
  adapter_digest-same fs gs m n e =
      elim (Bool-cases (text_eq (attested_stream h fs) (attested_stream h gs))) [
        | inr differ ↦ inr (inr (attested_stream h fs, attested_stream h gs, differ, e))
        | inl same ↦
            elim (same_files fs gs m n
              (text_eq→≡ (attested_stream h fs) (attested_stream h gs) same)) [
                | inl q ↦ inl q
                | inr clash ↦ inr (inl clash)
              ]
      ]
