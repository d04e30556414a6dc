-- ===== src/Tools/Archive/Reproducible.antt =====
-- What `normalise_sdist` forgets of an archive, and what it keeps.
use mathlib.Core.List.{Permᴰ}
use mcp_heartbeat.Prelude.{List, Option, [], ap, map, ok, refl, some, true, ℕ, ◌||◌, ◌∙◌, ◌∷◌, ◌≡◌}
use mcp_heartbeat.Tools.Archive.{
  Member, Payloads, Tar, collect, info, normalise_sdist, payload_of, read_back, rebuild, rewritten,
}
use mcp_heartbeat.Tools.Dict.{Holds, Holds-self, item_key, set_all, set_all-Distinct, set_at}
use mcp_heartbeat.Tools.Order.{
  All, All-map, All-perm, All-of_map, Distinct, Distinct-map, Distinct-perm, Distinct-of_map, Text,
  map-perm, map-sort_by, perm-sort_by, sort_by, sort_by-perm,
}

-- What an archive is for: a name, a type, and the bytes of a file.
pub record Content : Type 0 where
  pub name : Text
  pub type : Text
  pub payload : Option (List ℕ)

abbrev pub content_key : Content → Text
content_key c = c.name

abbrev pub member_key : Member → Text
member_key m = m.name

abbrev pub item_of : Content → Text × Option (List ℕ)
item_of c = (c.name, c.payload)

module _ (t : Tar) where
  abbrev pub content_of : Member → Content
  content_of m = record { name = m.name; type = m.type; payload = payload_of t m }

  -- a directory or a regular file
  abbrev pub IsPlain : Member → Type 0
  IsPlain m = (t.is_dir m.type || t.is_file m.type) ≡ true

  abbrev pub written : ℕ → Content → Member
  written epoch c = info t epoch c.name c.type c.payload

  collect-read_back :
      (ms : List Member) (d : Payloads) → All IsPlain ms → collect t ms d ≡ ok (read_back t ms d)
  unfolding collect read_back
  collect-read_back [] d h = refl
  collect-read_back (m ∷ ms) d h =
      rw h.0 (collect-read_back ms (set_at m.name (payload_of t m) d) h.1)

  read_back-set_all :
      (ms : List Member) (d : Payloads)
      → read_back t ms d ≡ set_all (map item_of (map content_of ms)) d
  unfolding read_back set_all
  read_back-set_all [] d = refl
  read_back-set_all (m ∷ ms) d = read_back-set_all ms (set_at m.name (payload_of t m) d)

  abbrev pub items : List Member → Payloads
  items ms = map item_of (map content_of ms)

  pub items-Distinct : (ms : List Member) → Distinct member_key ms → Distinct item_key (items ms)
  items-Distinct ms u =
      Distinct-map content_key item_key item_of (λ c. refl) (map content_of ms)
        (Distinct-map member_key content_key content_of (λ m. refl) ms u)

  pub read_back-Distinct :
      (ms : List Member) → Distinct member_key ms → read_back t ms [] ≡ items ms
  read_back-Distinct ms u =
      read_back-set_all ms [] ∙ set_all-Distinct (items ms) (items-Distinct ms u)

  rebuild-Holds :
      (epoch : ℕ) (d : Payloads) (ms : List Member)
      → All (Holds d) (map item_of (map content_of ms))
      → rebuild t epoch d ms ≡ ok (map (written epoch) (map content_of ms))
  unfolding rebuild
  rebuild-Holds epoch d [] h = refl
  rebuild-Holds epoch d (m ∷ ms) h = rw (h.0, rebuild-Holds epoch d ms h.1) refl

  sorted_content :
      (ms : List Member)
      → map content_of (sort_by member_key ms) ≡ sort_by content_key (map content_of ms)
  sorted_content ms = map-sort_by member_key content_key content_of (λ m. refl) ms

  pub rewritten_lem :
      (epoch : ℕ) (archive : t.Archive) (ms : List Member)
      → t.unpack archive ≡ some ms
      → All IsPlain ms
      → Distinct member_key ms
      → rewritten t epoch archive
        ≡ ok (items ms, map (written epoch) (sort_by content_key (map content_of ms)))
  unfolding rewritten
  rewritten_lem epoch archive ms e h u =
      let d = map item_of (map content_of ms) in
      let sorted = sort_by member_key ms in
      let there : All (Holds d) (map item_of (map content_of sorted)) =
        All-perm (Holds d) (map-perm item_of (map-perm content_of (perm-sort_by member_key ms)))
          (Holds-self d (items-Distinct ms u)) in
      rw (e, collect-read_back ms [] h, read_back-Distinct ms u, rebuild-Holds epoch d sorted there)
        (ap (λ (cs : List Content). ok (d, map (written epoch) cs)) (sorted_content ms))

  -- `IsPlain`, of what a member is for
  abbrev pub PlainContent : Content → Type 0
  PlainContent c = (t.is_dir c.type || t.is_file c.type) ≡ true

  -- When the members of two archives are the same but for their order and for times, modes
  -- and owners, all are directories or files and their names are distinct: `normalise_sdist`
  -- with the same epoch writes the same archive for both.
  pub normalise_sdist_reproducible :
      (epoch : ℕ) (a b : t.Archive) (ms ns : List Member)
      → t.unpack a ≡ some ms
      → t.unpack b ≡ some ns
      → Permᴰ (map content_of ms) (map content_of ns)
      → All IsPlain ms
      → Distinct member_key ms
      → (normalise_sdist t epoch a).1 ≡ (normalise_sdist t epoch b).1
  unfolding normalise_sdist
  normalise_sdist_reproducible epoch a b ms ns ea eb q h u =
      let uc = Distinct-map member_key content_key content_of (λ m. refl) ms u in
      let h' =
        All-of_map PlainContent content_of ns
          (All-perm PlainContent q (All-map PlainContent content_of ms h)) in
      let u' =
        Distinct-of_map member_key content_key content_of (λ m. refl) ns
          (Distinct-perm content_key q uc) in
      rw (rewritten_lem epoch a ms ea h u, rewritten_lem epoch b ns eb h' u')
        (ap (λ (cs : List Content). t.pack (map (written epoch) cs))
          (sort_by-perm content_key q uc))
