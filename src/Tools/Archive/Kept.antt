-- ===== src/Tools/Archive/Kept.antt =====
-- What `normalise_sdist` keeps of an archive, and that doing it again changes nothing.
use mathlib.Core.List.{Permᴰ}
use mathlib.Core.List.Permᴰ
use mathlib.Core.Path.{subst}
use mcp_heartbeat.Prelude.{
  Bool, Bool-cases, List, Option, Option-cases, Result, [], ap, arith, false, inl, inr, length, ltb,
  map, nat_eq, none, not, ok, refl, some, sym, true, ℕ, ◌&&◌, ◌||◌, ◌∙◌, ◌∷◌, ◌≡◌,
}
use mcp_heartbeat.Conformance.Release.{sorted}
use mcp_heartbeat.Tools.Archive.{Failure, Member, Tar, normalise_sdist, same_payload, verify}
use mcp_heartbeat.Tools.Dict.{same_dict-perm}
use mcp_heartbeat.Tools.Order.{
  All, All-perm, Distinct, Distinct-map, Distinct-of_map, Distinct-perm, Text, map-perm,
  map-sort_by, perm-sort_by, sort_by, text_eq, text_eq_refl,
}
use mcp_heartbeat.Current.Identity.Compact.{unpacked}
use mcp_heartbeat.Tools.Archive.Reproducible.{
  Content, IsPlain, content_key, content_of, item_of, items, items-Distinct, member_key,
  normalise_sdist_reproducible, read_back-Distinct, rewritten_lem, written,
}

-- `REGTYPE` and `DIRTYPE` of tarfile, b"0" and b"5"
abbrev pub regular_type : Text
regular_type = b'0' ∷ []

abbrev pub directory_type : Text
directory_type = b'5' ∷ []

abbrev pub is_ascii : ℕ → Bool
is_ascii c = ltb 0 c && ltb c 128

-- ASCII without NUL, not empty, and no slash at the end, which tarfile takes off
abbrev pub is_plain_name : Text → Bool
is_plain_name [] = false
is_plain_name (c ∷ []) = is_ascii c && not (nat_eq c b'/')
is_plain_name (c ∷ d ∷ s) = is_ascii c && is_plain_name (d ∷ s)

abbrev pub are_bytes : List ℕ → Bool
are_bytes [] = true
are_bytes (b ∷ bs) = ltb b 256 && are_bytes bs

-- a regular file or a directory proper: a sparse file counts as a file and cannot be written
abbrev pub is_ordinary : Member → Bool
is_ordinary m =
    (text_eq m.type regular_type || text_eq m.type directory_type)
    && is_plain_name m.name
    && are_bytes m.content

-- Eleven octal digits, the time in a header.
abbrev pub mtime_limit : ℕ
mtime_limit = 8589934592

abbrev pub IsOrdinary : Member → Type 0
IsOrdinary m = is_ordinary m ≡ true

same_payload_refl : (v : Option (List ℕ)) → same_payload v v ≡ true
unfolding same_payload
same_payload_refl none = refl
same_payload_refl (some b) = text_eq_refl b

module _ (t : Tar) where
  -- A member that may be written as it is: its size is that of its bytes, a directory has none,
  -- it belongs to root by number, and its time fits the field of a header.
  pub record IsWritable (m : Member) : Type 0 where
    pub ordinary : IsOrdinary m
    pub directory : t.is_dir m.type ≡ true → m.content ≡ []
    pub size : m.size ≡ length m.content
    pub uid : m.uid ≡ 0
    pub gid : m.gid ≡ 0
    pub uname : m.uname ≡ []
    pub gname : m.gname ≡ []
    pub mtime : ltb m.mtime mtime_limit ≡ true

  -- What was written is read back: the names, the types and the bytes, in order.
  abbrev pub KeepsContents : Type 0
  KeepsContents =
      (es : List Member)
      → All IsWritable es
      → (back : List Member) × (t.unpack (t.pack es) ≡ some back)
        × (map (content_of t) back ≡ map (content_of t) es)

  written-directory :
      (epoch : ℕ) (m : Member)
      → t.is_dir m.type ≡ true
      → (written t epoch (content_of t m)).content ≡ []
  written-directory epoch m e = rw e refl

  written-IsOrdinary :
      (epoch : ℕ) (m : Member) → IsOrdinary m → IsOrdinary (written t epoch (content_of t m))
  written-IsOrdinary epoch m o = elim (Bool-cases (t.is_dir m.type)) [
    | inl e ↦ rw e (ground (arith, o))
    | inr e ↦ rw e o
  ]

  written-size :
      (epoch : ℕ) (c : Content) → (written t epoch c).size ≡ length (written t epoch c).content
  written-size epoch c = elim (Option-cases c.payload) [
    | inl e ↦ rw e refl
    | inr (b, e) ↦ rw e refl
  ]

  written-content :
      (epoch : ℕ) (m : Member) → content_of t (written t epoch (content_of t m)) ≡ content_of t m
  written-content epoch m = elim (Bool-cases (t.is_dir m.type)) [
    | inl e ↦ rw e refl
    | inr e ↦ rw e refl
  ]

  module _ (epoch : ℕ) (fits : ltb epoch mtime_limit ≡ true) where
    written-IsWritable : (m : Member) → IsOrdinary m → IsWritable (written t epoch (content_of t m))
    written-IsWritable m o = record {
      ordinary = written-IsOrdinary epoch m o;
      directory = λ e. written-directory epoch m e;
      size = written-size epoch (content_of t m);
      uid = refl;
      gid = refl;
      uname = refl;
      gname = refl;
      mtime = fits;
    }

    All-written :
        (ms : List Member)
        → All IsOrdinary ms
        → All IsWritable (map (written t epoch) (map (content_of t) ms))
    All-written [] h = tt
    All-written (m ∷ ms) h = (written-IsWritable m h.0, All-written ms h.1)

  contents_written :
      (epoch : ℕ) (ms : List Member)
      → map (content_of t) (map (written t epoch) (map (content_of t) ms)) ≡ map (content_of t) ms
  contents_written epoch [] = refl
  contents_written epoch (m ∷ ms) = λ i. written-content epoch m i ∷ contents_written epoch ms i

  Distinct-back :
      (back sorted : List Member)
      → map (content_of t) back ≡ map (content_of t) sorted
      → Distinct member_key sorted
      → Distinct member_key back
  Distinct-back back sorted e u =
      Distinct-of_map member_key content_key (content_of t) (λ m. refl) back
        (subst (Distinct content_key) (sym e)
          (Distinct-map member_key content_key (content_of t) (λ m. refl) sorted u))

  -- When the members that are read of an archive are regular files or directories by type,
  -- with distinct ASCII names that are not empty, have no NUL and do not end in a slash, the
  -- epoch fits in eleven octal digits, and `tarfile` and `gzip` give back the names, types
  -- and payloads of such members that were written: `normalise_sdist` does not raise, the
  -- file then holds exactly these names, types and payloads, sorted by name, and running it
  -- again leaves the file as it is.
  pub normalise_sdist_keeps :
      (epoch : ℕ) (archive : t.Archive) (ms : List Member)
      → t.unpack archive ≡ some ms
      → All (IsPlain t) ms
      → All IsOrdinary ms
      → Distinct member_key ms
      → ltb epoch mtime_limit ≡ true
      → KeepsContents
      → let (r, after) = normalise_sdist t epoch archive in
        (r ≡ ok tt)
        × ((back : List Member) × (t.unpack after ≡ some back)
            × (map (content_of t) back ≡ sort_by content_key (map (content_of t) ms)))
        × ((normalise_sdist t epoch after).1 ≡ after)
  unfolding normalise_sdist verify
  normalise_sdist_keeps epoch archive ms e h n u fits keeps =
      let cs = map (content_of t) ms in
      let sorted = sort_by member_key ms in
      let order : map (content_of t) sorted ≡ sort_by content_key cs =
        map-sort_by member_key content_key (content_of t) (λ m. refl) ms in
      let es : List Member = map (written t epoch) (map (content_of t) sorted) in
      let p = perm-sort_by member_key ms in
      let (back, unpacked, kept) =
        keeps es (All-written epoch fits sorted (All-perm IsOrdinary p n)) in
      let same : map (content_of t) back ≡ map (content_of t) sorted =
        kept ∙ contents_written epoch sorted in
      let us = Distinct-perm member_key p u in
      let ub = Distinct-back back sorted same us in
      let q : Permᴰ (map (content_of t) ms) (map (content_of t) back) =
        subst (λ (x : List Content). Permᴰ cs x) (sym same) (map-perm (content_of t) p) in
      let checked : verify t (items t ms) (t.unpack (t.pack es)) ≡ ok tt =
        rw (unpacked, read_back-Distinct t back ub)
          (rw
            (same_dict-perm same_payload same_payload_refl (Permᴰ.symm (map-perm item_of q))
              (items-Distinct t back ub))
            refl) in
      let file : (normalise_sdist t epoch archive) ≡ (ok tt, t.pack es) =
        rw (rewritten_lem t epoch archive ms e h u)
          (rw (← order) (ap (λ (r : Result Failure (Unit {0})). (r, t.pack es)) checked)) in
      subst
        (λ (x : Result Failure (Unit {0}) × t.Archive).
          (x.0 ≡ ok tt)
          × ((b : List Member) × (t.unpack x.1 ≡ some b)
              × (map (content_of t) b ≡ sort_by content_key cs))
          × ((normalise_sdist t epoch x.1).1 ≡ x.1))
        (sym file)
        (
          refl,
          (back, unpacked, same ∙ order),
          sym (normalise_sdist_reproducible t epoch archive (t.pack es) ms back e unpacked q h u)
              ∙ ap (λ (x : Result Failure (Unit {0}) × t.Archive). x.1) file,
        )
