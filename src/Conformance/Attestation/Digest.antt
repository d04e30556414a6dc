-- ===== src/Conformance/Attestation/Digest.antt =====
-- sdk_attestation.py: `adapter_digest`, of the paths and the contents of the attested files.
use mcp_heartbeat.Prelude.{List, [], ℕ, ◌++◌, ◌∷◌}
use mcp_heartbeat.Tools.Order.{Text}

-- A file: its path from the package root, as code points, and its bytes.
pub record AttestedFile : Type 0 where
  pub relative : Text
  pub body : List ℕ

-- `hexdigest()` of sha256, of bytes and of a text in UTF-8.
pub record Sha256 : Type 0 where
  pub of_bytes : List ℕ → Text
  pub of_text : Text → Text

module _ (h : Sha256) where
  -- f"{relative}:{body}\n"
  abbrev pub attested_line : AttestedFile → Text
  attested_line f = f.relative ++ b':' ∷ (h.of_bytes f.body ++ 10 ∷ [])

  -- what the digest is fed, file by file
  unfoldable pub attested_stream : List AttestedFile → Text
  attested_stream [] = []
  attested_stream (f ∷ fs) = attested_line f ++ attested_stream fs

  -- The files are in the order of their paths.
  unfoldable pub adapter_digest : List AttestedFile → Text
  unfolding attested_stream
  adapter_digest files = h.of_text (attested_stream files)
