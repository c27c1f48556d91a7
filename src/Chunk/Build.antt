-- ===== src/Chunk/Build.antt =====
-- chunk.py, `build_manifest`: split the payload, reuse the base's chunks, and pack the novel ones.
pub mod Walk
pub mod Packing
pub mod Faithful
use ducklake_serverless.Base.{
  ℕ, zero, suc, ◌+◌, ◌*◌, ◌<◌, ◌≡◌, Text, Bytes, text_eq, Option, none, some, List, [], ◌∷◌, ◌++◌,
  Bool, true, false, ◌&&◌, not, ltb, ◌==◌, length, take, drop, if◌then◌else◌,
}
use ducklake_serverless.Chunk.Manifest.{Manifest, ManifestEntry, index_get}

-- A chunk that waits for its pack, with the place of its entry: the source keeps the places in a
-- dict beside the list of chunks, `pending_entry_at`, whose keys count the chunks up from 0.
pub record Pending : Type 0 where
  pub chunk_sha256 : Text
  pub chunk : Bytes
  pub entry_at : ℕ

pub record Pack : Type 0 where
  pub pack_sha256 : Text
  pub pack_bytes : Bytes

-- The locals of `build_manifest`.
pub record Build : Type 0 where
  pub entries : List ManifestEntry
  pub packs : List Pack
  pub pending : List Pending
  pub pending_bytes : ℕ

abbrev pub empty_build : Build
empty_build = record { entries = []; packs = []; pending = []; pending_bytes = 0 }

-- `b"".join(chunk for _, chunk in pending)`
unfoldable pub join : List Pending → Bytes
join [] = []
join (p ∷ ps) = p.chunk ++ join ps

-- `entries[i] = e`
unfoldable pub set_entry : List ManifestEntry → ℕ → ManifestEntry → List ManifestEntry
set_entry [] i v = []
set_entry (e ∷ es) zero v = v ∷ es
set_entry (e ∷ es) (suc i) v = e ∷ set_entry es i v

-- The loop of `flush_pack`, which gives each waiting entry its slice of the pack.
unfoldable pub fill : Text → ℕ → List Pending → List ManifestEntry → List ManifestEntry
fill pack_sha offset [] entries = entries
fill pack_sha offset (p ∷ ps) entries = fill pack_sha (offset + length p.chunk) ps (
    set_entry entries p.entry_at (record {
      chunk_sha256 = p.chunk_sha256;
      pack_sha256 = pack_sha;
      pack_offset = offset;
      length = length p.chunk;
    }))

-- `"0" * 64`
unfoldable pub zeros : ℕ → Text
zeros zero = []
zeros (suc n) = 48 ∷ zeros n

module _ (sha256 : Bytes → Text) where
  -- A pack of what is pending, where something is.
  unfoldable pub flush : List Pending → Build → Build
  flush [] b = b
  flush (p ∷ ps) b =
      let pack_sha = sha256 (join (p ∷ ps)) in
      record {
        entries = fill pack_sha 0 (p ∷ ps) b.entries;
        packs = b.packs ++ record { pack_sha256 = pack_sha; pack_bytes = join (p ∷ ps) } ∷ [];
        pending = [];
        pending_bytes = 0;
      }

  unfoldable pub flush_pack : Build → Build
  unfolding flush
  flush_pack b = flush b.pending b

  -- The placeholder entry of a novel chunk, which a flush rewrites.
  unfoldable pub await_pack : Bytes → Build → Build
  unfolding zeros
  await_pack chunk b = record {
    entries =
        b.entries
        ++ record {
          chunk_sha256 = sha256 chunk;
          pack_sha256 = zeros 64;
          pack_offset = 0;
          length = length chunk;
        }
          ∷ [];
    packs = b.packs;
    pending =
        b.pending
        ++ record { chunk_sha256 = sha256 chunk; chunk = chunk; entry_at = length b.entries } ∷ [];
    pending_bytes = b.pending_bytes + length chunk;
  }

  abbrev pub waits : List Pending → Bool
  waits [] = false
  waits (p ∷ ps) = true

  -- A chunk that the base does not have.
  unfoldable pub add_novel : ℕ → Bytes → Build → Build
  add_novel pack_target chunk b = await_pack chunk (
      if ltb pack_target (b.pending_bytes + length chunk) && waits b.pending
      then flush_pack b
      else b)

  -- `reused is not None and reused.length == len(chunk)`
  abbrev pub reusable : Bytes → Option ManifestEntry → Option ManifestEntry
  reusable chunk none = none
  reusable chunk (some e) = if e.length == length chunk then some e else none

  -- One round of the loop over the offsets.
  unfoldable pub add_chunk : List ManifestEntry → ℕ → Bytes → Build → Build
  add_chunk base_index pack_target chunk b =
      elim (reusable chunk (index_get (sha256 chunk) base_index)) [
        | some reused ↦ record b { entries = b.entries ++ reused ∷ [] }
        | none ↦ add_novel pack_target chunk b
      ]

  -- `for off in range(0, len(data), size)`: `rest` is the payload from `off` on, so a chunk is its
  -- first `size` bytes. No more rounds are made than there are bytes.
  unfoldable pub add_chunks : ℕ → List ManifestEntry → ℕ → ℕ → Bytes → Build → Build
  add_chunks zero base_index size pack_target rest b = b
  add_chunks (suc n) base_index size pack_target [] b = b
  add_chunks (suc n) base_index size pack_target (x ∷ rest) b =
      add_chunks n base_index size pack_target (drop size (x ∷ rest))
        (add_chunk base_index pack_target (take size (x ∷ rest)) b)

  -- The dedup source: the base's entries, if it was cut at the same size.
  abbrev pub base_index_of : Option Manifest → ℕ → List ManifestEntry
  base_index_of none size = []
  base_index_of (some base) size = if base.chunk_size == size then base.entries else []

  -- `build_manifest` on the bytes of the file, its chunk size given or chosen before.
  unfoldable pub build_manifest : Bytes → Option Manifest → ℕ → ℕ → Manifest × List Pack
  build_manifest bytes base size pack_target =
      let b =
        flush_pack (
          add_chunks (length bytes) (base_index_of base size) size pack_target bytes empty_build) in
      (
        record {
          chunk_size = size;
          total_size = length bytes;
          file_sha256 = sha256 bytes;
          entries = b.entries;
        },
        b.packs,
      )
