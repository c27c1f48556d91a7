-- ===== src/Fsspec/Reader.antt =====
-- fsspec_fs.py, `_WholeReader` to `_reader_for`: byte ranges of a generation's payload, from the one
-- object of a whole generation or from the packs of a chunked one.
pub mod Runs
pub mod Fetch
pub mod Exact
pub mod Seek
pub mod Range
pub mod RoundTrip
use ducklake_serverless.Base.{
  ℕ, zero, suc, ◌+◌, ◌-◌, min, max, ℤ, pos, negsuc, to_nat, Text, Bytes, text_eq, List, [], ◌∷◌,
  ◌++◌, Bool, true, false, ◌&&◌, ltb, leb, ◌==◌, length, take, drop, map, if◌then◌else◌,
}
use ducklake_serverless.Errors.{
  Result, ok, err, external_service, input_validation, index_error, out_of_fuel, Exec, pure, raise,
  lift, ◌>>=◌,
}
use ducklake_serverless.Models.RootDoc.{RootDoc, Transport, whole, chunked, payload_key}
use ducklake_serverless.Store.{ObjectStore}
use ducklake_serverless.Chunk.Manifest.{Manifest, ManifestEntry, ManifestJson, format_pack_key}
use ducklake_serverless.Chunk.Transfer.{load_manifest}

-- `self._starts[i]` beside `entries[i]`.
abbrev pub Indexed : Type 0
Indexed = List (ℕ × ManifestEntry)

unfoldable pub starts_from : ℕ → List ManifestEntry → Indexed
starts_from off [] = []
starts_from off (e ∷ es) = (off, e) ∷ starts_from (off + e.length) es

-- `off` behind the loop.
unfoldable pub total_length : ℕ → List ManifestEntry → ℕ
total_length off [] = off
total_length off (e ∷ es) = total_length (off + e.length) es

-- The two readers, each with its `size`; the chunked one with its index.
pub data RangeReader : Type 0 where
  whole_reader : Text → ℕ → RangeReader
  chunked_reader : Manifest → Indexed → RangeReader

unfoldable pub reader_size : RangeReader → ℕ
reader_size (whole_reader key size) = size
reader_size (chunked_reader manifest index) = manifest.total_size

-- `_ChunkedReader.__init__`
unfoldable pub chunked_reader_of : Manifest → Result RangeReader
chunked_reader_of manifest =
    if total_length 0 manifest.entries == manifest.total_size
    then ok (chunked_reader manifest (starts_from 0 manifest.entries))
    else err external_service

-- `bisect.bisect_right(self._starts, x)`: the starts never fall, so those up to `x` come first.
unfoldable pub bisect_right : Indexed → ℕ → ℕ
bisect_right [] x = 0
bisect_right ((start, _) ∷ index) x =
    let more = bisect_right index x in if leb start x then suc more else 0

-- The inner loop: the further entries of the run that `pack_off_end` is the end of, and what
-- follows them.
unfoldable pub extend_run : ℕ → Text → ℕ → Indexed → Indexed × Indexed
extend_run end sha pack_off_end [] = ([], [])
extend_run end sha pack_off_end ((start, e) ∷ index) =
    let (run, rest) = extend_run end sha (pack_off_end + e.length) index in
    if ltb start end && (text_eq e.pack_sha256 sha && (e.pack_offset == pack_off_end))
    then ((start, e) ∷ run, rest)
    else ([], (start, e) ∷ index)

-- `self._starts[run_end_idx] + entries[run_end_idx].length`, where `last` is it before the run.
unfoldable pub run_file_end : ℕ → Indexed → ℕ
run_file_end last [] = last
run_file_end last ((start, e) ∷ run) = run_file_end (start + e.length) run

module _ (sha256 : Bytes → Text) where
  -- The entries are those of the run.
  unfoldable pub verify_covered_chunks : ℕ → ℕ → Bytes → Indexed → Result (Unit {0})
  verify_covered_chunks got_start got_end got [] = ok tt
  verify_covered_chunks got_start got_end got ((c_start, e) ∷ run) =
      let rest = verify_covered_chunks got_start got_end got run in
      if leb got_start c_start && leb (c_start + e.length) got_end
      then (if text_eq (sha256 (take e.length (drop (c_start - got_start) got))) e.chunk_sha256
          then rest
          else err external_service)
      else rest

module _ {W : Type 0} (store : ObjectStore W) (sha256 : Bytes → Text) where
  -- The ranged GET of a run from `here` on, checked. `here` is never before the run's start.
  unfoldable pub fetch_run : ℕ → ℕ → ℕ → ManifestEntry → Indexed → Exec W Bytes
  fetch_run here want_end start e run =
      let want_start = max here start in
      (do
        got ←
            store.get_range (format_pack_key e.pack_sha256) (e.pack_offset + (want_start - start))
              (want_end - want_start)
        if length got == want_end - want_start
            then (do
              _ ← lift (verify_covered_chunks sha256 want_start want_end got ((start, e) ∷ run))
              pure got)
            else raise external_service)

  -- The body of `while here < end`, before the next round.
  abbrev pub read_run :
      (ℕ → Bytes → Indexed → Exec W Bytes)
      → ℕ
      → ℕ
      → Bytes
      → ℕ
      → ManifestEntry
      → Indexed × Indexed
      → Exec W Bytes
  read_run next end here out start e (run, rest) =
      let want_end = min end (run_file_end (start + e.length) run) in
      (do got ← fetch_run here want_end start e run; next want_end (out ++ got) rest)

  -- `while here < end`, at the entries from `idx` on; each round takes one of them at least.
  unfoldable pub read_runs : ℕ → ℕ → ℕ → Bytes → Indexed → Exec W Bytes
  read_runs n end here out [] w = if ltb here end then (err index_error, w) else (ok out, w)
  read_runs zero end here out (_ ∷ _) w = (err out_of_fuel, w)
  read_runs (suc n) end here out ((start, e) ∷ index) w =
      let next = λ (want_end : ℕ) (out' : Bytes) (rest : Indexed) (u : W).
        read_runs n end want_end out' rest u in
      if ltb here end
      then read_run next end here out start e
          (extend_run end e.pack_sha256 (e.pack_offset + e.length) index) w
      else (ok out, w)

  unfoldable pub read_chunked : Manifest → Indexed → ℕ → ℕ → Exec W Bytes
  read_chunked manifest index start count =
      let end = min (start + count) manifest.total_size in
      if leb end start
      then pure []
      else read_runs (length index) end start [] (drop (bisect_right index start - 1) index)

  -- `read_range(start, length)`, of either reader.
  unfoldable pub read_range : RangeReader → ℤ → ℤ → Exec W Bytes
  read_range reader (negsuc _) count = raise input_validation
  read_range (whole_reader key size) (pos start) count = store.get_range key start (to_nat count)
  read_range (chunked_reader manifest index) (pos start) count =
      read_chunked manifest index start (to_nat count)

  abbrev pub whole_reader_of : Text → Exec W RangeReader
  whole_reader_of key = do meta ← store.head_meta key; pure (whole_reader key meta.size)

  -- `match doc.transport`
  abbrev pub reader_of : ManifestJson → Text → Transport → Exec W RangeReader
  reader_of json key whole = whole_reader_of key
  reader_of json key chunked = do
    manifest ← load_manifest store json key
    lift (chunked_reader_of manifest)

  unfoldable pub reader_for : ManifestJson → RootDoc → Exec W RangeReader
  reader_for json doc = do key ← lift (payload_key doc); reader_of json key doc.transport
