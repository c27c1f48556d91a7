-- ===== src/Fsspec.antt =====
-- fsspec_fs.py: `GenerationFileSystem`, read-only, over the generations of a lake. Its memo of readers
-- is the state beside the world. What fsspec itself does of `_strip_protocol` is a parameter; its
-- buffering, and its options, are not modelled. The tasks of a pool stand in their order here.
pub mod Values
pub mod Paths
pub mod Reader
pub mod Resolve
pub mod Pinned
use ducklake_serverless.Base.{
  ℕ, zero, suc, ◌+◌, ℤ, pos, negsuc, ◌+ℤ◌, ◌-ℤ◌, to_nat, Text, Bytes, text, text_eq, Option, none,
  some, List, [], ◌∷◌, ◌++◌, map, length, Bool, true, false, ◌&&◌, ◌||◌, not, ◌==◌, leb, Dict,
  dict_get, dict_set, if◌then◌else◌,
}
use ducklake_serverless.Errors.{
  Error, Result, ok, err, external_service, input_validation, file_not_found, is_a_directory,
  not_implemented, value_error, is_not_found, Exec, pure, raise, lift, handle, ◌>>=◌,
}
use ducklake_serverless.Models.RootDoc.{RootDoc, Transport, payload_key}
use ducklake_serverless.Root.{read_marker, resolve_head}
use ducklake_serverless.Commit.Services.{Services}
use ducklake_serverless.Fsspec.Paths.{lstrip_slash, gen_re, int_of, gen_path}
use ducklake_serverless.Fsspec.Reader.{RangeReader, reader_size, read_range, reader_for}
use ducklake_serverless.Fsspec.Values.{
  Info, info_name, Listing, listing, Offsets, offsets_list, ranges_of, Readers, range_from,
  is_directory, slice_start, slice_end, ends_by, directory, generation_file, details, names, one,
  each,
}

-- The first failure, in the order of the tasks.
abbrev pub first_of : {A : Type 0} → Result A → Result (List A) → Result (List A)
first_of (err e) _ = err e
first_of (ok a) (err e) = err e
first_of (ok a) (ok rest) = ok (a ∷ rest)

module _ {W : Type 0} where
  -- `list(pool.map(task, …))`: every task runs; then the first failure is raised.
  unfoldable pub map_tasks : {A B : Type 0} → (A → Exec W B) → List A → Exec W (List B)
  map_tasks task [] w = (ok [], w)
  map_tasks task (a ∷ rest) w =
      let (r, v) = task a w in let (s, u) = map_tasks task rest v in (first_of r s, u)

module _ {W : Type 0} (services : Services W) (base_strip : Text → Text) where
  abbrev pub strip_protocol : Text → Text
  strip_protocol path = lstrip_slash (base_strip path)

  -- `except NotFoundError as exc: raise FileNotFoundError`
  abbrev pub or_missing : {A : Type 0} → Result A → Exec W A
  or_missing (ok a) = pure a
  or_missing (err e) = if is_not_found e then raise file_not_found else raise e

  abbrev pub resolve_number : Option (List ℕ) → Exec W RootDoc
  resolve_number none = raise file_not_found
  resolve_number (some digits) = do
    g ← lift (int_of digits)
    handle (read_marker services.store services.json g) or_missing

  -- `_resolve`, of a name and of a path.
  unfoldable pub resolve_name : Text → Exec W RootDoc
  resolve_name name =
      if text_eq name (text "head")
      then handle (do (doc, _) ← resolve_head services.store services.json; pure doc) or_missing
      else resolve_number (gen_re name)

  unfoldable pub resolve : Text → Exec W RootDoc
  resolve path = resolve_name (strip_protocol path)

  unfoldable pub pin : Text → Exec W Text
  pin path = do doc ← resolve path; pure (gen_path doc.generation)

  unfoldable pub info : Text → Exec W Info
  info path =
      let name = strip_protocol path in
      if is_directory name then pure (directory name) else do
        doc ← resolve path
        key ← lift (payload_key doc)
        pure (generation_file name doc.payload_size doc.generation doc.transport key)

  unfoldable pub checksum : Text → Exec W Text
  checksum path = do doc ← resolve path; lift (payload_key doc)

  unfoldable pub ukey : Text → Exec W Text
  ukey path = do doc ← resolve path; lift (payload_key doc)

  -- `except FileNotFoundError`, which leaves the entry out.
  abbrev pub entry_or_none : Result Info → Exec W (List Info)
  entry_or_none (ok entry) = pure (entry ∷ [])
  entry_or_none (err file_not_found) = pure []
  entry_or_none (err e) = raise e

  -- `[e for e in maybe if e is not None]`
  abbrev pub present_entries : List (List Info) → List Info
  present_entries [] = []
  present_entries (entries ∷ more) = entries ++ present_entries more

  abbrev pub ls_root : Bool → Exec W Listing
  ls_root detail = do
    entries ← handle (info (text "head")) entry_or_none
    pure (listing detail (entries ++ directory (text "gen") ∷ []))

  abbrev pub ls_gen : Bool → Exec W Listing
  ls_gen detail = do
    (head_doc, _) ← handle (resolve_head services.store services.json) or_missing
    maybe ←
        map_tasks (λ g. handle (info (gen_path g)) entry_or_none)
          (range_from 0 (head_doc.generation + 1))
    pure (listing detail (present_entries maybe))

  unfoldable pub ls : Text → Bool → Exec W Listing
  ls path detail =
      let name = strip_protocol path in
      if text_eq name []
      then ls_root detail
      else if text_eq name (text "gen")
      then ls_gen detail
      else (do entry ← info name; pure (listing detail (entry ∷ [])))

  abbrev pub exists_result : Result RootDoc → Exec W Bool
  exists_result (ok _) = pure true
  exists_result (err file_not_found) = pure false
  exists_result (err e) = raise e

  unfoldable pub exists : Text → Exec W Bool
  exists path =
      if is_directory (strip_protocol path) then pure true else handle (resolve path) exists_result

  unfoldable pub isdir : Text → Bool
  isdir path = is_directory (strip_protocol path)

  unfoldable pub isfile : Text → Exec W Bool
  isfile path = if is_directory (strip_protocol path) then pure false else exists path

  -- A call that leaves the memo alone.
  abbrev pub on_store : {A : Type 0} → Exec W A → Exec (W × Readers) A
  on_store m (w, readers) = let (r, v) = m w in (r, (v, readers))

  -- What a failed construction of a reader is raised as.
  abbrev pub reader_result : Result RangeReader → Exec W RangeReader
  reader_result (ok reader) = pure reader
  reader_result (err input_validation) = raise external_service
  reader_result (err e) = if is_not_found e then raise file_not_found else raise e

  abbrev pub remember : Text → RangeReader → Exec (W × Readers) RangeReader
  remember key reader (w, readers) = (ok reader, (w, dict_set key reader readers))

  -- `self._readers.get(doc.payload_key)`
  abbrev pub reader_or : RootDoc → Text → Option RangeReader → Exec (W × Readers) RangeReader
  reader_or doc key (some reader) = pure reader
  reader_or doc key none = do
    reader ← on_store (
        handle (reader_for services.store services.sha256 services.manifest_json doc) reader_result)
    remember key reader

  -- `_reader`; the lock only keeps other threads from fetching the same.
  unfoldable pub reader_for_doc : RootDoc → Exec (W × Readers) RangeReader
  reader_for_doc doc state =
      (do key ← lift (payload_key doc); reader_or doc key (dict_get key state.1)) state

  -- What `cat_file` reads of a reader.
  unfoldable pub read_slice : RangeReader → Option ℤ → Option ℤ → Exec W Bytes
  read_slice r start end =
      let s = slice_start start (reader_size r) in
      let e = slice_end end (reader_size r) in
      if ends_by e s
      then pure []
      else read_range services.store services.sha256 r (pos s) (e -ℤ pos s)

  unfoldable pub cat_file : Text → Option ℤ → Option ℤ → Exec (W × Readers) Bytes
  cat_file path start end = if is_directory (strip_protocol path) then raise is_a_directory else do
    doc ← on_store (resolve path)
    r ← reader_for_doc doc
    on_store (read_slice r start end)

  -- With `on_error` "return" a failure is a value.
  abbrev pub collected : Bool → Result Bytes → Exec (W × Readers) (Result Bytes)
  collected true r = pure r
  collected false r = do bytes ← lift r; pure (ok bytes)

  abbrev pub cat_one : Bool → Text × ℤ × ℤ → Exec (W × Readers) (Result Bytes)
  cat_one returns (p, s, e) = handle (cat_file p (some s) (some e)) (collected returns)

  -- `returns` says whether `on_error` is "return".
  unfoldable pub cat_ranges :
      List Text → Offsets → Offsets → Option ℕ → Bool → Exec (W × Readers) (List (Result Bytes))
  cat_ranges paths starts ends (some _) returns = raise not_implemented
  cat_ranges paths starts ends none returns =
      let starts_list = offsets_list starts (length paths) in
      let ends_list = offsets_list ends (length paths) in
      if (length starts_list == length paths) && (length ends_list == length paths)
      then map_tasks (cat_one returns) (ranges_of paths starts_list ends_list)
      else raise value_error

  -- `GenerationFile`: its path, reader and size.
  pub record GenerationFile : Type 0 where
    pub path : Text
    pub range_reader : RangeReader
    pub size : ℕ

  unfoldable pub open_file : Text → Text → Exec (W × Readers) GenerationFile
  open_file path mode =
      if text_eq mode (text "rb")
      then (do
        doc ← on_store (resolve path)
        r ← reader_for_doc doc
        pure (record { path = path; range_reader = r; size = reader_size r }))
      else raise not_implemented

  unfoldable pub fetch_range : GenerationFile → ℤ → ℤ → Exec W Bytes
  fetch_range file start end =
      read_range services.store services.sha256 file.range_reader start (end -ℤ start)

  -- The entry points of every mutation.
  unfoldable pub readonly : Exec W (Unit {0})
  readonly = raise not_implemented
