-- ===== src/Tests/Ranges.antt =====
-- Ranges of a generation, and the paths that name it.
use ducklake_serverless.Base.{
  ℕ, ◌≡◌, ◌↔◌, ◌⊎◌, refl, arith, pos, negsuc, Text, text, none, some, [], ◌∷◌, ◌++◌, length, take,
  drop, List, strip_prefix, true, false,
}
use ducklake_serverless.Errors.{Exec, ok, err, external_service, Post, returned, lift, ◌>>=◌}
use ducklake_serverless.Models.Digits.{of_digits}
use ducklake_serverless.Models.Pattern.{at_end}
use ducklake_serverless.Models.RootDoc.{RootDoc}
use ducklake_serverless.Store.{ObjectStore}
use ducklake_serverless.Store.Markers.{Later}
use ducklake_serverless.Store.Memory.{InMemoryObjectStore}
use ducklake_serverless.Store.Memory.Protocol.{body_at, in_memory-KeepsMarkers}
use ducklake_serverless.Chunk.Manifest.{packs_prefix, format_pack_key}
use ducklake_serverless.Chunk.Build.{build_manifest}
use ducklake_serverless.Fsspec.{strip_protocol, resolve, pin}
use ducklake_serverless.Fsspec.Values.{slice_start, slice_end, ends_by}
use ducklake_serverless.Fsspec.Paths.{
  gen_re, canonical_digits, decimal_value, read_digits, gen_path,
}
use ducklake_serverless.Fsspec.Paths.RoundTrip.{gen_re_iff}
use ducklake_serverless.Fsspec.Reader.{chunked_reader_of, read_range}
use ducklake_serverless.Fsspec.Reader.Fetch.{ServesRanges}
use ducklake_serverless.Fsspec.Reader.RoundTrip.{read_range-build_manifest}
use ducklake_serverless.Fsspec.Resolve.{Resolved, Unresolved, resolve_absent}
use ducklake_serverless.Fsspec.Pinned.{pin-resolve}
use ducklake_serverless.Tests.Json.{codec}
use ducklake_serverless.Tests.Lake.{clock, two_generations, two_generations-IsDense}
use ducklake_serverless.Tests.Commits.{services}
use ducklake_serverless.Tests.Decisions.{
  base, own, own-IsCollisionFree, payload, base-IsReadable, stored,
}

-- A pack's bytes are the end of its key.
abbrev fails : {A : Type 0} → Exec (Unit {0}) A
fails w = (err external_service, w)

abbrev ranged : ObjectStore (Unit {0})
ranged = record {
  get = λ key. fails;
  get_range =
      λ key start count w. (ok (take count (drop start (drop (length packs_prefix) key))), w);
  put_if_absent = λ key body. fails;
  put_if_match = λ key body etag. fails;
  put = λ key body. fails;
  list_prefix = λ prefix. fails;
  list_meta = λ prefix. fails;
  head_meta = λ key. fails;
  delete = λ key. fails;
}

ranged-ServesRanges : ServesRanges ranged some (λ _. Unit) ⊥
unfolding format_pack_key
ranged-ServesRanges sha body start count w there stays =
    let same : sha ≡ body = cc there in rw same (returned (tt, refl))

-- From the third byte on, five of nine: the ends of two chunks and the whole of the one between.
read_range-build_manifest_example :
    Post
      (λ out u. Unit × (out ≡ 9 ∷ 1 ∷ 2 ∷ 3 ∷ 4 ∷ []))
      (λ e u. (e ≡ external_service) × ⊥)
      ((do
        reader ← lift (chunked_reader_of (build_manifest own payload (some base) 4 4).0)
        read_range ranged own reader (pos 3) (pos 5))
        tt)
read_range-build_manifest_example =
    read_range-build_manifest ranged own some (λ _. Unit) ⊥ payload (some base) 4 4 3 5 tt
      ranged-ServesRanges own-IsCollisionFree (omega arith) base-IsReadable stored tt

gen_re_iff_example :
    ((ds : List ℕ) × (gen_re (text "gen/50") ≡ some ds) × (of_digits 10 0 ds ≡ 50))
    ↔ ((text "gen/50" ≡ gen_path 50) ⊎ (text "gen/50" ≡ gen_path 50 ++ 10 ∷ []))
gen_re_iff_example = gen_re_iff (text "gen/50") 50

not_aliases : gen_re (text "gen/5_0") ≡ none
unfolding gen_re canonical_digits decimal_value read_digits strip_prefix at_end
not_aliases = refl

no_leading_zero : gen_re (text "gen/050") ≡ none
unfolding gen_re canonical_digits decimal_value read_digits strip_prefix at_end
no_leading_zero = refl

-- The last two bytes of nine, and a slice that ends before it begins.
last_two : (slice_start (some (negsuc 1)) 9 ≡ 7) × (ends_by (slice_end none 9) 7 ≡ false)
unfolding slice_start slice_end ends_by
last_two = (refl, refl)

nothing_between : ends_by (slice_end (some (negsuc 8)) 9) 0 ≡ true
unfolding slice_end ends_by
nothing_between = refl

-- The names as they come; no path here has a protocol.
abbrev as_is : Text → Text
as_is path = path

resolve_absent_example :
    Post
      (Resolved services as_is body_at
        (in_memory-KeepsMarkers clock codec.0)
        (strip_protocol services as_is (text "gen/1"))
        two_generations)
      (Unresolved services as_is body_at
        (in_memory-KeepsMarkers clock codec.0)
        (strip_protocol services as_is (text "gen/1"))
        two_generations)
      (resolve services as_is (text "gen/1") two_generations)
resolve_absent_example =
    resolve_absent services as_is body_at (in_memory-KeepsMarkers clock codec.0) (text "gen/1")
      two_generations two_generations-IsDense

pin-resolve_example :
    Post
      (λ pinned u.
        (doc : RootDoc) × (pinned ≡ gen_path doc.generation)
        × Resolved services as_is body_at
            (in_memory-KeepsMarkers clock codec.0)
            (strip_protocol services as_is (text "head"))
            two_generations
            doc
            u
        × ((v : InMemoryObjectStore)
            → Later codec.0 body_at u v
            → Post
                (λ r z. Later codec.0 body_at v z × (r ≡ doc))
                (λ e z. (e ≡ external_service) × ⊥)
                (resolve services as_is pinned v)))
      (Unresolved services as_is body_at
        (in_memory-KeepsMarkers clock codec.0)
        (strip_protocol services as_is (text "head"))
        two_generations)
      (pin services as_is (text "head") two_generations)
pin-resolve_example =
    pin-resolve services as_is body_at (in_memory-KeepsMarkers clock codec.0) (λ n. refl)
      (text "head") two_generations two_generations-IsDense
