-- ===== src/Fsspec/Values.antt =====
-- fsspec_fs.py: what the calls of the filesystem take and return.
use ducklake_serverless.Base.{
  ℕ, zero, suc, ℤ, pos, negsuc, ◌+ℤ◌, to_nat, Text, text, text_eq, Option, none, some, List, [],
  ◌∷◌, map, Bool, true, false, ◌||◌, leb, Dict,
}
use ducklake_serverless.Models.RootDoc.{Transport}
use ducklake_serverless.Fsspec.Reader.{RangeReader}

-- What `info` says of a path.
pub data Info : Type 0 where
  directory : Text → Info
  generation_file : Text → ℕ → ℕ → Transport → Text → Info

unfoldable pub info_name : Info → Text
info_name (directory name) = name
info_name (generation_file name size generation transport etag) = name

-- `ls` with `detail` and without.
pub data Listing : Type 0 where
  details : List Info → Listing
  names : List Text → Listing

unfoldable pub listing : Bool → List Info → Listing
listing true entries = details entries
listing false entries = names (map info_name entries)

-- One offset for all paths, or one for each.
pub data Offsets : Type 0 where
  one : ℤ → Offsets
  each : List ℤ → Offsets

-- `[starts] * len(paths)`
unfoldable pub offsets_list : Offsets → ℕ → List ℤ
offsets_list (each offsets) n = offsets
offsets_list (one i) zero = []
offsets_list (one i) (suc n) = i ∷ offsets_list (one i) n

-- `zip(paths, starts_list, ends_list)`
unfoldable pub ranges_of : List Text → List ℤ → List ℤ → List (Text × ℤ × ℤ)
ranges_of (p ∷ paths) (s ∷ starts) (e ∷ ends) = (p, s, e) ∷ ranges_of paths starts ends
ranges_of _ _ _ = []

-- The memo: a reader for each key of a payload.
abbrev pub Readers : Type 0
Readers = Dict RangeReader

-- `range(count)`, from `g` on.
unfoldable pub range_from : ℕ → ℕ → List ℕ
range_from g zero = []
range_from g (suc count) = g ∷ range_from (suc g) count

-- `name in ("", "gen")`
unfoldable pub is_directory : Text → Bool
is_directory name = text_eq name [] || text_eq name (text "gen")

-- A slice's bound, as Python reads it: from the end where it is negative.
unfoldable pub slice_start : Option ℤ → ℕ → ℕ
slice_start none size = 0
slice_start (some (pos n)) size = n
slice_start (some (negsuc n)) size = to_nat (pos size +ℤ negsuc n)

unfoldable pub slice_end : Option ℤ → ℕ → ℤ
slice_end none size = pos size
slice_end (some (pos n)) size = pos n
slice_end (some (negsuc n)) size = pos size +ℤ negsuc n

-- `e <= s`, with a start that is never negative.
unfoldable pub ends_by : ℤ → ℕ → Bool
ends_by (pos e) s = leb e s
ends_by (negsuc e) s = true
