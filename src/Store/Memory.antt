-- ===== src/Store/Memory.antt =====
-- objectstore.py, `InMemoryObjectStore`. Its lock makes each call one step, so a call is a function
-- of the state. A dict is the list of its items in the order of insertion. The time of a write is
-- given by the number of writes before it, by a parameter `clock`.
pub mod Protocol
use ducklake_serverless.Base.{
  ℕ, zero, suc, ◌+◌, ◌/◌, max, Text, Bytes, text, text_eq, strip_prefix, List, [], ◌∷◌, ◌++◌, map,
  filter, take, drop, length, Option, none, some, Bool, true, false, not, ltb, ◌==◌, if◌then◌else◌,
}
use ducklake_serverless.Errors.{
  Result, ok, err, object_not_found, precondition_failed, Exec, pure, raise,
}
use ducklake_serverless.Models.Digits.{pad_digits}
use ducklake_serverless.Models.Pattern.{decimal_char}
use ducklake_serverless.Store.{GetResult, ObjectMeta, ObjectStore}

-- The body, the ETag and the time of the write.
pub record Stored : Type 0 where
  pub body : Bytes
  pub etag : Text
  pub written : ℕ

abbrev pub Objects : Type 0
Objects = List (Text × Stored)

pub record InMemoryObjectStore : Type 0 where
  pub objects : Objects
  pub etag_counter : ℕ

abbrev pub new_store : InMemoryObjectStore
new_store = record { objects = []; etag_counter = 0 }

-- `self._objects.get(key)`
unfoldable pub lookup : Objects → Text → Option Stored
lookup [] key = none
lookup ((k, v) ∷ rest) key = if text_eq k key then some v else lookup rest key

-- `self._objects[key] = v`
unfoldable pub set_object : Text → Stored → Objects → Objects
set_object key v [] = (key, v) ∷ []
set_object key v ((k, u) ∷ rest) =
    if text_eq k key then (k, v) ∷ rest else (k, u) ∷ set_object key v rest

-- `self._objects.pop(key, None)`
unfoldable pub pop_object : Text → Objects → Objects
pop_object key [] = []
pop_object key ((k, u) ∷ rest) = if text_eq k key then rest else (k, u) ∷ pop_object key rest

-- The digits of a number without leading zeros, on fuel.
unfoldable digit_count : ℕ → ℕ → ℕ
digit_count zero n = 1
digit_count (suc f) n = if ltb n 10 then 1 else suc (digit_count f (n / 10))

-- `f"etag-{self._etag_counter:08d}"`
unfoldable pub next_etag : ℕ → Text
unfolding digit_count
next_etag n = text "etag-" ++ map decimal_char (pad_digits 10 (max 8 (digit_count n n)) n)

-- `a <= b` on strings.
unfoldable pub text_le : Text → Text → Bool
text_le [] t = true
text_le (a ∷ s) [] = false
text_le (a ∷ s) (b ∷ t) = if ltb a b then true else if a == b then text_le s t else false

unfoldable insert_item : Text × Stored → Objects → Objects
insert_item item [] = item ∷ []
insert_item item (other ∷ rest) =
    if text_le item.0 other.0 then item ∷ other ∷ rest else other ∷ insert_item item rest

-- `sorted(self._objects.items())`: no two items have one key.
unfoldable pub sorted_items : Objects → Objects
unfolding insert_item
sorted_items [] = []
sorted_items (item ∷ rest) = insert_item item (sorted_items rest)

-- `k.startswith(prefix)`
abbrev pub starts_with : Text → Text × Stored → Bool
starts_with prefix (k, v) = elim (strip_prefix prefix k) [ none ↦ false | some _ ↦ true ]

abbrev pub meta_of : Text × Stored → ObjectMeta
meta_of (k, v) = record { key = k; size = length v.body; last_modified = some v.written }

abbrev result_of : Option Stored → Exec InMemoryObjectStore GetResult
result_of none = raise object_not_found
result_of (some v) = pure (record { body = v.body; etag = v.etag; last_modified = some v.written })

abbrev range_of : ℕ → ℕ → Option Stored → Exec InMemoryObjectStore Bytes
range_of start len none = raise object_not_found
range_of start len (some v) = pure (if len == 0 then [] else take len (drop start v.body))

abbrev head_of : Text → Option Stored → Exec InMemoryObjectStore ObjectMeta
head_of key none = raise object_not_found
head_of key (some v) = pure (meta_of (key, v))

module _ (clock : ℕ → ℕ) where
  -- The part that the three writes share, which gives the new ETag.
  unfoldable pub write_object : Text → Bytes → Exec InMemoryObjectStore Text
  write_object key body s =
      let n = s.etag_counter + 1 in
      (
        ok (next_etag n),
        record {
          objects =
              set_object key (record { body = body; etag = next_etag n; written = clock n })
                s.objects;
          etag_counter = n;
        },
      )

  abbrev create_of : Text → Bytes → Option Stored → Exec InMemoryObjectStore Text
  create_of key body none = write_object key body
  create_of key body (some v) = raise precondition_failed

  -- A missing key is 404, not 412.
  abbrev match_of : Text → Bytes → Text → Option Stored → Exec InMemoryObjectStore Text
  match_of key body etag none = raise object_not_found
  match_of key body etag (some v) =
      if text_eq v.etag etag then write_object key body else raise precondition_failed

  unfoldable pub in_memory : ObjectStore InMemoryObjectStore
  in_memory = record {
    get = λ key s. result_of (lookup s.objects key) s;
    get_range = λ key start len s. range_of start len (lookup s.objects key) s;
    put_if_absent = λ key body s. create_of key body (lookup s.objects key) s;
    put_if_match = λ key body etag s. match_of key body etag (lookup s.objects key) s;
    put = write_object;
    list_prefix = λ prefix s. (
      ok (
          map (λ (item : Text × Stored). item.0)
            (filter (starts_with prefix) (sorted_items s.objects))),
      s,
    );
    list_meta =
        λ prefix s. (ok (map meta_of (filter (starts_with prefix) (sorted_items s.objects))), s);
    head_meta = λ key s. head_of key (lookup s.objects key) s;
    delete = λ key s. (ok tt, record s { objects = pop_object key s.objects });
  }
