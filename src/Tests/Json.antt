-- ===== src/Tests/Json.antt =====
-- A JSON encoding to run the model on: each list is written behind its length, each value behind
-- the number of its kind.
use ducklake_serverless.Base.{
  ℕ, zero, suc, ◌≡◌, refl, List, [], ◌∷◌, ◌++◌, length, take, drop, take-append_left,
  drop-append_left, Text, Bytes, Option, none, some,
}
use ducklake_serverless.Models.Pattern.{◌>>=◌}
use ducklake_serverless.Models.RootDoc.{
  Json, number, string, uuid, time, writer_object, string_map, Fields, JsonBytes, IsFaithful,
}

unfoldable put_text : Text → Bytes → Bytes
put_text t rest = length t ∷ (t ++ rest)

unfoldable get_text : Bytes → Option (Text × Bytes)
get_text [] = none
get_text (n ∷ s) = some (take n s, drop n s)

unfoldable put_map : List (Text × Text) → Bytes → Bytes
put_map [] rest = rest
put_map ((k, v) ∷ m) rest = put_text k (put_text v (put_map m rest))

unfoldable get_map : ℕ → Bytes → Option (List (Text × Text) × Bytes)
get_map zero s = some ([], s)
get_map (suc n) s = do
  (k, s₁) ← get_text s
  (v, s₂) ← get_text s₁
  (m, rest) ← get_map n s₂
  some ((k, v) ∷ m, rest)

unfoldable put_json : Json → Bytes → Bytes
put_json (number n) rest = 0 ∷ n ∷ rest
put_json (string t) rest = 1 ∷ put_text t rest
put_json (uuid u) rest = 2 ∷ u.time_low ∷ u.time_mid ∷ u.time_hi ∷ u.clock_seq ∷ u.node ∷ rest
put_json (time t) rest = 3 ∷ t ∷ rest
put_json (writer_object w) rest = 4 ∷ put_text w.lib_version (put_text w.host (w.pid ∷ rest))
put_json (string_map m) rest = 5 ∷ length m ∷ put_map m rest

unfoldable get_pid : Text → Text → Bytes → Option (Json × Bytes)
get_pid v h [] = none
get_pid v h (pid ∷ rest) =
    some (writer_object (record { lib_version = v; host = h; pid = pid }), rest)

unfoldable get_json : Bytes → Option (Json × Bytes)
get_json (zero ∷ n ∷ rest) = some (number n, rest)
get_json (suc zero ∷ s) = do (t, rest) ← get_text s; some (string t, rest)
get_json (suc (suc zero) ∷ a ∷ b ∷ c ∷ d ∷ e ∷ rest) =
    some (uuid (record { time_low = a; time_mid = b; time_hi = c; clock_seq = d; node = e }), rest)
get_json (suc (suc (suc zero)) ∷ t ∷ rest) = some (time t, rest)
get_json (suc (suc (suc (suc zero))) ∷ s) = do
  (v, s₁) ← get_text s
  (h, s₂) ← get_text s₁
  get_pid v h s₂
get_json (suc (suc (suc (suc (suc zero)))) ∷ n ∷ s) = do
  (m, rest) ← get_map n s
  some (string_map m, rest)
get_json _ = none

unfoldable put_fields : Fields → Bytes
put_fields [] = []
put_fields ((k, v) ∷ fields) = put_text k (put_json v (put_fields fields))

unfoldable get_fields : ℕ → Bytes → Option Fields
get_fields zero s = some []
get_fields (suc n) s = do
  (k, s₁) ← get_text s
  (v, s₂) ← get_json s₁
  fields ← get_fields n s₂
  some ((k, v) ∷ fields)

unfoldable loads : Bytes → Option Fields
loads [] = none
loads (n ∷ s) = get_fields n s

unfoldable dumps : Fields → Bytes
dumps fields = length fields ∷ put_fields fields

get_text-put_text : (t : Text) (rest : Bytes) → get_text (put_text t rest) ≡ some (t, rest)
unfolding get_text put_text
get_text-put_text t rest = simp (take-append_left, drop-append_left)

get_map-put_map :
    (m : List (Text × Text)) (rest : Bytes) → get_map (length m) (put_map m rest) ≡ some (m, rest)
unfolding get_map put_map
get_map-put_map [] rest = refl
get_map-put_map ((k, v) ∷ m) rest = simp (get_text-put_text, get_map-put_map m rest)

get_json-put_json : (j : Json) (rest : Bytes) → get_json (put_json j rest) ≡ some (j, rest)
unfolding get_json put_json get_pid
get_json-put_json (number n) rest = refl
get_json-put_json (string t) rest = simp get_text-put_text
get_json-put_json (uuid u) rest = refl
get_json-put_json (time t) rest = refl
get_json-put_json (writer_object w) rest = simp get_text-put_text
get_json-put_json (string_map m) rest = simp get_map-put_map

get_fields-put_fields :
    (fields : Fields) → get_fields (length fields) (put_fields fields) ≡ some fields
unfolding get_fields put_fields
get_fields-put_fields [] = refl
get_fields-put_fields ((k, v) ∷ fields) =
    simp (get_text-put_text, get_json-put_json, get_fields-put_fields fields)

pub codec : (json : JsonBytes) × IsFaithful json
unfolding loads dumps
codec = (record { dumps = dumps; loads = loads }, get_fields-put_fields)
