-- ===== src/Store/S3/Compat.antt =====
-- scripts/compat_probe.py: what a store does with conditional writes, and the verdict on it. The
-- contenders stand in the order in which their requests take effect, and there are six.
use ducklake_serverless.Base.{
  ℕ, suc, ◌+◌, Text, Bytes, text, Option, none, some, List, [], ◌∷◌, ◌++◌, Bool, false, not, ◌&&◌,
  ◌==◌, if◌then◌else◌, Dict, dict_get, dict_set,
}
use ducklake_serverless.Errors.{Result, ok, err, botocore_error, Exec, pure, ◌>>=◌}
use ducklake_serverless.Store.S3.Client.{
  Outcome, responded, client_error, transport_error, S3Client, Condition, if_none_match, if_match,
  strip_quotes,
}

-- `results`: a status stands for its text, and so does the number of winners.
abbrev pub Results : Type 0
Results = Dict ℕ

pub data Verdict : Type 0 where
  atomic sequential_only ignored mixed broken : Verdict

unfoldable pub has_status : ℕ → Option ℕ → Bool
has_status status none = false
has_status status (some s) = s == status

-- `int(results.get("concurrent_create_winners", "0"))`
unfoldable pub winners_of : Option ℕ → ℕ
winners_of none = 0
winners_of (some n) = n

unfoldable pub verdict_of : Results → Verdict
verdict_of results =
    let fresh_ok = has_status 200 (dict_get (text "create_only_fresh") results) in
    let match_ok = has_status 200 (dict_get (text "if_match_correct") results) in
    let existing = dict_get (text "create_only_existing") results in
    let stale = dict_get (text "if_match_stale") results in
    let winners = winners_of (dict_get (text "concurrent_create_winners") results) in
    if not (fresh_ok && match_ok)
    then broken
    else if has_status 200 existing && has_status 200 stale
    then ignored
    else if has_status 412 existing && has_status 412 stale
    then (if winners == 1 then atomic else sequential_only)
    else mixed

abbrev pub probe_body_1 : Bytes
probe_body_1 = text "{\"probe\": 1}"

abbrev pub probe_body_2 : Bytes
probe_body_2 = text "{\"probe\": 2}"

module _ {W : Type 0} (client : S3Client W) (bucket : Text) where
  -- `put`: a ClientError is a status.
  abbrev pub note_status : Text → Results → Outcome Text × W → Result Results × W
  note_status name results (responded etag, w) = (ok (dict_set name 200 results), w)
  note_status name results (client_error code status, w) = (ok (dict_set name status results), w)
  note_status name results (transport_error, w) = (err botocore_error, w)

  unfoldable pub put_probe : Text → Text → Bytes → Condition → Results → Exec W Results
  put_probe key name body condition results w =
      note_status name results (client.put_object bucket key body condition w)

  -- An outcome of which only the response goes on.
  abbrev pub or_raised : {A : Type 0} → Outcome A × W → Result A × W
  or_raised (responded a, w) = (ok a, w)
  or_raised (client_error code status, w) = (err botocore_error, w)
  or_raised (transport_error, w) = (err botocore_error, w)

  -- The end of one `contend`: an error, of the client or of its thread, is no win.
  abbrev pub count_win : ℕ → Outcome Text → ℕ
  count_win wins (responded etag) = suc wins
  count_win wins (client_error code status) = wins
  count_win wins transport_error = wins

  -- `_concurrent_create_winners`
  unfoldable pub concurrent_create_winners : Text → List ℕ → ℕ → W → ℕ × W
  concurrent_create_winners key [] wins w = (wins, w)
  concurrent_create_winners key (writer_id ∷ racers) wins w =
      let (o, v) =
        client.put_object bucket key (text "w" ++ (48 + writer_id) ∷ []) if_none_match w in
      concurrent_create_winners key racers (count_win wins o) v

  abbrev pub six_racers : List ℕ
  six_racers = 0 ∷ 1 ∷ 2 ∷ 3 ∷ 4 ∷ 5 ∷ []

  unfoldable pub probe : Text → Exec W Results
  probe key = do
    fresh ← put_probe key (text "create_only_fresh") probe_body_1 if_none_match []
    existing ← put_probe key (text "create_only_existing") probe_body_1 if_none_match fresh
    head ← λ w. or_raised (client.head_object bucket key w)
    correct ←
        put_probe key (text "if_match_correct") probe_body_2 (if_match (strip_quotes head.etag))
          existing
    stale ←
        put_probe key (text "if_match_stale") probe_body_2 (if_match (strip_quotes head.etag))
          correct
    _ ← λ w. or_raised (client.delete_object bucket key w)
    winners ← λ w.
        (let (n, v) = concurrent_create_winners (key ++ text "-conc") six_racers 0 w in (ok n, v))
    _ ← λ w. or_raised (client.delete_object bucket (key ++ text "-conc") w)
    pure (dict_set (text "concurrent_create_winners") winners stale)
