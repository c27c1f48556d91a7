-- ===== src/Store/S3/Keeps.antt =====
-- The S3 store keeps the laws that the commit protocol needs, if the client does what S3 documents.
use ducklake_serverless.Base.{◌≡◌, ◌⊎◌, Text, Bytes, text, Option, none, some}
use ducklake_serverless.Models.RootDoc.{RootDoc, JsonBytes}
use ducklake_serverless.Store.Markers.{IsDense, Later, IsNoMarker, IsNext}
use ducklake_serverless.Store.S3.{full}
use ducklake_serverless.Store.S3.Client.{S3Client, unconditional, if_none_match}
use ducklake_serverless.Store.S3.Answers.{Ended, IsNoSuchKey, IsWriteError}

module _ {W : Type 0} (json : JsonBytes) (client : S3Client W) (bucket prefix : Text)
    (object_at : W → Text → Option Bytes) where
  -- The object of a key of the store.
  abbrev pub body_at : W → Text → Option Bytes
  body_at w key = object_at w (full client bucket prefix key)

  abbrev Next : W → W → Type 0
  Next = Later json body_at

  -- What S3 documents, and what the clients of one lake keep among themselves, for the requests
  -- under the prefix. No GET and no HEAD loses its connection.
  pub record S3Keeps (Fails : Type 0) : Type 0 where
    pub get_keeps :
        (key : Text) (w : W)
        → IsDense json body_at w
        → Ended
            (λ r w'. Next w w' × (b : Bytes) × (r.body ≡ some b) × (body_at w' key ≡ some b))
            (λ code status w'.
              Next w w'
              × (((code ≡ text "NoSuchKey") × (body_at w' key ≡ none))
                  ⊎ ((¬ IsNoSuchKey code) × Fails)))
            (λ w'. ⊥)
            (client.get_object bucket (full client bucket prefix key) none w)
    pub head_keeps :
        (key : Text) (w : W)
        → IsDense json body_at w
        → Ended
            (λ r w'. Next w w')
            (λ code status w'. Next w w' × ((status ≡ 404) ⊎ Fails))
            (λ w'. ⊥)
            (client.head_object bucket (full client bucket prefix key) w)
    pub put_keeps :
        (key : Text) (b : Bytes) (w : W)
        → IsNoMarker json body_at key
        → IsDense json body_at w
        → Ended
            (λ r w'. Next w w')
            (λ code status w'. Next w w' × Fails)
            (λ w'. Next w w' × Fails)
            (client.put_object bucket (full client bucket prefix key) b unconditional w)
    pub create_keeps :
        (key : Text) (b : Bytes) (w : W)
        → IsNoMarker json body_at key
        → IsDense json body_at w
        → Ended
            (λ r w'. Next w w')
            (λ code status w'. Next w w' × IsWriteError Fails code status)
            (λ w'. Next w w')
            (client.put_object bucket (full client bucket prefix key) b if_none_match w)
    pub create_marker_keeps :
        (key : Text) (b : Bytes) (w : W) (doc : RootDoc)
        → IsNext json body_at w key b doc
        → IsDense json body_at w
        → Ended
            (λ r w'. Next w w' × (body_at w key ≡ none) × (body_at w' key ≡ some b))
            (λ code status w'. Next w w' × IsWriteError Fails code status)
            (λ w'. Next w w')
            (client.put_object bucket (full client bucket prefix key) b if_none_match w)
