-- ===== src/Payload/DirectoryInfo.antt =====
-- src/transfer/DirectoryInfoCodec.cpp
use beam_drop.Prelude.{◌≡◌, ◌≢◌, refl, [], ◌∷◌, Bytes}
use beam_drop.Errors.{Result, ok, err, transfer, invalid_payload, ◌>>=◌}

-- `DirectoryInfoCodec::encode`
unfoldable pub encode : Bytes → Result Bytes
encode [] = err (transfer invalid_payload)
encode (c ∷ cs) = ok (c ∷ cs)

-- `DirectoryInfoCodec::decode`
unfoldable pub decode : Bytes → Result Bytes
decode [] = err (transfer invalid_payload)
decode (c ∷ cs) = ok (c ∷ cs)

-- Decoding what was encoded gives the path back, and fails where encoding fails: at the empty path.
decode-encode_directory : (path : Bytes) → (do bytes ← encode path; decode bytes) ≡ decode path
unfolding encode decode
decode-encode_directory [] = refl
decode-encode_directory (c ∷ cs) = refl

pub encode-path : (path payload : Bytes) → encode path ≡ ok payload → payload ≡ path
unfolding encode
encode-path [] payload e = cc e
encode-path (c ∷ cs) payload e = cc

pub decode-path : (path : Bytes) → path ≢ [] → decode path ≡ ok path
unfolding decode
decode-path [] ne = absurd (ne refl)
decode-path (c ∷ cs) ne = refl
