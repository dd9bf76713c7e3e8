-- ===== src/Api/Tests.antt =====
-- The theorem about the route at concrete requests.
use nouns_monorepo.Prelude.{◌≡◌, refl, zero, suc, true, [], ◌∷◌, Option, none, some, ◌++◌}
use nouns_monorepo.Sdk.Text.{Text, codes, text_eq}
use nouns_monorepo.Api.{
  TokenMetadata, ApiState, cached, redis_get, get_metadata_key, fetch_metadata, store_metadata,
  get_token_metadata, metadata_route, serve, sent,
}
use nouns_monorepo.Api.Cached.{metadata_route-again}

-- A notation for metadata: each character after a 1, and a 0 at the end of each text
abbrev letters : Text → Text → Text
letters [] rest = 0 ∷ rest
letters (c ∷ t) rest = 1 ∷ c ∷ letters t rest

abbrev read_letters : Text → Text × Text
read_letters [] = ([], [])
read_letters (zero ∷ rest) = ([], rest)
read_letters (suc n ∷ []) = ([], [])
read_letters (suc n ∷ c ∷ t) = let (word, rest) = read_letters t in (c ∷ word, rest)

read_letters-letters : (t rest : Text) → read_letters (letters t rest) ≡ (t, rest)
read_letters-letters [] rest = refl
read_letters-letters (c ∷ t) rest = rw (read_letters-letters t rest) refl

abbrev print_json : TokenMetadata → Text
print_json m = 1 ∷ letters m.name (letters m.description (letters m.image []))

abbrev parse_json : Text → Option TokenMetadata
parse_json [] = none
parse_json (c ∷ t) =
    let (name, r1) = read_letters t in
    let (description, r2) = read_letters r1 in
    let (image, r3) = read_letters r2 in
    some (record { name = name; description = description; image = image })

parse_json-print_json : (m : TokenMetadata) → parse_json (print_json m) ≡ some m
parse_json-print_json m =
    rw
      (
        read_letters-letters m.name (letters m.description (letters m.image [])),
        read_letters-letters m.description (letters m.image []),
        read_letters-letters m.image [],
      )
      refl

-- A token's data, behind a header of 29 characters
abbrev data_uri : Text → Option Text
data_uri id = some (
    codes "data:application/json;base64,"
    ++ print_json
        (record { name = id; description = []; image = codes "data:image/svg+xml;base64,s" }))

abbrev noun : TokenMetadata
noun = record { name = codes "1"; description = []; image = codes "ipfs://s" }

abbrev start : ApiState
start = record { redis = []; blobs = [] }

metadata_route-again_example :
    metadata_route parse_json print_json data_uri
      (λ t. t)
      some
      (λ t. t)
      (λ t. true)
      (codes "1")
      (serve parse_json print_json data_uri
        (λ t. t)
        some
        (λ t. t)
        (λ t. true)
        (codes "2" ∷ [])
        (metadata_route parse_json print_json data_uri
          (λ t. t)
          some
          (λ t. t)
          (λ t. true)
          (codes "1")
          start).1)
    ≡ (
      sent noun,
      serve parse_json print_json data_uri
          (λ t. t)
          some
          (λ t. t)
          (λ t. true)
          (codes "2" ∷ [])
          (metadata_route parse_json print_json data_uri
            (λ t. t)
            some
            (λ t. t)
            (λ t. true)
            (codes "1")
            start).1,
    )
unfolding metadata_route get_token_metadata cached redis_get fetch_metadata store_metadata
    get_metadata_key text_eq
metadata_route-again_example =
    metadata_route-again parse_json print_json data_uri (λ t. t) some (λ t. t) parse_json-print_json
      refl (λ t. true) (codes "1") (codes "2" ∷ []) start noun refl
