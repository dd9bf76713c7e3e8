-- ===== src/Api.antt =====
-- packages/nouns-api/src/utils.ts and api.ts: a token's metadata, and the route that answers with
-- them. The token's contract, the texts and pictures in it, the names that the storage gives and the
-- check of the route's parameter are parameters; the store of keys is a list, the latest entry first.
pub mod Cached
mod Tests
use nouns_monorepo.Prelude.{
  Bool, true, false, not, List, [], ◌∷◌, ◌++◌, drop, if◌then◌else◌, Option, none, some,
}
use nouns_monorepo.Sdk.Text.{Text, codes, text_eq}

pub record TokenMetadata : Type 0 where
  pub name : Text
  pub description : Text
  pub image : Text

-- The store of keys, and the pictures that have been stored
pub record ApiState : Type 0 where
  pub redis : List (Text × Text)
  pub blobs : List Text

-- What a promise comes to: metadata, undefined or an error
pub data Fetched : Type 0 where
  found : TokenMetadata → Fetched
  missing : Fetched
  thrown : Fetched

pub data Reply : Type 0 where
  bad_request : Reply
  failed : Reply
  sent : TokenMetadata → Reply
  no_reply : Reply

unfoldable pub get_metadata_key : Text → Text
get_metadata_key token_id = codes "metadata_" ++ token_id

unfoldable pub redis_get : Text → List (Text × Text) → Option Text
unfolding text_eq
redis_get key [] = none
redis_get key ((k, v) ∷ rest) = if text_eq k key then some v else redis_get key rest

module _ (parse_json : Text → Option TokenMetadata) where
  abbrev pub fetched_of : Option TokenMetadata → Fetched
  fetched_of none = thrown
  fetched_of (some m) = found m

  -- An empty text counts as none.
  abbrev pub read_cached : Option Text → Option Fetched
  read_cached none = none
  read_cached (some []) = none
  read_cached (some (c ∷ t)) = some (fetched_of (parse_json (c ∷ t)))

  unfoldable pub cached : Text → ApiState → Option Fetched
  unfolding redis_get get_metadata_key
  cached token_id s = read_cached (redis_get (get_metadata_key token_id) s.redis)

  module _ (print_json : TokenMetadata → Text) (data_uri : Text → Option Text)
      (decode_base64 : Text → Text) (to_png : Text → Option Text) (store_blob : Text → Text) where
    -- The picture is stored, and the metadata that name it are kept under the key.
    unfoldable pub store_metadata : Text → TokenMetadata → Text → ApiState → Fetched × ApiState
    unfolding get_metadata_key
    store_metadata token_id json png s =
        let metadata : TokenMetadata = record {
          name = json.name;
          description = json.description;
          image = codes "ipfs://" ++ store_blob png;
        } in
        (
          found metadata,
          record {
            redis = (get_metadata_key token_id, print_json metadata) ∷ s.redis;
            blobs = png ∷ s.blobs;
          },
        )

    abbrev pub json_of : Text → Option TokenMetadata
    json_of uri = parse_json (decode_base64 (drop 29 uri))

    abbrev pub png_of : TokenMetadata → Option Text
    png_of json = to_png (decode_base64 (drop 26 json.image))

    unfoldable pub fetch_metadata : Text → ApiState → Fetched × ApiState
    unfolding store_metadata
    fetch_metadata token_id s = elim (data_uri token_id) [
      | none ↦ (missing, s)
      | some uri ↦ elim (json_of uri) [
        | none ↦ (thrown, s)
        | some json ↦ elim (png_of json) [
          | none ↦ (thrown, s)
          | some png ↦ store_metadata token_id json png s
        ]
      ]
    ]

    unfoldable pub get_token_metadata : Text → ApiState → Fetched × ApiState
    unfolding cached fetch_metadata
    get_token_metadata token_id s = elim (cached token_id s) [
      | some answer ↦ (answer, s)
      | none ↦ fetch_metadata token_id s
    ]

    abbrev pub reply_of : Fetched → Reply
    reply_of (found m) = sent m
    reply_of missing = failed
    reply_of thrown = no_reply

    -- The route /metadata/:tokenId
    unfoldable pub metadata_route : (Text → Bool) → Text → ApiState → Reply × ApiState
    unfolding get_token_metadata
    metadata_route is_token_id token_id s =
        if not (is_token_id token_id)
        then (bad_request, s)
        else let (answer, after) = get_token_metadata token_id s in (reply_of answer, after)

    -- The state after requests, one after another
    unfoldable pub serve : (Text → Bool) → List Text → ApiState → ApiState
    unfolding metadata_route
    serve is_token_id [] s = s
    serve is_token_id (token_id ∷ requests) s =
        serve is_token_id requests (metadata_route is_token_id token_id s).1
