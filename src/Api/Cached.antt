-- ===== src/Api/Cached.antt =====
-- That packages/nouns-api keeps to the metadata that it has sent.
use nouns_monorepo.Prelude.{
  ◌≡◌, refl, arith, ap, sym, ◌∙◌, Bool, true, false, List, [], ◌∷◌, Option, none, some, Bool-cases,
  Option-cases, inl, inr,
}
use nouns_monorepo.Sdk.Text.{Text, text_eq, text_eq_iff}
use nouns_monorepo.Api.{
  TokenMetadata, ApiState, Fetched, found, missing, thrown, bad_request, sent, get_metadata_key,
  redis_get, fetched_of, read_cached, cached, store_metadata, json_of, png_of, fetch_metadata,
  get_token_metadata, reply_of, metadata_route, serve,
}

module _ (parse_json : Text → Option TokenMetadata) (print_json : TokenMetadata → Text)
    (data_uri : Text → Option Text) (decode_base64 : Text → Text) (to_png : Text → Option Text)
    (store_blob : Text → Text)
    (parse_json-print_json : (m : TokenMetadata) → parse_json (print_json m) ≡ some m)
    (parse_json_empty : parse_json [] ≡ none) where
  read_printed :
      (t : Text) (m : TokenMetadata)
      → parse_json t ≡ some m
      → read_cached parse_json (some t) ≡ some (found m)
  read_printed [] m h = absurd (ground (arith, sym parse_json_empty ∙ h))
  read_printed (c ∷ t) m h = ap (λ o. some (fetched_of parse_json o)) h

  get-cached :
      (id : Text) (s : ApiState) (a : Fetched)
      → cached parse_json id s ≡ some a
      → get_token_metadata parse_json print_json data_uri decode_base64 to_png store_blob id s
        ≡ (a, s)
  unfolding get_token_metadata
  get-cached id s a h = rw (get_token_metadata, h) refl

  get-fetch :
      (id : Text) (s : ApiState)
      → cached parse_json id s ≡ none
      → get_token_metadata parse_json print_json data_uri decode_base64 to_png store_blob id s
        ≡ fetch_metadata parse_json print_json data_uri decode_base64 to_png store_blob id s
  unfolding get_token_metadata
  get-fetch id s h = rw (get_token_metadata, h) refl

  cached-key :
      (id other : Text) (s : ApiState)
      → text_eq (get_metadata_key id) (get_metadata_key other) ≡ true
      → cached parse_json id s ≡ cached parse_json other s
  unfolding cached
  cached-key id other s h =
      ap (λ k. read_cached parse_json (redis_get k s.redis))
        ((text_eq_iff (get_metadata_key id) (get_metadata_key other)).0 h)

  -- What a store leaves under its key and under the others
  cached-store :
      (id : Text) (json : TokenMetadata) (png : Text) (s : ApiState)
      → cached parse_json id
          (store_metadata parse_json print_json data_uri decode_base64 to_png store_blob id json png
            s).1
        ≡ some
            (store_metadata parse_json print_json data_uri decode_base64 to_png store_blob id json
              png s).0
  unfolding cached redis_get store_metadata
  cached-store id json png s =
      rw ((text_eq_iff (get_metadata_key id) (get_metadata_key id)).1 refl)
        (read_printed _ _ (parse_json-print_json _))

  cached-store_other :
      (id other : Text) (json : TokenMetadata) (png : Text) (s : ApiState)
      → text_eq (get_metadata_key other) (get_metadata_key id) ≡ false
      → cached parse_json id
          (store_metadata parse_json print_json data_uri decode_base64 to_png store_blob other json
            png s).1
        ≡ cached parse_json id s
  unfolding cached redis_get store_metadata
  cached-store_other id other json png s n = rw n refl

  cached-fetch_other :
      (id other : Text) (s : ApiState)
      → text_eq (get_metadata_key other) (get_metadata_key id) ≡ false
      → cached parse_json id
          (fetch_metadata parse_json print_json data_uri decode_base64 to_png store_blob other s).1
        ≡ cached parse_json id s
  unfolding fetch_metadata
  cached-fetch_other id other s n = elim (Option-cases (data_uri other)) [
    | inl e ↦ rw (fetch_metadata, e) refl
    | inr (uri, e) ↦
        elim (Option-cases
          (json_of parse_json print_json data_uri decode_base64 to_png store_blob uri)) [
            | inl f ↦ rw (fetch_metadata, e, f) refl
            | inr (json, f) ↦
                elim (Option-cases
                  (png_of parse_json print_json data_uri decode_base64 to_png store_blob json)) [
                    | inl g ↦ rw (fetch_metadata, e, f, g) refl
                    | inr (png, g) ↦
                        rw (fetch_metadata, e, f, g) (cached-store_other id other json png s n)
                  ]
          ]
  ]

  -- Metadata that are cached stay.
  cached-get_other :
      (id other : Text) (s : ApiState) (m : TokenMetadata)
      → cached parse_json id s ≡ some (found m)
      → cached parse_json id
          (get_token_metadata parse_json print_json data_uri decode_base64 to_png store_blob other
            s).1
        ≡ some (found m)
  cached-get_other id other s m h = elim (Option-cases (cached parse_json other s)) [
    | inr (a, e) ↦ rw (get-cached other s a e) h
    | inl e ↦ elim (Bool-cases (text_eq (get_metadata_key other) (get_metadata_key id))) [
      | inl same ↦ absurd (ground (arith, sym e ∙ cached-key other id s same ∙ h))
      | inr n ↦ rw (get-fetch other s e) (cached-fetch_other id other s n ∙ h)
    ]
  ]

  fetch-no_uri :
      (id : Text) (s : ApiState)
      → data_uri id ≡ none
      → (fetch_metadata parse_json print_json data_uri decode_base64 to_png store_blob id s).0
        ≡ missing
  unfolding fetch_metadata
  fetch-no_uri id s e = rw (fetch_metadata, e) refl

  fetch-no_json :
      (id uri : Text) (s : ApiState)
      → data_uri id ≡ some uri
      → json_of parse_json print_json data_uri decode_base64 to_png store_blob uri ≡ none
      → (fetch_metadata parse_json print_json data_uri decode_base64 to_png store_blob id s).0
        ≡ thrown
  unfolding fetch_metadata
  fetch-no_json id uri s e f = rw (fetch_metadata, e, f) refl

  fetch-no_png :
      (id uri : Text) (json : TokenMetadata) (s : ApiState)
      → data_uri id ≡ some uri
      → json_of parse_json print_json data_uri decode_base64 to_png store_blob uri ≡ some json
      → png_of parse_json print_json data_uri decode_base64 to_png store_blob json ≡ none
      → (fetch_metadata parse_json print_json data_uri decode_base64 to_png store_blob id s).0
        ≡ thrown
  unfolding fetch_metadata
  fetch-no_png id uri json s e f g = rw (fetch_metadata, e, f, g) refl

  fetch-store :
      (id uri : Text) (json : TokenMetadata) (png : Text) (s : ApiState)
      → data_uri id ≡ some uri
      → json_of parse_json print_json data_uri decode_base64 to_png store_blob uri ≡ some json
      → png_of parse_json print_json data_uri decode_base64 to_png store_blob json ≡ some png
      → fetch_metadata parse_json print_json data_uri decode_base64 to_png store_blob id s
        ≡ store_metadata parse_json print_json data_uri decode_base64 to_png store_blob id json png
            s
  unfolding fetch_metadata store_metadata
  fetch-store id uri json png s e f g = rw (fetch_metadata, e, f, g) refl

  cached-fetch :
      (id : Text) (s : ApiState) (m : TokenMetadata)
      → (fetch_metadata parse_json print_json data_uri decode_base64 to_png store_blob id s).0
        ≡ found m
      → cached parse_json id
          (fetch_metadata parse_json print_json data_uri decode_base64 to_png store_blob id s).1
        ≡ some (found m)
  unfolding fetch_metadata cached
  cached-fetch id s m h = elim (Option-cases (data_uri id)) [
    | inl e ↦ absurd (ground (arith, sym (fetch-no_uri id s e) ∙ h))
    | inr (uri, e) ↦
        elim (Option-cases
          (json_of parse_json print_json data_uri decode_base64 to_png store_blob uri)) [
            | inl f ↦ absurd (ground (arith, sym (fetch-no_json id uri s e f) ∙ h))
            | inr (json, f) ↦
                elim (Option-cases
                  (png_of parse_json print_json data_uri decode_base64 to_png store_blob json)) [
                    | inl g ↦ absurd (ground (arith, sym (fetch-no_png id uri json s e f g) ∙ h))
                    | inr (png, g) ↦
                        rw (fetch_metadata, e, f, g)
                          (cached-store id json png s
                            ∙ ap some
                                (sym (ap (λ r. r.0) (fetch-store id uri json png s e f g)) ∙ h))
                  ]
          ]
  ]

  cached-get :
      (id : Text) (s : ApiState) (m : TokenMetadata)
      → (get_token_metadata parse_json print_json data_uri decode_base64 to_png store_blob id s).0
        ≡ found m
      → cached parse_json id
          (get_token_metadata parse_json print_json data_uri decode_base64 to_png store_blob id s).1
        ≡ some (found m)
  cached-get id s m h = elim (Option-cases (cached parse_json id s)) [
    | inl e ↦
        rw (get-fetch id s e) (cached-fetch id s m (sym (ap (λ r. r.0) (get-fetch id s e)) ∙ h))
    | inr (a, e) ↦
        rw (get-cached id s a e) (e ∙ ap some (sym (ap (λ r. r.0) (get-cached id s a e)) ∙ h))
  ]

  route-valid :
      (is_token_id : Text → Bool) (id : Text) (s : ApiState)
      → is_token_id id ≡ true
      → metadata_route parse_json print_json data_uri decode_base64 to_png store_blob is_token_id id
          s
        ≡ (
          reply_of parse_json print_json data_uri decode_base64 to_png store_blob
              (get_token_metadata parse_json print_json data_uri decode_base64 to_png store_blob id
                s).0,
          (get_token_metadata parse_json print_json data_uri decode_base64 to_png store_blob id
              s).1,
        )
  unfolding metadata_route get_token_metadata
  route-valid is_token_id id s v = rw (metadata_route, v) refl

  route-invalid :
      (is_token_id : Text → Bool) (id : Text) (s : ApiState)
      → is_token_id id ≡ false
      → metadata_route parse_json print_json data_uri decode_base64 to_png store_blob is_token_id id
          s
        ≡ (bad_request, s)
  unfolding metadata_route
  route-invalid is_token_id id s v = rw (metadata_route, v) refl

  reply_of-sent :
      (a : Fetched) (m : TokenMetadata)
      → reply_of parse_json print_json data_uri decode_base64 to_png store_blob a ≡ sent m
      → a ≡ found m
  reply_of-sent a m h = ground (arith, h)

  route-sent :
      (is_token_id : Text → Bool) (id : Text) (s : ApiState) (m : TokenMetadata)
      → (metadata_route parse_json print_json data_uri decode_base64 to_png store_blob is_token_id
          id s).0
        ≡ sent m
      → (is_token_id id ≡ true)
        × ((get_token_metadata parse_json print_json data_uri decode_base64 to_png store_blob id
              s).0
            ≡ found m)
  route-sent is_token_id id s m h = elim (Bool-cases (is_token_id id)) [
    | inl v ↦ (v, reply_of-sent _ m (sym (ap (λ r. r.0) (route-valid is_token_id id s v)) ∙ h))
    | inr v ↦ absurd (ground (arith, sym (ap (λ r. r.0) (route-invalid is_token_id id s v)) ∙ h))
  ]

  cached-route_sent :
      (is_token_id : Text → Bool) (id : Text) (s : ApiState) (m : TokenMetadata)
      → is_token_id id ≡ true
      → (get_token_metadata parse_json print_json data_uri decode_base64 to_png store_blob id s).0
        ≡ found m
      → cached parse_json id
          (metadata_route parse_json print_json data_uri decode_base64 to_png store_blob is_token_id
            id s).1
        ≡ some (found m)
  cached-route_sent is_token_id id s m v h =
      rw (route-valid is_token_id id s v) (cached-get id s m h)

  cached-route :
      (is_token_id : Text → Bool) (id other : Text) (s : ApiState) (m : TokenMetadata)
      → cached parse_json id s ≡ some (found m)
      → cached parse_json id
          (metadata_route parse_json print_json data_uri decode_base64 to_png store_blob is_token_id
            other s).1
        ≡ some (found m)
  cached-route is_token_id id other s m h = elim (Bool-cases (is_token_id other)) [
    | inl v ↦ rw (route-valid is_token_id other s v) (cached-get_other id other s m h)
    | inr v ↦ rw (route-invalid is_token_id other s v) h
  ]

  route-cached :
      (is_token_id : Text → Bool) (id : Text) (s : ApiState) (m : TokenMetadata)
      → is_token_id id ≡ true
      → cached parse_json id s ≡ some (found m)
      → metadata_route parse_json print_json data_uri decode_base64 to_png store_blob is_token_id id
          s
        ≡ (sent m, s)
  route-cached is_token_id id s m v h =
      route-valid is_token_id id s v
      ∙ ap (λ r. (reply_of parse_json print_json data_uri decode_base64 to_png store_blob r.0, r.1))
          (get-cached id s (found m) h)

  cached-serve :
      (is_token_id : Text → Bool) (requests : List Text) (id : Text) (s : ApiState)
      (m : TokenMetadata)
      → cached parse_json id s ≡ some (found m)
      → cached parse_json id (
          serve parse_json print_json data_uri decode_base64 to_png store_blob is_token_id requests
            s)
        ≡ some (found m)
  unfolding serve
  cached-serve is_token_id [] id s m h = h
  cached-serve is_token_id (other ∷ requests) id s m h =
      cached-serve is_token_id requests id _ m (cached-route is_token_id id other s m h)

  -- If what is printed as JSON is read back and an empty text is not JSON: metadata that the route
  -- has sent for a token it sends again, and without a change, whatever has been asked in between.
  pub metadata_route-again :
      (is_token_id : Text → Bool) (id : Text) (requests : List Text) (s : ApiState)
      (m : TokenMetadata)
      → (metadata_route parse_json print_json data_uri decode_base64 to_png store_blob is_token_id
          id s).0
        ≡ sent m
      → metadata_route parse_json print_json data_uri decode_base64 to_png store_blob is_token_id id
          (serve parse_json print_json data_uri decode_base64 to_png store_blob is_token_id requests
            (metadata_route parse_json print_json data_uri decode_base64 to_png store_blob
              is_token_id id s).1)
        ≡ (
          sent m,
          serve parse_json print_json data_uri decode_base64 to_png store_blob is_token_id requests
              (metadata_route parse_json print_json data_uri decode_base64 to_png store_blob
                is_token_id id s).1,
        )
  metadata_route-again is_token_id id requests s m h =
      let (valid, got) = route-sent is_token_id id s m h in
      let c =
        cached-serve is_token_id requests id _ m (cached-route_sent is_token_id id s m valid got) in
      route-cached is_token_id id _ m valid c
