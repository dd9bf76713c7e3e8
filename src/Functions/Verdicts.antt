-- ===== src/Functions/Verdicts.antt =====
-- What the answers of v0-verify-signature say.
use nouns_monorepo.Prelude.{
  ℕ, ◌≡◌, Bool, true, false, ◌&&◌, List, [], ◌∷◌, if◌then◌else◌, Option, none, some, >>=-some, ap,
  sym,
}
use nouns_monorepo.Sdk.Text.{Text}
use nouns_monorepo.Functions.Nouns.{GqlNoun}
use nouns_monorepo.Functions.Votes.{Response}
use nouns_monorepo.Functions.Signatures.{
  Signed, Answer, refused, verified, is_signer, participants, verify, verify_signature_handler,
  invalid_body_check,
}

abbrev pub is_blank : Option Text → Bool
is_blank none = true
is_blank (some []) = true
is_blank (some (c ∷ t)) = false

abbrev body_or : Answer → Option (Response Answer) → Answer
body_or a none = a
body_or a (some r) = r.body

abbrev status_or : ℕ → Option (Response Answer) → ℕ
status_or n none = n
status_or n (some r) = r.status_code

module _ (big_number_from : Text → Option ℕ) (parse_json : Text → Option Signed)
    (verify_message : Option Text → Option Text → Option Text) where
  -- The verdict is on the address that the signature gives, and tells of participation only if it
  -- is asked to and the signer is that address.
  pub IsSound : Bool → Answer → Type 0
  IsSound fetch_participation (refused reason) = Unit
  IsSound fetch_participation (verified v) =
      (verify_message v.signed.message v.signed.signature ≡ some v.recovered_address)
      × (is_signer big_number_from parse_json verify_message v.signed.signer v.recovered_address
          ≡ some v.valid_signature)
      × ((fetch_participation && v.valid_signature) ≡ false → v.participation ≡ none)

  verify_status :
      (fetch_participation : Bool) (signed : Signed) (answer : List GqlNoun) (r : Response Answer)
      → verify big_number_from parse_json verify_message fetch_participation signed answer ≡ some r
      → r.status_code ≡ 200
  unfolding verify
  verify_status fetch_participation signed answer r h =
      let (recovered, m, h1) = >>=-some (verify_message signed.message signed.signature) _ r h in
      let (valid, s, h2) =
        >>=-some (is_signer big_number_from parse_json verify_message signed.signer recovered) _ r
          h1 in
      let (found, f, h3) =
        >>=-some
          (participants big_number_from parse_json verify_message (fetch_participation && valid)
            signed.signer answer)
          _ r h2 in
      sym (ap (status_or 0) h3)

  -- Whenever the handler answers, the status is 400 for a body that is missing or empty and 200
  -- for every other one.
  pub verify_signature_handler_status :
      (body : Option Text) (fetch_participation : Bool) (answer : List GqlNoun)
      (r : Response Answer)
      → verify_signature_handler big_number_from parse_json verify_message body fetch_participation
          answer
        ≡ some r
      → r.status_code ≡ (if is_blank body then 400 else 200)
  unfolding verify_signature_handler invalid_body_check
  verify_signature_handler_status none fetch_participation answer r h = sym (ap (status_or 0) h)
  verify_signature_handler_status (some []) fetch_participation answer r h =
      sym (ap (status_or 0) h)
  verify_signature_handler_status (some (c ∷ t)) fetch_participation answer r h =
      let (signed, p, v) =
        >>=-some (parse_json (c ∷ t))
          (λ signed.
            verify big_number_from parse_json verify_message fetch_participation signed answer)
          r h in
      verify_status fetch_participation signed answer r v
