-- ===== src/Functions/Signatures.antt =====
-- packages/nouns-webapp/functions/v0-verify-signature: who signed a message, and whether the signer
-- takes part. The body's parsing and the recovery of the address are parameters.
use Prim.Native.String.{String}
use nouns_monorepo.Prelude.{ℕ, Bool, true, false, ◌&&◌, List, [], ◌∷◌, Option, none, some, ◌>>=◌}
use nouns_monorepo.Sdk.Text.{Text}
use nouns_monorepo.Functions.Nouns.{
  GqlNoun, normalize_nouns, big_numbers_equal, is_noun_owner, is_noun_delegate,
}
use nouns_monorepo.Functions.Votes.{Response, ok_json}

pub record ErrorReason : Type 0 where
  pub error : String
  pub reason : String

-- The body's text; no body is `none`.
unfoldable pub invalid_body_check : Option Text → Option ErrorReason
invalid_body_check none =
    some (record { error = "empty_body"; reason = "Request body is missing or empty" })
invalid_body_check (some []) =
    some (record { error = "empty_body"; reason = "Request body is missing or empty" })
-- `has('msg')` without an object is a function, so that `!has('msg')` is false: as the two others.
invalid_body_check (some (c ∷ t)) = none

pub record Signed : Type 0 where
  pub message : Option Text
  pub signature : Option Text
  pub signer : Option Text

pub record Participation : Type 0 where
  pub noun_delegate : Bool
  pub noun_owner : Bool

pub record Verdict : Type 0 where
  pub signed : Signed
  pub recovered_address : Text
  pub valid_signature : Bool
  pub participation : Option Participation

pub data Answer : Type 0 where
  refused : ErrorReason → Answer
  verified : Verdict → Answer

module _ (big_number_from : Text → Option ℕ) (parse_json : Text → Option Signed)
    (verify_message : Option Text → Option Text → Option Text) where
  -- `BigNumber.from(undefined)` throws.
  unfoldable pub is_signer : Option Text → Text → Option Bool
  unfolding big_numbers_equal
  is_signer none recovered = none
  is_signer (some signer) recovered = big_numbers_equal big_number_from signer recovered

  unfoldable pub participation_of : Option Text → List GqlNoun → Option Participation
  unfolding normalize_nouns is_noun_owner is_noun_delegate
  participation_of none answer = none
  participation_of (some signer) answer = do
    represents ← is_noun_delegate big_number_from signer (normalize_nouns answer)
    owns ← is_noun_owner big_number_from signer (normalize_nouns answer)
    some (record { noun_delegate = represents; noun_owner = owns })

  -- The participation is asked for, and the signature valid.
  unfoldable pub participants : Bool → Option Text → List GqlNoun → Option (Option Participation)
  unfolding participation_of
  participants false signer answer = some none
  participants true signer answer = do found ← participation_of signer answer; some (some found)

  abbrev verdict : Signed → Text → Bool → Option Participation → Response Answer
  verdict signed recovered valid found = ok_json (
      verified (record {
        signed = signed;
        recovered_address = recovered;
        valid_signature = valid;
        participation = found;
      }))

  unfoldable pub verify : Bool → Signed → List GqlNoun → Option (Response Answer)
  unfolding is_signer participants
  verify fetch_participation signed answer = do
    recovered ← verify_message signed.message signed.signature
    valid ← is_signer signed.signer recovered
    found ← participants (fetch_participation && valid) signed.signer answer
    some (verdict signed recovered valid found)

  abbrev refusal : ErrorReason → Response Answer
  refusal reason = record {
    status_code = 400;
    allowed_origin = none;
    content_type = none;
    body = refused reason;
  }

  abbrev pub text_of : Option Text → Text
  text_of none = []
  text_of (some t) = t

  -- `none` where the handler throws.
  unfoldable pub verify_signature_handler :
      Option Text → Bool → List GqlNoun → Option (Response Answer)
  unfolding invalid_body_check verify
  verify_signature_handler body fetch_participation answer = elim (invalid_body_check body) [
    | some reason ↦ some (refusal reason)
    | none ↦ do signed ← parse_json (text_of body); verify fetch_participation signed answer
  ]
