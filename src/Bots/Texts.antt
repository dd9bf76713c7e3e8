-- ===== src/Bots/Texts.antt =====
-- The messages' texts, from packages/nouns-bots/src/utils.ts.
use nouns_monorepo.Prelude.{
  ℕ, ◌+◌, ◌-◌, ◌&&◌, leb, ltb, [], ◌∷◌, ◌++◌, if◌then◌else◌, length, map, drop, take, Option, none,
  some,
}
use nouns_monorepo.Sdk.Text.{Text, codes, decimal}
use nouns_monorepo.Bots.Types.{
  Bid, Proposal, Vote, VoteDirection, for, against, abstain, extract_proposal_title,
}

-- `substr(length - 4)` counts from the end if the number is negative, and no further than the start.
unfoldable pub short_address : Text → Text
short_address a =
    let n = length a in take 4 a ++ (codes "..." ++ drop (if ltb n 4 then n + n - 4 else n - 4) a)

unfoldable pub vote_direction_to_text : VoteDirection → Text
vote_direction_to_text for = codes "for"
vote_direction_to_text against = codes "against"
vote_direction_to_text abstain = codes "to abstain on"

abbrev lower : ℕ → ℕ
lower c = if leb b'A' c && leb c b'Z' then c + 32 else c

unfoldable pub format_auction_started_tweet_text : ℕ → Text
unfolding decimal
format_auction_started_tweet_text id =
    codes "＊Bleep Bloop Blop＊\n        \n An auction has started for Noun #"
    ++ (decimal id ++ codes "\n Learn more at https://nouns.wtf")

abbrev pub auction_ending_soon_tweet_text : Text
auction_ending_soon_tweet_text = codes "This auction is ending soon! Bid now at https://nouns.wtf"

unfoldable pub format_new_governance_proposal_text : Proposal → Text
unfolding decimal extract_proposal_title
format_new_governance_proposal_text p =
    codes "A new NounsDAO proposal (#"
    ++ (decimal p.id ++ (codes ") has been created: " ++ extract_proposal_title p))

unfoldable pub format_updated_governance_proposal_status_text : Proposal → Text
unfolding decimal extract_proposal_title
format_updated_governance_proposal_status_text p =
    codes "Nouns DAO proposal #"
    ++ (decimal p.id
        ++ (codes " ("
            ++ (extract_proposal_title p
                ++ (codes ") has changed to status: " ++ map lower p.status))))

unfoldable pub format_proposal_at_risk_of_expiry_text : Proposal → Text
unfolding decimal extract_proposal_title
format_proposal_at_risk_of_expiry_text p =
    codes "Nouns DAO proposal #"
    ++ (decimal p.id
        ++ (codes " ("
            ++ (extract_proposal_title p
                ++ codes ") expires in less than two days. Please execute it immediately!")))

-- A reason that is missing or empty is left out.
unfoldable pub reason_text : Option Text → Text
reason_text none = []
reason_text (some []) = []
reason_text (some (c ∷ t)) = codes "\n\nReason: " ++ c ∷ t

-- The name service gives an address's name, if it has one; ethers prints an amount.
module _ (lookup_address : Text → Option Text) (format_ether : Text → Text) where
  unfoldable pub resolve_ens_or_format_address : Text → Text
  unfolding short_address
  resolve_ens_or_format_address a = elim (lookup_address a) [
    | none ↦ short_address a
    | some [] ↦ short_address a
    | some (c ∷ t) ↦ c ∷ t
  ]

  unfoldable pub format_bid_message_text : ℕ → Bid → Text
  unfolding decimal resolve_ens_or_format_address
  format_bid_message_text id bid =
      codes "Noun "
      ++ (decimal id
          ++ (codes " has received a bid of Ξ"
              ++ (format_ether bid.amount
                  ++ (codes " from " ++ resolve_ens_or_format_address bid.bidder.id))))

  unfoldable pub format_new_governance_vote_text : Proposal → Vote → Text
  unfolding decimal resolve_ens_or_format_address vote_direction_to_text reason_text
      extract_proposal_title
  format_new_governance_vote_text p v =
      resolve_ens_or_format_address v.voter.id
      ++ (codes " has voted "
          ++ (vote_direction_to_text v.support_detailed
              ++ (codes " Proposal #"
                  ++ (decimal p.id
                      ++ (codes " ("
                          ++ (extract_proposal_title p ++ (codes ")" ++ reason_text v.reason)))))))
