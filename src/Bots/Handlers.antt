-- ===== src/Bots/Handlers.antt =====
-- packages/nouns-bots/src/handlers: what the two kinds of handlers send. The services are
-- parameters: the picture of a noun, if it can be fetched, the id that Twitter gives a message, the
-- name service, and the printing of an amount.
use nouns_monorepo.Prelude.{ℕ, List, [], ◌∷◌, ◌++◌, Option, none, some}
use nouns_monorepo.Sdk.Text.{Text, codes, decimal}
use nouns_monorepo.Bots.Types.{Bid, Proposal, Vote}
use nouns_monorepo.Bots.Cache.{Cache, get_auction_reply_tweet_id, update_auction_reply_tweet_id}
use nouns_monorepo.Bots.Texts.{
  format_auction_started_tweet_text, auction_ending_soon_tweet_text,
  format_new_governance_proposal_text, format_updated_governance_proposal_status_text,
  format_proposal_at_risk_of_expiry_text, format_bid_message_text, format_new_governance_vote_text,
}

pub record Embed : Type 0 where
  pub title : Text
  pub url : Text
  pub description : Text
  pub noun_id : Option ℕ
  pub image : Option Text

pub data Message : Type 0 where
  -- a tweet with a picture
  tweeted : Text → Text → Message
  -- a reply and the id of the tweet that it replies to
  replied : Text → Text → Message
  -- an embed that a webhook has sent
  posted : ℕ → Embed → Message

pub record Services : Type 0 where
  pub noun_png_buffer : Text → Option Text
  pub message_id : List Message → Text
  pub lookup_address : Text → Option Text
  pub format_ether : Text → Text

-- The cache, the messages that have been sent, the latest first, and the names of the counters
-- that have been incremented.
pub record Bots : Type 0 where
  pub cache : Cache
  pub sent : List Message
  pub counted : List Text

pub data Handler : Type 0 where
  twitter : Handler
  discord : List ℕ → Handler

unfoldable pub post_all : List ℕ → Embed → Bots → Bots
post_all [] embed s = s
post_all (c ∷ cs) embed s = post_all cs embed (record s { sent = posted c embed ∷ s.sent })

abbrev embed_of : Text → Text → Text → Embed
embed_of title url text = record {
  title = title;
  url = url;
  description = text;
  noun_id = none;
  image = none;
}

abbrev proposal_url : Proposal → Text
proposal_url p = codes "https://nouns.wtf/vote/" ++ decimal p.id

module _ (w : Services) where
  -- Twitter: send a message, and keep its id for the next reply.
  unfoldable pub tweet : Message → Bots → Bots
  unfolding update_auction_reply_tweet_id
  tweet m s =
      let sent = m ∷ s.sent in
      record s { sent = sent; cache = update_auction_reply_tweet_id (w.message_id sent) s.cache }

  -- A reply is sent only if there is an id to reply to.
  unfoldable pub tweet_reply : Text → Bots → Bots
  unfolding tweet get_auction_reply_tweet_id
  tweet_reply text s = elim (get_auction_reply_tweet_id s.cache) [
    | none ↦ s
    | some [] ↦ s
    | some (c ∷ t) ↦ tweet (replied text (c ∷ t)) s
  ]

  unfoldable pub handle_new_auction : Handler → ℕ → Bots → Bots
  unfolding tweet post_all format_auction_started_tweet_text decimal
  handle_new_auction twitter id s = elim (w.noun_png_buffer (decimal id)) [
    | none ↦ s
    | some png ↦ tweet (tweeted (format_auction_started_tweet_text id) png) s
  ]
  handle_new_auction (discord clients) id s = elim (w.noun_png_buffer (decimal id)) [
    | none ↦ s
    | some png ↦
        post_all clients
          (record {
            title = codes "New Auction Discovered";
            url = codes "https://nouns.wtf";
            description = codes "An auction has started for Noun #" ++ decimal id;
            noun_id = some id;
            image = some (codes "attachment://Auction-" ++ (decimal id ++ codes ".png"));
          })
          s
  ]

  unfoldable pub handle_new_bid : Handler → ℕ → Bid → Bots → Bots
  unfolding tweet_reply post_all format_bid_message_text
  handle_new_bid twitter id bid s =
      tweet_reply (format_bid_message_text w.lookup_address w.format_ether id bid) s
  handle_new_bid (discord clients) id bid s =
      post_all clients
        (embed_of (codes "New Bid Placed") (codes "https://nouns.wtf")
          (format_bid_message_text w.lookup_address w.format_ether id bid))
        s

  -- The Discord handler has no such method.
  unfoldable pub handle_auction_ending_soon : Handler → ℕ → Bots → Bots
  unfolding tweet_reply
  handle_auction_ending_soon twitter id s = tweet_reply auction_ending_soon_tweet_text s
  handle_auction_ending_soon (discord clients) id s = s

  -- The Twitter handler has none of the following.
  unfoldable pub handle_new_proposal : Handler → Proposal → Bots → Bots
  unfolding post_all format_new_governance_proposal_text decimal
  handle_new_proposal twitter p s = s
  handle_new_proposal (discord clients) p s =
      post_all clients
        (embed_of (codes "New Governance Proposal") (proposal_url p)
          (format_new_governance_proposal_text p))
        s

  unfoldable pub handle_updated_proposal_status : Handler → Proposal → Bots → Bots
  unfolding post_all format_updated_governance_proposal_status_text decimal
  handle_updated_proposal_status twitter p s = s
  handle_updated_proposal_status (discord clients) p s =
      post_all clients
        (embed_of (codes "Proposal Status Update") (proposal_url p)
          (format_updated_governance_proposal_status_text p))
        s

  unfoldable pub handle_proposal_at_risk_of_expiry : Handler → Proposal → Bots → Bots
  unfolding post_all format_proposal_at_risk_of_expiry_text decimal
  handle_proposal_at_risk_of_expiry twitter p s = s
  handle_proposal_at_risk_of_expiry (discord clients) p s =
      post_all clients
        (embed_of (codes "Proposal At-Risk of Expiry") (proposal_url p)
          (format_proposal_at_risk_of_expiry_text p))
        s

  unfoldable pub handle_governance_vote : Handler → Proposal → Vote → Bots → Bots
  unfolding post_all format_new_governance_vote_text decimal
  handle_governance_vote twitter p v s = s
  handle_governance_vote (discord clients) p v s =
      post_all clients
        (embed_of (codes "New Proposal Vote") (proposal_url p)
          (format_new_governance_vote_text w.lookup_address w.format_ether p v))
        s
