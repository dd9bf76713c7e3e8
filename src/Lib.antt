-- ===== src/Lib.antt =====
-- Verification of the Nouns monorepo's TypeScript: what its programs compute, apart from rendering,
-- network access and contract calls.
--
-- The parts, and the files that model them:
--   * packages/nouns-subgraph indexes the contracts' events: each handler loads entities, changes its
--     copies and saves them. Subgraph/Table.antt is the host's interface for one entity type (load and
--     save, and what a save keeps of an optional attribute), Subgraph/Schema.antt the entities,
--     Subgraph/Store.antt the tables together with the error log, and Subgraph/Memory.antt an instance
--     of the interface on which the handlers run. Subgraph/Helpers.antt is src/utils/helpers.ts;
--     Subgraph/Token.antt and Subgraph/Token/Transfer.antt are src/nouns-erc-721.ts, Subgraph/Dao.antt
--     is src/nouns-dao.ts and Subgraph/Auctions.antt src/nouns-auction-house.ts. A handler is a
--     function from an event and a store to a store; a copy that is saved after another save of the
--     same row overwrites it, as in the program.
--   * packages/nouns-sdk/src/image encodes a picture as runs of colours and draws it: Sdk/Text.antt and
--     Sdk/Hex.antt are the texts and number formats that it uses (utils.ts), Sdk/Image.antt and
--     Sdk/Image/Encode.antt the class of image.ts, Sdk/Svg.antt svg-builder.ts and
--     Sdk/Collection.antt png-collection-encoder.ts.
--   * packages/nouns-bots announces auctions and proposals: Bots/Types.antt is types.ts with
--     utils/proposals.ts, Bots/Cache.antt cache.ts, Bots/Texts.antt utils.ts, Bots/Handlers.antt the two
--     handlers and Bots/Ticks.antt the ticks of index.ts. The state is the cache together with the
--     messages that have been sent. The subgraph's answers and the time are arguments; the picture of a
--     noun, the ids of messages, the name service and the printing of amounts are the record Services.
--   * packages/nouns-webapp/src keeps the auctions and the event logs that it shows: Webapp/Events.antt
--     is utils/types.ts, Webapp/Auction.antt state/slices/auction.ts, Webapp/Display.antt the slices and
--     the hooks that choose the auction on display, Webapp/Logs.antt and Webapp/Logs/Answers.antt the
--     slice, the updater and the hook of logs, whose filters utils/logParsing.ts prints as keys and reads
--     back, Webapp/Filters.antt. Webapp/Subscriber.antt is the ChainSubscriber of index.tsx, whose events
--     change the slices, with the effect of pages/Auction and the arrows of components/Auction.
--   * The pages around proposals and bids: Webapp/Titles.antt and Webapp/Proposals.antt are
--     wrappers/nounsDao.ts, Webapp/Voting.antt and Webapp/Voting/Page.antt components/VoteModal and
--     pages/Vote, Webapp/Drafts.antt and Webapp/Drafts/Form.antt pages/CreateProposal with the form of a
--     transaction, Webapp/Bidding.antt components/Bid, Webapp/Slices.antt the small slices and
--     Webapp/Slices/Transactions.antt how the pages follow a transaction, Webapp/Timers.antt the timers,
--     Webapp/Profile.antt a noun's history, Webapp/Shuffle.antt the shuffle of utils,
--     Webapp/Shuffle/Table.antt the table of a vote card and Webapp/Locales.antt the choice of a
--     language. A component is its state as a record and one function for each handler and effect; what
--     it renders is left out.
--   * packages/nouns-webapp/functions answers requests from the subgraph's nouns: Functions/Nouns.antt
--     is theGraph.ts, Functions/Signatures.antt v0-verify-signature and Functions/Votes.antt the other
--     handlers. An answer that throws is `none`.
--   * packages/nouns-assets/src draws seeds: Assets.antt is utils.ts. The tasks of
--     packages/nouns-contracts that deploy the contracts and fill the descriptor are Contracts/Deploy.antt
--     and Contracts/Populate.antt, with utils.ts in Contracts/Chunks.antt.
--   * packages/nouns-api answers with a token's metadata, which it keeps: Api.antt is its route and
--     utils.ts.
--
-- Parameters, besides those of the bots: hashing, JSON, signatures, the reading and printing of amounts
-- and big numbers, floating-point rounding, the fractions that random numbers and sines give, how
-- late timers go off, the addresses of deployments, and the interface of a contract.
--
-- Numbers: what the programs compare or add is a native natural number; what may become negative (the
-- subgraph's balances and counts) is a signed integer of Prelude/Int.antt, without a bound, as BigInt
-- is; an `i32` wraps. A number that the language prints is a list of character codes. A number of the
-- decoder may be NaN, which is `none`.
--
-- Fuel: the digits of a number are computed with as much fuel as the number itself, and each round
-- divides it. The shuffle and the chunks have one round for each element, and each round takes one off
-- at least. The checks of components/AuctionActivity have as much fuel as the auction's end in seconds;
-- each waits a second at least. Everything else is recursion on a list, a text or a count.
--
-- Not modelled: the Solidity contracts and their generated bindings, rendering, network access, queries
-- and files, translations, image data.
pub mod Prelude
pub mod Subgraph
pub mod Sdk
pub mod Bots
pub mod Webapp
pub mod Assets
pub mod Functions
pub mod Contracts
pub mod Api
