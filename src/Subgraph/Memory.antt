-- ===== src/Subgraph/Memory.antt =====
-- The database of function tables, and its empty store: the examples run on it.
use Prim.Native.String.{String}
use nouns_monorepo.Prelude.{◌≡◌, refl, Option, none, some, []}
use nouns_monorepo.Subgraph.Table.{overwrite, map_table, empty_rows}
use nouns_monorepo.Subgraph.Schema.{
  Seed, Noun, Bid, Auction, Account, Delegate, Proposal, Vote, Governance, keep_bidder,
}
use nouns_monorepo.Subgraph.Store.{Database, Store}

pub id-overwrite : {E : Type 0} (id : E → String) (o : Option E) (e : E) → id (overwrite o e) ≡ id e
id-overwrite id o e = refl

pub id-keep_bidder : (o : Option Auction) (e : Auction) → (keep_bidder o e).id ≡ e.id
id-keep_bidder none e = refl
id-keep_bidder (some old) e = refl

abbrev pub memory : Database
memory = record {
  accounts = map_table (λ (e : Account). e.id) overwrite (id-overwrite (λ (e : Account). e.id));
  delegates = map_table (λ (e : Delegate). e.id) overwrite (id-overwrite (λ (e : Delegate). e.id));
  governances =
      map_table (λ (e : Governance). e.id) overwrite (id-overwrite (λ (e : Governance). e.id));
  nouns = map_table (λ (e : Noun). e.id) overwrite (id-overwrite (λ (e : Noun). e.id));
  seeds = map_table (λ (e : Seed). e.id) overwrite (id-overwrite (λ (e : Seed). e.id));
  proposals = map_table (λ (e : Proposal). e.id) overwrite (id-overwrite (λ (e : Proposal). e.id));
  votes = map_table (λ (e : Vote). e.id) overwrite (id-overwrite (λ (e : Vote). e.id));
  bids = map_table (λ (e : Bid). e.id) overwrite (id-overwrite (λ (e : Bid). e.id));
  auctions = map_table (λ (e : Auction). e.id) keep_bidder id-keep_bidder;
}

abbrev pub empty_store : Store memory
empty_store = record {
  accounts = empty_rows (λ (e : Account). e.id) overwrite (id-overwrite (λ (e : Account). e.id));
  delegates = empty_rows (λ (e : Delegate). e.id) overwrite (id-overwrite (λ (e : Delegate). e.id));
  governances =
      empty_rows (λ (e : Governance). e.id) overwrite (id-overwrite (λ (e : Governance). e.id));
  nouns = empty_rows (λ (e : Noun). e.id) overwrite (id-overwrite (λ (e : Noun). e.id));
  seeds = empty_rows (λ (e : Seed). e.id) overwrite (id-overwrite (λ (e : Seed). e.id));
  proposals = empty_rows (λ (e : Proposal). e.id) overwrite (id-overwrite (λ (e : Proposal). e.id));
  votes = empty_rows (λ (e : Vote). e.id) overwrite (id-overwrite (λ (e : Vote). e.id));
  bids = empty_rows (λ (e : Bid). e.id) overwrite (id-overwrite (λ (e : Bid). e.id));
  auctions = empty_rows (λ (e : Auction). e.id) keep_bidder id-keep_bidder;
  errors = [];
}
