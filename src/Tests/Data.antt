-- ===== src/Tests/Data.antt =====
-- The stores, configurations and messages of the examples.
use narshare.Base.{ℕ, refl, false, none, some, [], ◌∷◌, if◌then◌else◌, replicate}
use narshare.Base.Order.{nat_ord, list_ord}
use narshare.Base.Sets.{same, contains}
use narshare.Facts.{Bytes, Attestation}
use narshare.Merkle.{new}
use narshare.Wire.{Event, have, drop}
use narshare.Store.{Db, okey}
use narshare.Store.Holdings.{IsName, IsMirrored}
use narshare.Store.Apply.{HasRuns}
use narshare.Index.Messages.{Config, SyncRequest}
use narshare.Index.Respond.{Answer}
use narshare.Tests.Toy.{toy}

abbrev pub alice : Bytes
alice = b'a' ∷ []

abbrev pub bob : Bytes
bob = b'b' ∷ []

pub alice-IsName : IsName alice
unfolding okey
alice-IsName = refl

pub bob-IsName : IsName bob
unfolding okey
bob-IsName = refl

abbrev pub alices : Config
alices = record { self_name = alice; peer_names = bob ∷ [] }

abbrev pub bobs : Config
bobs = record { self_name = bob; peer_names = alice ∷ [] }

abbrev pub hash_of : ℕ → Bytes
hash_of b = replicate 32 b

abbrev pub empty_db : Db
empty_db = record {
  meta = [];
  clocks = λ o. none;
  journal = λ o. [];
  hold = λ o. [];
  holdby = λ h. [];
  wm = λ p o. none;
  facts = record { att = []; att_path = []; att_nar = []; agg = new };
}

pub empty_db-HasRuns : HasRuns empty_db
empty_db-HasRuns o = refl

pub empty_db-IsMirrored : IsMirrored empty_db
unfolding contains
empty_db-IsMirrored o h = refl

abbrev pub first : Event
first = record { seq = 1; op = some (have (hash_of 7)) }

abbrev pub second : Event
second = record { seq = 2; op = some (drop (hash_of 7)) }

abbrev pub third : Event
third = record { seq = 3; op = some (have (hash_of 9)) }

-- Two events of alice, in the journal of generation 5.
abbrev pub two_db : Db
two_db = record empty_db {
  clocks =
      λ o. if same o alice then some (record { generation = 5; seq = 2; tail_seq = 0 }) else none;
  journal = λ o.
      if same o alice then (1, toy.encode_event first) ∷ (2, toy.encode_event second) ∷ [] else [];
}

-- A node at generation 5 of alice that has none of its events.
abbrev pub fresh_db : Db
fresh_db = record empty_db {
  clocks =
      λ o. if same o alice then some (record { generation = 5; seq = 0; tail_seq = 0 }) else none;
}

abbrev pub ask : SyncRequest
ask = record {
  have = (record { origin = alice; generation = 5; seq = 0 }) ∷ [];
  atts_cursor = [];
  skip_origins = [];
  ranges = [];
  merkle = [];
}

abbrev pub no_answer : Answer
no_answer = record { origins = []; sent_snapshot = false; used = 0 }

abbrev pub hello : Attestation
hello = record {
  store_path = b'/' ∷ b'h' ∷ [];
  nar_hash = hash_of 7;
  nar_size = 10;
  references = [];
  ca = [];
  sigs = (b'k' ∷ []) ∷ [];
}

abbrev pub hello_again : Attestation
hello_again = record hello { nar_size = 11; sigs = (b'j' ∷ []) ∷ [] }
