-- ===== src/Index/Respond.antt =====
-- index.rs: `clock_vector`, `record_watermarks`, and `respond` with its range and merkle answers.
use narshare.Base.{
  ℕ, ◌+◌, ◌-◌, ◌*◌, Bool, true, false, not, ◌&&◌, ◌||◌, Option, none, some, List, [], ◌∷◌, ◌++◌,
  ◌==◌, ltb, leb, if◌then◌else◌, length, take, min, max, is_empty, Result, ok, ◌>>=◌, context,
  corrupt_event,
}
use narshare.Base.Order.{nat_ord, list_ord}
use narshare.Base.Sets.{same, contains}
use narshare.Facts.{Bytes, Attestation}
use narshare.Merkle.{merkle_root, merkle_children}
use narshare.Wire.{Wire, Event}
use narshare.Store.{Db, Clock, clock, journal_suffix, holdings, advance_watermark}
use narshare.Store.Pages.{attestation_page}
use narshare.Index.Messages.{
  Config, origin_set, is_known_origin, OriginClock, RangeAsk, RangeReply, MerkleAsk, MerkleNode,
  SyncRequest, Body, up_to_date, suffix, snapshot, OriginUpdate, RespondBundle, decode_all,
}

abbrev pub suffix_bytes_cap : ℕ
suffix_bytes_cap = 8388608

abbrev pub atts_page_cap : ℕ
atts_page_cap = 8388608

abbrev pub atts_page_floor : ℕ
atts_page_floor = 262144

abbrev pub range_bytes_cap : ℕ
range_bytes_cap = 2097152

abbrev pub range_asks_max : ℕ
range_asks_max = 16

abbrev pub merkle_asks_max : ℕ
merkle_asks_max = 8

abbrev pub merkle_facts_cap : ℕ
merkle_facts_cap = 4194304

abbrev pub response_bytes_cap : ℕ
response_bytes_cap = 25165824

unfoldable pub clocks_of : Db → List Bytes → Result (List OriginClock)
clocks_of db [] = ok []
clocks_of db (origin ∷ names) = do
  c ← clock db origin
  rest ← clocks_of db names
  ok ((record { origin = origin; generation = c.generation; seq = c.seq }) ∷ rest)

unfoldable pub clock_vector : Config → Db → Result (List OriginClock)
clock_vector c db = clocks_of db (origin_set c)

-- One line of a peer's clock vector: only known origins, and only at our generation.
unfoldable pub record_watermark : Config → Db → Bytes → OriginClock → Result Db
record_watermark c db peer line = if not (is_known_origin c line.origin) then ok db else do
  cur ← clock db line.origin
  if not (cur.generation == line.generation)
      then ok db
      else advance_watermark db peer line.origin line.seq

unfoldable pub record_watermarks : Config → Db → Bytes → List OriginClock → Result Db
record_watermarks c db peer [] = ok db
record_watermarks c db peer (line ∷ clocks) = do
  next ← record_watermark c db peer line
  record_watermarks c next peer clocks

-- The map `have`: the last line of an origin counts, and a missing one is (0, 0).
unfoldable pub theirs : List OriginClock → Bytes → ℕ × ℕ → ℕ × ℕ
theirs [] name found = found
theirs (line ∷ rest) name found =
    theirs rest name (if same line.origin name then (line.generation, line.seq) else found)

-- What the loop over the origins carries.
pub record Answer : Type 0 where
  pub origins : List OriginUpdate
  pub sent_snapshot : Bool
  pub used : ℕ

abbrev push : Answer → OriginUpdate → Answer
push acc u = record acc { origins = acc.origins ++ (u ∷ []) }

abbrev pub update_of : Bytes → ℕ → ℕ → Bool → Option Body → OriginUpdate
update_of name generation seq truncated body = record {
  origin = name;
  generation = generation;
  seq = seq;
  truncated = truncated;
  body = body;
}

abbrev pub total_length : List Bytes → ℕ
total_length [] = 0
total_length (blob ∷ raw) = length blob + total_length raw

-- A journal suffix, from the peer's sequence number on.
unfoldable pub answer_suffix : Wire → Db → Bytes → ℕ → ℕ → ℕ → Answer → Result Answer
answer_suffix w db name generation seq their_seq acc = do
  (raw, truncated) ← journal_suffix db name their_seq suffix_bytes_cap
  events ← decode_all w raw
  ok (
      push (record acc { used = acc.used + total_length raw })
        (update_of name generation seq truncated (some (suffix events))))

unfoldable pub answer_snapshot : Db → Bytes → ℕ → ℕ → Answer → Result Answer
answer_snapshot db name generation seq acc = do
  held ← holdings db name
  ok (
      push (record acc { sent_snapshot = true; used = acc.used + length held * 34 })
        (update_of name generation seq false (some (snapshot held))))

-- Whether the journal reaches back to what the peer has.
abbrev pub connects : Clock → ℕ × ℕ → Bool
connects c line = (line.0 == c.generation) && leb c.tail_seq line.1

-- The peer is behind on this origin.
unfoldable pub answer_behind :
    Wire → Db → SyncRequest → ℕ → Bytes → Clock → ℕ × ℕ → Answer → Result Answer
answer_behind w db req budget name c line acc =
    if contains name req.skip_origins
    then ok (
        push (record acc { sent_snapshot = acc.sent_snapshot || not (connects c line) })
          (update_of name c.generation c.seq false none))
    else if leb budget acc.used
    then ok (push acc (update_of name c.generation c.seq true (some (suffix []))))
    else if connects c line
    then answer_suffix w db name c.generation c.seq line.1 acc
    else answer_snapshot db name c.generation c.seq acc

-- The loop's body for one origin.
unfoldable pub respond_origin : Wire → Db → SyncRequest → ℕ → Bytes → Answer → Result Answer
respond_origin w db req budget name acc = do
  c ← clock db name
  let line = theirs req.have name (0, 0)
  if (c.generation == 0) || ltb c.generation line.0
      then ok acc
      else if (line.0 == c.generation) && leb c.seq line.1
      then ok (push acc (update_of name c.generation c.seq false (some up_to_date)))
      else answer_behind w db req budget name c line acc

unfoldable pub respond_origins : Wire → Db → SyncRequest → ℕ → List Bytes → Answer → Result Answer
respond_origins w db req budget [] acc = ok acc
respond_origins w db req budget (name ∷ names) acc = do
  next ← respond_origin w db req budget name acc
  respond_origins w db req budget names next

-- The events of a range answer: rows are decoded one at a time, and none after the break.
unfoldable pub decode_until : Wire → ℕ → List Bytes → Result (List Event)
decode_until w until [] = ok []
decode_until w until (blob ∷ raw) = do
  e ← context (w.decode_event blob) corrupt_event
  elim (ltb until e.seq) [
    | true ↦ ok []
    | false ↦ decode_until w until raw >>= λ events. ok (e ∷ events)
  ]

abbrev empty_reply : RangeAsk → ℕ → RangeReply
empty_reply ask generation = record {
  origin = ask.origin;
  generation = generation;
  after = ask.after;
  events = [];
  reachable = false;
}

unfoldable pub reply_events : Wire → Db → RangeAsk → RangeReply → Result RangeReply
reply_events w db ask reply = do
  (raw, _) ← journal_suffix db ask.origin ask.after range_bytes_cap
  events ← decode_until w ask.until raw
  ok (record reply { events = events; reachable = true })

unfoldable pub respond_range : Wire → Db → RangeAsk → Result RangeReply
respond_range w db ask = do
  c ← clock db ask.origin
  if (c.generation == ask.generation) && leb c.tail_seq ask.after && ltb ask.after ask.until
      then reply_events w db ask (empty_reply ask c.generation)
      else ok (empty_reply ask c.generation)

unfoldable pub respond_ranges_all : Config → Wire → Db → List RangeAsk → Result (List RangeReply)
respond_ranges_all c w db [] = ok []
respond_ranges_all c w db (ask ∷ asks) =
    if not (is_known_origin c ask.origin)
    then respond_ranges_all c w db asks
    else do reply ← respond_range w db ask; rest ← respond_ranges_all c w db asks; ok (reply ∷ rest)

unfoldable pub respond_ranges : Config → Wire → Db → List RangeAsk → Result (List RangeReply)
respond_ranges c w db asks = respond_ranges_all c w db (take range_asks_max asks)

pub record MerkleAnswer : Type 0 where
  pub nodes : List MerkleNode
  pub facts : List Attestation
  pub next : Option Bytes

abbrev pub flat : List Bytes → Bytes
flat [] = []
flat (c ∷ children) = c ++ flat children

abbrev add_node : MerkleAnswer → Bytes → Bytes → MerkleAnswer
add_node acc prefix children = record acc {
  nodes = acc.nodes ++ ((record { prefix = prefix; children = children }) ∷ []);
}

unfoldable pub expand_node : Db → MerkleAsk → MerkleAnswer → Result MerkleAnswer
expand_node db ask acc =
    if ask.expand
    then (merkle_children db.facts.agg ask.prefix >>= λ children.
        ok (add_node acc ask.prefix (flat children)))
    else ok acc

-- One subtree's facts for each request.
unfoldable pub fetch_facts : Wire → Db → Bytes → MerkleAsk → MerkleAnswer → MerkleAnswer
fetch_facts w db cursor ask acc =
    let page = attestation_page w db ask.prefix cursor merkle_facts_cap in
    if ask.fetch && is_empty acc.facts then record acc { facts = page.0; next = page.1 } else acc

unfoldable pub respond_merkle_all :
    Wire → Db → Bytes → List MerkleAsk → MerkleAnswer → Result MerkleAnswer
respond_merkle_all w db cursor [] acc = ok acc
respond_merkle_all w db cursor (ask ∷ asks) acc = do
  expanded ← expand_node db ask acc
  respond_merkle_all w db cursor asks (fetch_facts w db cursor ask expanded)

unfoldable pub respond_merkle : Wire → Db → List MerkleAsk → Bytes → Result MerkleAnswer
respond_merkle w db asks cursor =
    respond_merkle_all w db cursor (take merkle_asks_max asks)
      (record { nodes = []; facts = []; next = none })

abbrev pub page_budget : ℕ → ℕ → ℕ
page_budget budget used = max (min atts_page_cap (budget - used)) atts_page_floor

abbrev empty_bundle : RespondBundle
empty_bundle = record {
  origins = [];
  attests = [];
  atts_next = none;
  ranges = [];
  fact_root = none;
  merkle = [];
}

unfoldable pub respond_sync : Config → Wire → Db → SyncRequest → ℕ → Result RespondBundle
respond_sync c w db req budget = do
  answer ←
      respond_origins w db req budget (origin_set c)
        (record { origins = []; sent_snapshot = false; used = 0 })
  let page =
      if not (is_empty req.atts_cursor) || answer.sent_snapshot
      then attestation_page w db [] req.atts_cursor (page_budget budget answer.used)
      else ([], none)
  ok (record empty_bundle {
    origins = answer.origins;
    attests = page.0;
    atts_next = page.1;
    fact_root = some (merkle_root db.facts.agg);
  })

abbrev merkle_bundle : MerkleAnswer → RespondBundle
merkle_bundle answer = record empty_bundle {
  attests = answer.facts;
  atts_next = answer.next;
  merkle = answer.nodes;
}

unfoldable pub respond_budgeted : Config → Wire → Db → SyncRequest → ℕ → Result RespondBundle
respond_budgeted c w db req budget =
    if not (is_empty req.ranges)
    then (respond_ranges c w db req.ranges >>= λ ranges.
        ok (record empty_bundle { ranges = ranges }))
    else if not (is_empty req.merkle)
    then (respond_merkle w db req.merkle req.atts_cursor >>= λ answer. ok (merkle_bundle answer))
    else respond_sync c w db req budget

unfoldable pub respond : Config → Wire → Db → SyncRequest → Result RespondBundle
respond c w db req = respond_budgeted c w db req response_bytes_cap
