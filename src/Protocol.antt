-- ===== src/Protocol.antt =====
-- web/src/protocol.ts: the messages of the server. A number that is a time in milliseconds, a port
-- or a counter is a natural number; the second of a bucket is an integer, as the ring computes with
-- seconds before 0. A latency is a number of some fixed small unit, where 0 is falsy as in the source.
use flowscape.Base.{ℕ, String, Bool, true, false, List, Option}
use flowscape.Base.Int.{ℤ}

-- VERDICT_FORWARDED, VERDICT_DROPPED, VERDICT_AUDIT and VERDICT_ERROR, in the order 0 to 3.
pub data Verdict : Type 0 where
  forwarded dropped audit error : Verdict

pub record Hello : Type 0 where
  pub version : String
  pub source : String
  pub retention_s : ℕ
  pub window_s : ℕ
  pub tick_ms : ℕ
  pub server_time : ℕ

pub record WireNode : Type 0 where
  pub id : String
  pub ns : String
  pub kind : String
  pub name : String
  pub fqdn : Option String
  pub machine : Option String
  pub labels : Option (List (String × String))
  pub first : ℕ
  pub last : ℕ

pub record Bucket : Type 0 where
  pub sec : ℤ
  pub f : ℕ
  pub d : ℕ
  pub a : ℕ
  pub e : ℕ

pub record L7 : Type 0 where
  pub http : Option (List (String × ℕ))
  pub dns : Option (List (String × ℕ))
  pub status : Option ℕ

pub record WireEdge : Type 0 where
  pub id : String
  pub src : String
  pub dst : String
  pub proto : String
  pub port : ℕ
  pub f : ℕ
  pub d : ℕ
  pub a : ℕ
  pub e : ℕ
  pub last : ℕ
  pub latency_ms : Option ℕ
  pub l7 : Option L7
  pub drops : Option (List (String × ℕ))
  pub buckets : Option (List Bucket)

pub record Snapshot : Type 0 where
  pub ts : ℕ
  pub nodes : List WireNode
  pub edges : List WireEdge

-- `e` names the edge, `v` is the verdict.
pub record Spark : Type 0 where
  pub e : String
  pub v : Verdict

pub data Relay : Type 0 where
  connected reconnecting not_applicable : Relay

pub record Status : Type 0 where
  pub source : String
  pub relay : Relay
  pub unavailable : Option (List String)
  pub flows_s : ℕ
  pub clients : ℕ

pub record Gone : Type 0 where
  pub nodes : Option (List String)
  pub edges : Option (List String)

pub record Tick : Type 0 where
  pub ts : ℕ
  pub nodes : Option (List WireNode)
  pub edges : Option (List WireEdge)
  pub gone : Gone
  pub sparks : Option (List Spark)
  pub status : Status

pub data Message : Type 0 where
  hello : Hello → Message
  snapshot : Snapshot → Message
  tick : Tick → Message

-- `m.t === "tick"`
unfoldable pub is_tick : Message → Bool
is_tick (hello h) = false
is_tick (snapshot s) = false
is_tick (tick t) = true
