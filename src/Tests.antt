-- ===== src/Tests.antt =====
-- Concrete messages and states, and under them the theorems applied to these.
mod Graph
mod Sources
mod Arcs
mod Refreshed
mod Rated
mod Doubles
mod Grounds
mod Controls
mod Places
mod Framed
mod Details
mod Sparkling
mod Pointer
use flowscape.Base.{String, List, [], ◌∷◌, none, some}
use flowscape.Base.Int.{pos}
use flowscape.Protocol.{
  WireNode, WireEdge, Bucket, Snapshot, Gone, Relay, connected, Status, Tick, Message, snapshot,
  tick,
}

abbrev pub node : String → WireNode
node id = record {
  id = id;
  ns = "shop";
  kind = "workload";
  name = id;
  fqdn = none;
  machine = some "m1";
  labels = none;
  first = 90000;
  last = 100000;
}

abbrev pub buckets : List Bucket
buckets =
    record { sec = pos 98; f = 3; d = 0; a = 0; e = 1 }
    ∷ record { sec = pos 100; f = 2; d = 1; a = 0; e = 0 }
    ∷ []

abbrev pub edge : String → WireEdge
edge id = record {
  id = id;
  src = "web";
  dst = "db";
  proto = "TCP";
  port = 5432;
  f = 5;
  d = 1;
  a = 0;
  e = 1;
  last = 100000;
  latency_ms = none;
  l7 = none;
  drops = none;
  buckets = some buckets;
}

abbrev pub graph_snapshot : Snapshot
graph_snapshot = record { ts = 100000; nodes = node "web" ∷ node "db" ∷ []; edges = edge "e1" ∷ [] }

abbrev pub status : Status
status = record {
  source = "hubble";
  relay = connected;
  unavailable = none;
  flows_s = 7;
  clients = 1;
}

abbrev pub edge_tick : Tick
edge_tick = record {
  ts = 101000;
  nodes = some (node "cache" ∷ []);
  edges = some (edge "e1" ∷ edge "e2" ∷ []);
  gone = record { nodes = none; edges = none };
  sparks = none;
  status = status;
}

abbrev pub gone_tick_e1 : Tick
gone_tick_e1 = record {
  ts = 102000;
  nodes = none;
  edges = some (edge "e2" ∷ []);
  gone = record { nodes = some ("cache" ∷ []); edges = some ("e1" ∷ []) };
  sparks = none;
  status = status;
}

abbrev pub first_messages : List Message
first_messages = snapshot graph_snapshot ∷ tick edge_tick ∷ []
