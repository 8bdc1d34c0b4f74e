-- ===== src/Tests/Graph.antt =====
-- The theorems on web/src/graph-state.ts at concrete messages.
use flowscape.Base.{
  ◌<◌, ◌^◌, ◌∙◌, true, false, ◌≡◌, refl, List, [], ◌∷◌, replicate, arith, min, map,
}
use flowscape.Base.Int.{pos, negsuc}
use flowscape.Base.Dict
use flowscape.Base.StringSet
use flowscape.Protocol.{Verdict, forwarded, dropped, audit, error, tick, snapshot}
use flowscape.GraphState.Types
use flowscape.GraphState.Types.{EdgeState, Counts, pick}
use flowscape.GraphState.Ring.{set_buckets, first_second, rate, series}
use flowscape.GraphState.Ring.Reads.{add}
use flowscape.GraphState.Ring.History.{Increment, IsTracked, add_bucket-IsTracked}
use flowscape.GraphState.Ring.Window.{
  count_in, seconds, events_at, count_all, rate-count_in, series-events,
}
use flowscape.GraphState.Ring.Buckets.{
  bucket_history, last_second, fresh-IsTracked, set_buckets-IsTracked,
}
use flowscape.GraphState.Operations.{
  new_edge, apply_snapshot, consume, receive, apply_tick, tick_edge, upsert_edge, upsert_node,
  remove_edge, remove_node,
}
use flowscape.GraphState.Pending.Resync.{node_ids, edge_ids, apply_snapshot-ids}
use flowscape.GraphState.Pending.Snapshots.{loaded, apply_snapshot-loaded}
use flowscape.GraphState.Pending.Rendering.{Screen, start, frame}
use flowscape.GraphState.Pending.InStep.{IsInStep, frame-IsInStep}
use flowscape.GraphState.Pending.Lost.{
  edge_lost_by_return, edge_lost_after_snapshot, gone_tick, seen_tick,
}
use flowscape.Tests.{edge, buckets, graph_snapshot, edge_tick, status}

-- An edge with a ring of ten seconds, filled from two buckets.
abbrev ten : EdgeState
ten = record (new_edge 10 (edge "e1")) { ring = replicate 40 0; epochs = replicate 10 (negsuc 0) }

ten-IsTracked : IsTracked 10 ten [] (pos 90)
ten-IsTracked = fresh-IsTracked 10 ten (pos 90) refl refl (omega arith)

abbrev filled : EdgeState
filled = set_buckets 10 ten buckets

filled-IsTracked : IsTracked 10 filled (bucket_history buckets []) (pos 100)
filled-IsTracked =
    set_buckets-IsTracked 10 (omega arith) ten [] (pos 90) buckets ten-IsTracked
      (omega arith, (omega arith, tt))

set_buckets-IsTracked_example :
    IsTracked 10
      (set_buckets 10 ten buckets)
      (bucket_history buckets [])
      (last_second (pos 90) buckets)
set_buckets-IsTracked_example =
    set_buckets-IsTracked 10 (omega arith) ten [] (pos 90) buckets ten-IsTracked
      (omega arith, (omega arith, tt))

abbrev more : Counts
more = record { f = 4; d = 2; a = 0; e = 0 }

abbrev history : List Increment
history = record { sec = pos 108; counts = more } ∷ bucket_history buckets []

add_bucket-IsTracked_example : IsTracked 10 (add 10 filled (pos 108) more) history (pos 108)
add_bucket-IsTracked_example =
    add_bucket-IsTracked 10 (omega arith) filled (bucket_history buckets []) (pos 100) (pos 108)
      more filled-IsTracked (omega arith)

tracked : IsTracked 10 (add 10 filled (pos 108) more) history (pos 108)
tracked =
    add_bucket-IsTracked 10 (omega arith) filled (bucket_history buckets []) (pos 100) (pos 108)
      more filled-IsTracked (omega arith)

few : (v : Verdict) → count_all v history ≡ pick v (record { f = 9; d = 3; a = 0; e = 1 })
unfolding count_all pick bucket_history
few forwarded = refl
few dropped = refl
few audit = refl
few error = refl

few-lt : (v : Verdict) → pick v (record { f = 9; d = 3; a = 0; e = 1 }) < 2 ^ 32
unfolding pick
few-lt forwarded = omega arith
few-lt dropped = omega arith
few-lt audit = omega arith
few-lt error = omega arith

rate-count_in_example :
    let r = rate 10 (add 10 filled (pos 108) more) 60 (pos 109) in
    (pick forwarded r.events
      ≡ count_in forwarded history (first_second (pos 109) (min 60 10)) (min 60 10))
    × (r.per ≡ min 60 10)
rate-count_in_example =
    rate-count_in 10 (add 10 filled (pos 108) more) history (pos 108) tracked forwarded 60 (pos 109)
      (omega arith) (omega arith) (omega (arith, few forwarded, few-lt forwarded))

series-events_example :
    series 10 (add 10 filled (pos 108) more) 5 (pos 109)
    ≡ map (events_at history) (seconds (first_second (pos 109) (min 5 10)) (min 5 10))
series-events_example =
    series-events 10 (add 10 filled (pos 108) more) history (pos 108) tracked 5 (pos 109)
      (omega arith) (omega arith) (λ v. omega (arith, few v, few-lt v))

-- After a first tick the renderer is in step with the graph.
begun : IsInStep (start 300 true)
unfolding start Types.init Dict.has
begun = record {
  edges_same = λ x. refl;
  nodes_same = λ x. refl;
  no_edges = (refl, refl);
  no_nodes = (refl, refl);
}

abbrev once : Screen
once = frame (start 300 true) (map tick (edge_tick ∷ []))

once-IsInStep : IsInStep once
unfolding start
once-IsInStep =
    frame-IsInStep (start 300 true) (edge_tick ∷ []) begun
      ((λ x listed held. absurd (cc), λ x listed held. absurd (cc)), tt)

apply_snapshot-ids_example :
    let h = apply_snapshot (start 300 true).graph graph_snapshot in
    (Dict.has "e1" h.nodes ≡ StringSet.has "e1" (node_ids graph_snapshot.nodes))
    × (Dict.has "e1" h.edges ≡ StringSet.has "e1" (edge_ids graph_snapshot.edges))
    × (StringSet.has "e1" h.added_nodes ≡ StringSet.has "e1" (node_ids graph_snapshot.nodes))
    × (StringSet.has "e1" h.added_edges ≡ StringSet.has "e1" (edge_ids graph_snapshot.edges))
apply_snapshot-ids_example = apply_snapshot-ids (start 300 true).graph graph_snapshot "e1"

apply_snapshot-loaded_example :
    apply_snapshot (start 300 true).graph graph_snapshot
    ≡ record (loaded (start 300 true).graph graph_snapshot) { ts = 100000; reset = true }
apply_snapshot-loaded_example = apply_snapshot-loaded (start 300 true).graph graph_snapshot

live : Dict.has "e1" once.graph.edges ≡ true
unfolding start frame consume receive apply_tick tick_edge upsert_edge upsert_node Types.init
    Dict.has Dict.get Dict.put Dict.modify remove_edge remove_node
live = refl

held : once.edges "e1" ≡ true
held = (once-IsInStep.edges_same "e1") ∙ live

brings : StringSet.has "e1" (edge_ids graph_snapshot.edges) ≡ true
unfolding StringSet.has
brings = refl

edge_lost_by_return_example :
    let s' = frame once (
      tick (gone_tick 102000 status "e1")
      ∷ tick (seen_tick 103000 status (edge "e1"))
      ∷ tick (gone_tick 104000 status "e1")
      ∷ []) in
    (Dict.has "e1" s'.graph.edges ≡ false) × (s'.edges "e1" ≡ true)
edge_lost_by_return_example =
    edge_lost_by_return once status 102000 103000 104000 (edge "e1") live held

edge_lost_after_snapshot_example :
    let s' = frame once (snapshot graph_snapshot ∷ tick (gone_tick 102000 status "e1") ∷ []) in
    (Dict.has "e1" s'.graph.edges ≡ false) × (s'.edges "e1" ≡ true)
edge_lost_after_snapshot_example =
    edge_lost_after_snapshot once status 102000 graph_snapshot "e1" brings held
