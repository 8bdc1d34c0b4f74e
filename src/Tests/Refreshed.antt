-- ===== src/Tests/Refreshed.antt =====
-- The refresh of an arc with the rates of its ring.
use flowscape.Base.{ℕ, ◌≡◌, refl, inl, [], ◌∷◌, String, true, false, some, replicate}
use flowscape.Base.Int.{pos, negsuc, ◌+ℤ◌}
use flowscape.Base.Dict
use flowscape.Base.Doubles.{sum, quotient}
use flowscape.GraphState.Types.{EdgeState}
use flowscape.GraphState.Ring.{
  set_buckets, set_bucket, store_row, store, slot_of, rem, rate, rate_loop, read,
}
use flowscape.Filters.Types.{Filters, by_namespace}
use flowscape.Filters.Operations.{End}
use flowscape.Edges.Types.{EdgeSlot, wanted}
use flowscape.Refresh.{speed, refresh_edge}
use flowscape.Refresh.Drawn.{IsDrawn, refresh_edge-IsDrawn}
use flowscape.Tests.{buckets}
use flowscape.Tests.Arcs.{arc, arcs, arcs-IsValid, slot_c, there_c}

abbrev filters : Filters
filters = record {
  group_by = by_namespace;
  machines = [];
  namespaces = "jobs" ∷ [];
  verdicts = record { f = true; d = false; a = true; e = true };
  protocols = [];
  hide_reserved = false;
  window_sec = 10;
  paused = false;
}

abbrev end_of : String → End
end_of id = record { ns = "shop"; machine = id; anchor_off = false }

-- Seven events in ten seconds.
abbrev pub busy_arc : EdgeState
busy_arc =
    set_buckets 10 (record (arc "c") { ring = replicate 40 0; epochs = replicate 10 (negsuc 0) })
      buckets

slow : wanted (speed 10 filters (pos 101) busy_arc) ≡ slot_c.batch
unfolding set_buckets set_bucket store_row store slot_of rem rate rate_loop read ◌+ℤ◌ sum quotient
slow = refl

there_busy : Dict.get busy_arc.id arcs.slots ≡ some slot_c
unfolding set_buckets set_bucket
there_busy = there_c

refresh_edge-IsDrawn_example :
    (s : EdgeSlot ℕ) × (Dict.get busy_arc.id
        (refresh_edge 2 100 end_of (λ e. 50) 10 filters (pos 101) arcs busy_arc).slots
      ≡ some s)
    × IsDrawn end_of (λ e. 50) 10 filters (pos 101) busy_arc s
refresh_edge-IsDrawn_example =
    refresh_edge-IsDrawn 2 100 end_of (λ e. 50) 10 filters (pos 101) arcs arcs-IsValid busy_arc
      slot_c there_busy (inl slow)
