-- ===== src/Tests/Places.antt =====
-- The theorems on web/src/layout.ts and web/src/nodes.ts at a small graph. The coordinates are
-- natural numbers here, and the functions that they need are made up.
use flowscape.Base.{
  ℕ, ◌+◌, ◌-◌, ◌*◌, ◌/◌, ◌%◌, String, Bool, true, ◌≡◌, ◌≤◌, refl, List, [], ◌∷◌, none, foldl, min,
  max, ltb,
}
use flowscape.Base.Dict
use flowscape.Base.Dict.{Dict}
use flowscape.Base.Numbers.{Numbers, Vec3}
use flowscape.GraphState.Types.{NodeState}
use flowscape.Layout.Types
use flowscape.Layout.Rebuild.{rebuild}
use flowscape.Base.Keyed.{IsKeyed}
use flowscape.Layout.Coverage.{rebuild-targets}
use flowscape.Nodes.Operations
use flowscape.Nodes.Labels.{labelled, calls-few_labels}
use flowscape.Nodes.Calls.{Call, adds, removes, hides, updates, perform, IsValid, calls-IsOwned}

abbrev pub counted : Numbers
counted = record {
  R = ℕ;
  of = λ n. n;
  plus = λ m n. m + n;
  minus = λ m n. m - n;
  times = λ m n. m * n;
  over = λ m n. m / n;
  rest = λ m n. m % n;
  neg = λ n. n;
  least = λ m n. min m n;
  most = λ m n. max m n;
  abs = λ n. n;
  sqrt = λ n. n;
  cos = λ n. n;
  sin = λ n. n;
  hypot = λ m n. m + n;
  exp = λ n. n;
  log1p = λ n. n;
  pi = 3;
  single = λ n. n;
  below = ltb;
}

abbrev pub node : String → String → String → NodeState
node id ns kind = record {
  id = id;
  ns = ns;
  name = id;
  kind = kind;
  fqdn = none;
  machine = none;
  labels = none;
  first = 0;
  last = 0;
  edges = [];
}

-- Texts are not told apart.
abbrev pub level : String → String → Bool
level a b = true

abbrev pub cluster : Dict NodeState
cluster =
    ("a", node "a" "shop" "workload")
    ∷ ("b", node "b" "bank" "workload")
    ∷ ("c", node "c" "shop" "workload")
    ∷ ("w", node "w" "reserved" "world")
    ∷ ("h", node "h" "reserved" "host")
    ∷ ("i", node "i" "reserved" "ingress")
    ∷ []

cluster-IsKeyed : IsKeyed (λ n. n.id) cluster
cluster-IsKeyed = (refl, (refl, (refl, (refl, (refl, (refl, tt))))))

rebuild-targets_example :
    Dict.has "c" (rebuild counted level level (Types.init counted) cluster).targets
    ≡ Dict.has "c" cluster
rebuild-targets_example =
    rebuild-targets counted level level (Types.init counted) cluster "c" cluster-IsKeyed

abbrev corner : Vec3 counted
corner = record { x = 1; y = 2; z = 3 }

abbrev calls : List (Call counted)
calls =
    adds (node "a" "shop" "workload") corner
    ∷ adds (node "b" "bank" "workload") corner
    ∷ removes "a"
    ∷ adds (node "c" "shop" "workload") corner
    ∷ hides "c" true
    ∷ updates 1 (λ p. p.x)
    ∷ []

calls-IsOwned_example :
    IsValid counted 2 (foldl (perform counted) (Operations.init counted 2) calls)
calls-IsOwned_example = calls-IsOwned counted 2 calls

calls-few_labels_example :
    labelled counted (foldl (perform counted) (Operations.init counted 2) calls) ≤ 40
calls-few_labels_example = calls-few_labels counted 2 calls
