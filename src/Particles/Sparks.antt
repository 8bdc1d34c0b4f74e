-- ===== src/Particles/Sparks.antt =====
-- The class `Particles` of web/src/particles.ts. The points that the sparks are drawn as, and the
-- buffers on the graphics card, belong to three.js and are left out.
use flowscape.Base.{
  ℕ, suc, ◌%◌, ◌^◌, Bool, true, false, not, ◌||◌, List, Option, get_or, set, replicate, eqb, ltb,
  leb, if◌then◌else◌,
}
use flowscape.Base.Numbers.{Numbers, Vec3}
use flowscape.Particles.Sweep.{Swarm, sweep}

-- A colour as number `verdict` of `colors`, times `strength`.
pub record Tint (N : Numbers) : Type 0 where
  pub verdict : ℕ
  pub strength : N.R

-- What the arrays hold at one index.
pub record Spark (N : Numbers) : Type 0 where
  pub t : N.R
  pub speed : N.R
  pub cp : ℕ
  pub verdict : ℕ
  pub base_size : N.R
  pub size : N.R
  pub pos : Vec3 N
  pub tint : Tint N

-- The nine control points of an arc: its ends and what lies between.
pub record Arc (N : Numbers) : Type 0 where
  pub start : Vec3 N
  pub control : Vec3 N
  pub end : Vec3 N

module _ (N : Numbers) where
  abbrev lit : ℕ → ℕ → N.R
  lit m n = N.over (N.of m) (N.of n)

  abbrev origin : Vec3 N
  origin = record { x = N.of 0; y = N.of 0; z = N.of 0 }

  -- `colors[verdict] ?? colors[0]!`
  abbrev pub palette : ℕ → ℕ
  palette verdict = if ltb verdict 4 then verdict else 0

  abbrev pub blank : Spark N
  blank = record {
    t = N.of 0;
    speed = N.of 0;
    cp = 0;
    verdict = 0;
    base_size = N.of 0;
    size = N.of 0;
    pos = origin;
    tint = record { verdict = 0; strength = N.of 0 };
  }

  -- The fields of the class at the start; `capacity` is `CAPACITY`, 16384 in the source.
  unfoldable pub init : ℕ → Swarm (Spark N)
  init capacity = record { cells = replicate capacity blank; alive = 0 }

  -- A new spark over the one that stood there, whose place it keeps until the next `update`; `r1` and
  -- `r2` are the two random numbers.
  abbrev pub lit_up : ℕ → ℕ → Bool → N.R → N.R → Spark N → Spark N
  lit_up cp verdict big r1 r2 s =
      let base : N.R = if eqb verdict 2 then lit 55 100 else lit 8 10 in
      let bulk : N.R = if eqb verdict 0 then lit 55 100 else lit 8 10 in
      let scale : N.R = if big then lit 16 10 else N.of 1 in
      let size =
        N.single (N.times (N.times bulk scale) (N.plus (lit 8 10) (N.times r2 (lit 4 10)))) in
      record s {
        t = N.of 0;
        speed = N.single (N.times base (N.plus (lit 85 100) (N.times r1 (lit 3 10))));
        cp = cp;
        verdict = verdict % 2 ^ 8;
        base_size = size;
        size = size;
        tint = record { verdict = palette verdict; strength = N.of 1 };
      }

  -- `cp_valid` is `edges.cpValid`.
  unfoldable pub spawn :
      ℕ → List Bool → Swarm (Spark N) → ℕ → ℕ → Bool → N.R → N.R → Swarm (Spark N)
  spawn capacity cp_valid p cp verdict big r1 r2 =
      if leb capacity p.alive || not (get_or cp_valid cp false) then p else record {
        cells = set p.cells p.alive (lit_up cp verdict big r1 r2 (get_or p.cells p.alive blank));
        alive = suc p.alive;
      }

  -- One coordinate of the curve at `t`.
  abbrev pub bezier : N.R → N.R → N.R → N.R → N.R
  bezier t a c b =
      let u = N.minus (N.of 1) t in
      N.plus (N.plus (N.times (N.times u u) a) (N.times (N.times (N.times (N.of 2) u) t) c))
        (N.times (N.times t t) b)

  -- The end of the loop's body: the spark at `t` on its arc.
  abbrev pub shift : (ℕ → Arc N) → N.R → N.R → Spark N → Spark N
  shift arcs t fade s =
      let arc = arcs s.cp in
      record s {
        t = N.single t;
        pos = record {
          x = N.single (bezier t arc.start.x arc.control.x arc.end.x);
          y = N.single (bezier t arc.start.y arc.control.y arc.end.y);
          z = N.single (bezier t arc.start.z arc.control.z arc.end.z);
        };
        tint = record { verdict = palette s.verdict; strength = fade };
      }

  -- A spark of dropped flows stops short and bursts.
  abbrev pub burst : (ℕ → Arc N) → N.R → Spark N → Bool × Spark N
  burst arcs t s =
      let k = N.over (N.minus t (lit 72 100)) (lit 14 100) in
      let grown = record s {
        size = N.single (N.times s.base_size (N.plus (N.of 1) (N.times k (N.of 3))));
      } in
      if N.below (lit 72 100) t
      then (if not (N.below k (N.of 1)) then (true, grown) else (
        false,
        shift arcs (N.least t (N.plus (lit 72 100) (lit 14 100))) (N.minus (N.of 1) k) grown,
      ))
      else (false, shift arcs t (N.of 1) s)

  -- Another one goes at the end of its arc, and fades in and out.
  abbrev pub glide : (ℕ → Arc N) → N.R → Spark N → Bool × Spark N
  glide arcs t s =
      let tail = N.minus (N.of 1) (N.most (N.of 0) (N.over (N.minus t (lit 9 10)) (lit 1 10))) in
      if not (N.below t (N.of 1)) then (true, s) else (
        false,
        shift arcs t (N.times (N.least (N.of 1) (N.over t (lit 8 100))) tail)
            (record s { size = s.base_size }),
      )

  -- The body of the loop of `update`: whether the spark is killed, and what is written over it.
  unfoldable pub advance : List Bool → (ℕ → Arc N) → N.R → Spark N → Bool × Spark N
  advance cp_valid arcs dt s =
      let t = N.plus s.t (N.times s.speed dt) in
      if not (get_or cp_valid s.cp false)
      then (true, s)
      else (if eqb s.verdict 1 then burst arcs t s else glide arcs t s)

  unfoldable pub update : List Bool → (ℕ → Arc N) → N.R → Swarm (Spark N) → Option (Swarm (Spark N))
  update cp_valid arcs dt p = sweep blank (advance cp_valid arcs dt) p
