-- ===== src/Transport/Backoff.antt =====
-- How long the client waits before it connects again.
use native.Mathlib.Decide.{dec_le}
use native.Mathlib.Nat.{pow-suc, mul_comm, mul_assoc, mul-le-mul_right}
use flowscape.Base.{
  ℕ, zero, suc, ◌*◌, ◌^◌, ◌≤◌, min, true, false, ◌≡◌, refl, List, [], ◌∷◌, ◌++◌, map, arith, ◌∙◌,
  ap,
}
use flowscape.Protocol.{Message}
use flowscape.Transport.Types.{Effect, deliver, report, dial, retry_after, hang_up}
use flowscape.Transport.WsClient
use flowscape.Transport.WsClient.{
  WsClient, Event, opened, arrived, dropped, failed, fired, pauses, closes, step, run,
}

-- The client drops, waits and connects again, `n` times, and never gets through.
abbrev pub failures : ℕ → List Event
failures zero = []
failures (suc n) = dropped ∷ fired ∷ failures n

pow_pos : (n : ℕ) → 1 ≤ 2 ^ n
pow_pos zero = omega arith
pow_pos (suc n) = omega (arith, pow-suc 2 n, pow_pos n)

doubled : (b n : ℕ) → min (min (b * 2) 10000 * 2 ^ n) 10000 ≡ min (b * 2 ^ suc n) 10000
doubled b n = elim (dec_le (b * 2) 10000) [
  | yes small ↦
      let here : min (b * 2) 10000 ≡ b * 2 = omega arith in
      rw (here, pow-suc, mul_comm (2 ^ n) 2, mul_assoc b 2 (2 ^ n))
  | no large ↦
      let here : min (b * 2) 10000 ≡ 10000 = omega arith in
      let bigger : 10000 * 2 ^ n ≤ b * 2 * 2 ^ n = mul-le-mul_right (2 ^ n) (omega arith) in
      rw (here, pow-suc, mul_comm (2 ^ n) 2, ← mul_assoc b 2 (2 ^ n))
        (omega (arith, pow_pos n, bigger))
]

backoff-doubles :
    (n : ℕ) (c : WsClient)
    → c.closed ≡ false
    → c.backoff ≤ 10000
    → ((run c (failures n)).0.backoff ≡ min (c.backoff * 2 ^ n) 10000)
      × ((run c (failures n)).0.closed ≡ false)
unfolding run step WsClient.on_close WsClient.connect
backoff-doubles zero c live small = (omega arith, live)
backoff-doubles (suc n) c live small =
    let rest =
      backoff-doubles n
        (record c { ws = true; closed = false; backoff = min (c.backoff * 2) 10000 }) refl
        (omega arith) in
    rw live (rest.0 ∙ doubled c.backoff n, rest.1)

-- The waits that effects ask for, in order.
abbrev pub waits : List Effect → List ℕ
waits [] = []
waits (retry_after n ∷ es) = n ∷ waits es
waits (deliver m ∷ es) = waits es
waits (report s ∷ es) = waits es
waits (dial ∷ es) = waits es
waits (hang_up ∷ es) = waits es

-- A live client whose next wait is at most ten seconds, and that fails `n` times in a row and then
-- once more, asks after the last failure for exactly one wait: the first one doubled `n` times, up to
-- ten seconds.
pub backoff-failures :
    (n : ℕ) (c : WsClient)
    → c.closed ≡ false
    → c.backoff ≤ 10000
    → waits (step (run c (failures n)).0 dropped).1 ≡ min (c.backoff * 2 ^ n) 10000 ∷ []
unfolding step WsClient.on_close
backoff-failures n c live small =
    let (doubles, still) = backoff-doubles n c live small in rw still (ap (λ b. b ∷ []) doubles)

pub record IsBounded (c : WsClient) : Type 0 where
  pub at_least : 1000 ≤ c.backoff
  pub at_most : c.backoff ≤ 10000

-- The waits that the effects ask for lie between one second and ten.
abbrev pub Waits : List Effect → Type 0
Waits [] = Unit {0}
Waits (retry_after n ∷ es) = (1000 ≤ n) × (n ≤ 10000) × Waits es
Waits (deliver m ∷ es) = Waits es
Waits (report s ∷ es) = Waits es
Waits (dial ∷ es) = Waits es
Waits (hang_up ∷ es) = Waits es

Waits-append : (xs ys : List Effect) → Waits xs → Waits ys → Waits (xs ++ ys)
Waits-append [] ys p q = q
Waits-append (retry_after n ∷ xs) ys p q = (p.0, p.1, Waits-append xs ys p.2 q)
Waits-append (deliver m ∷ xs) ys p q = Waits-append xs ys p q
Waits-append (report s ∷ xs) ys p q = Waits-append xs ys p q
Waits-append (dial ∷ xs) ys p q = Waits-append xs ys p q
Waits-append (hang_up ∷ xs) ys p q = Waits-append xs ys p q

Waits-deliver : (ms : List Message) → Waits (map deliver ms)
Waits-deliver [] = tt
Waits-deliver (m ∷ ms) = Waits-deliver ms

step-IsBounded :
    (c : WsClient) (e : Event) → IsBounded c → IsBounded (step c e).0 × Waits (step c e).1
unfolding step WsClient.on_open WsClient.on_message WsClient.on_close WsClient.on_error
    WsClient.connect WsClient.close WsClient.set_paused
step-IsBounded c opened k = ground arith
step-IsBounded c (arrived m) k = ground arith
step-IsBounded c dropped k = ground arith
step-IsBounded c failed k = ground arith
step-IsBounded c fired k = ground arith
step-IsBounded c (pauses p) k = ground (arith, Waits-deliver c.buffer)
step-IsBounded c closes k = ground arith

-- Whatever happens to a client whose next wait lies between one second and ten, every wait does.
pub run-Waits :
    (es : List Event) (c : WsClient) → IsBounded c → IsBounded (run c es).0 × Waits (run c es).1
unfolding run
run-Waits [] c k = (k, tt)
run-Waits (e ∷ es) c k =
    let (k', now) = step-IsBounded c e k in
    let (k'', later) = run-Waits es (step c e).0 k' in
    (k'', Waits-append (step c e).1 (run (step c e).0 es).1 now later)
