-- ===== src/Filters/Status.antt =====
-- The status line: `setStatus` of web/src/filters.ts.
use mathlib.Core.Option.{some-injective}
use flowscape.Base.{
  sym, subst, ℕ, zero, suc, String, Bool, true, false, ◌≡◌, ◌≢◌, ◌↔◌, refl, List, [], ◌∷◌, ◌++◌,
  Option, none, some, length, arith,
}
use flowscape.Protocol.{Relay, connected, reconnecting, not_applicable, Status}
use flowscape.Transport.Types.{ConnState, connecting, established, closed}

pub data Level : Type 0 where
  ok warn bad : Level

-- What the line says; `parts` are joined by dots.
pub data Part : Type 0 where
  trying : Part
  disconnected : Part
  waiting : Part
  of_source : String → Part
  relay_down : Part
  nodes_unavailable : ℕ → Part
  flows : ℕ → Part
  is_paused : Part

pub record Line : Type 0 where
  pub level : Level
  pub parts : List Part

-- The parts when the connection is open and a status has come.
abbrev pub pause_part : Bool → List Part
pause_part true = is_paused ∷ []
pause_part false = []

abbrev pub missing : Option (List String) → ℕ
missing none = 0
missing (some names) = length names

abbrev pub relay_line : Relay → ℕ → Level × List Part
relay_line reconnecting n = (bad, relay_down ∷ [])
relay_line connected zero = (ok, [])
relay_line connected (suc n) = (warn, nodes_unavailable (suc n) ∷ [])
relay_line not_applicable zero = (ok, [])
relay_line not_applicable (suc n) = (warn, nodes_unavailable (suc n) ∷ [])

unfoldable pub set_status : ConnState → Option Status → Bool → Line
set_status connecting s paused = record { level = bad; parts = trying ∷ [] }
set_status closed s paused = record { level = bad; parts = disconnected ∷ [] }
set_status established none paused = record { level = warn; parts = waiting ∷ [] }
set_status established (some s) paused =
    let (level, relay) = relay_line s.relay (missing s.unavailable) in
    record {
      level = level;
      parts = of_source s.source ∷ (relay ++ (flows s.flows_s ∷ pause_part paused));
    }

relay_line-ok : (r : Relay) (n : ℕ) → ((relay_line r n).0 ≡ ok) ↔ ((r ≢ reconnecting) × (n ≡ 0))
relay_line-ok reconnecting n = (λ e. absurd (cc), λ k. absurd (k.0 refl))
relay_line-ok connected zero = (λ e. (λ d. absurd (cc), refl), λ k. refl)
relay_line-ok connected (suc n) = (λ e. absurd (cc), λ k. absurd (omega (arith, k.1)))
relay_line-ok not_applicable zero = (λ e. (λ d. absurd (cc), refl), λ k. refl)
relay_line-ok not_applicable (suc n) = (λ e. absurd (cc), λ k. absurd (omega (arith, k.1)))

-- The dot is green exactly when the connection is open, a status has come, the relay does not
-- reconnect and no node is unavailable.
pub set_status-ok :
    (c : ConnState) (status : Option Status) (paused : Bool)
    → ((set_status c status paused).level ≡ ok) ↔ (
        (c ≡ established)
        × ((s : Status) × (status ≡ some s)
            × (s.relay ≢ reconnecting)
            × (missing s.unavailable ≡ 0)))
unfolding set_status
set_status-ok connecting status paused = (λ e. absurd (cc), λ k. absurd (cc (k.0)))
set_status-ok closed status paused = (λ e. absurd (cc), λ k. absurd (cc (k.0)))
set_status-ok established none paused =
    (λ e. absurd (cc), λ k. let (s, p, q, r) = k.1 in absurd (cc))
set_status-ok established (some s) paused =
    let line = relay_line-ok s.relay (missing s.unavailable) in
    (
      λ e. let (calm, all) = line.0 e in (refl, (s, refl, calm, all)),
      λ k.
          let (t, p, calm, all) = k.1 in
          let same = some-injective s t p in
          line.1 (
            subst (λ x. (x.relay ≢ reconnecting) × (missing x.unavailable ≡ 0)) (sym same)
              (calm, all)),
    )
