-- ===== src/Transport/DemoPauses.antt =====
-- What a pause does to the messages of the demo in the browser.
use native.Mathlib.Decide.{dec_lt}
use mathlib.Core.List.{append-nil, append_assoc, map-append}
use flowscape.Base.{
  ℕ, zero, suc, ◌-◌, ◌≤◌, ◌<◌, true, false, ◌≡◌, refl, ◌∙◌, sym, ap, List, [], ◌∷◌, ◌++◌, map,
  arith, length, length-append, take, inl, inr, Bool-cases,
}
use flowscape.Protocol.{Message, is_tick}
use flowscape.Transport.Types.{max_buffer, deliver}
use flowscape.Transport.Demo.{Demo, on_message, set_paused, receive_all}
use flowscape.Transport.Pausing.{ticks, others}

-- The room left in the buffer.
abbrev room : Demo → ℕ
room d = max_buffer - length d.buffer

module _ (d : Demo) (held : d.paused ≡ true) (m : Message) where
  kept :
      is_tick m ≡ true
      → length d.buffer < max_buffer
      → on_message d m ≡ (record d { buffer = d.buffer ++ (m ∷ []) }, [])
  unfolding on_message
  kept t fits = ground arith

  given_up : is_tick m ≡ true → max_buffer ≤ length d.buffer → on_message d m ≡ (d, [])
  unfolding on_message
  given_up t full = ground arith

  passed : is_tick m ≡ false → on_message d m ≡ (d, deliver m ∷ [])
  unfolding on_message
  passed o = rw (held, o)

take-zero : (xs : List Message) (n : ℕ) → n ≡ 0 → take n xs ≡ []
take-zero xs zero e = refl
take-zero xs (suc n) e = absurd (omega arith)

take-suc : (x : Message) (xs : List Message) (n k : ℕ) → n ≡ suc k → take n (x ∷ xs) ≡ x ∷ take k xs
take-suc x xs n k e = rw e

take-nil : (n : ℕ) → take {A = Message} n [] ≡ []
take-nil zero = refl
take-nil (suc n) = refl

-- One more tick in the buffer, and one that finds it full.
one_more :
    (buffer ts : List Message) (m : Message)
    → length buffer < max_buffer
    → (buffer ++ (m ∷ [])) ++ take (max_buffer - length (buffer ++ (m ∷ []))) ts
      ≡ buffer ++ take (max_buffer - length buffer) (m ∷ ts)
one_more buffer ts m fits =
    append_assoc buffer (m ∷ []) _
    ∙ ap (◌++◌ buffer) (
        sym (
          take-suc m ts (max_buffer - length buffer) (max_buffer - length (buffer ++ (m ∷ [])))
            (omega (arith, length-append buffer (m ∷ [])))))

none_more :
    (buffer ts ts' : List Message)
    → max_buffer ≤ length buffer
    → buffer ++ take (max_buffer - length buffer) ts
      ≡ buffer ++ take (max_buffer - length buffer) ts'
none_more buffer ts ts' full = ap (◌++◌ buffer) (
    take-zero ts (max_buffer - length buffer) (omega arith)
    ∙ sym (take-zero ts' (max_buffer - length buffer) (omega arith)))

receive_all-paused :
    (ms : List Message) (d : Demo)
    → d.paused ≡ true
    → receive_all d ms
      ≡ (record d { buffer = d.buffer ++ take (room d) (ticks ms) }, map deliver (others ms))
unfolding receive_all ticks others
receive_all-paused [] d held =
    ap (λ b. (record d { buffer = b }, []))
      (sym (append-nil d.buffer) ∙ ap (◌++◌ d.buffer) (sym (take-nil (room d))))
receive_all-paused (m ∷ ms) d held = elim (Bool-cases (is_tick m)) [
  | inr o ↦ rw (passed d held m o, o) (rw (receive_all-paused ms d held))
  | inl t ↦ elim (dec_lt (length d.buffer) max_buffer) [
    | yes fits ↦
        let d' : Demo = record d { buffer = d.buffer ++ (m ∷ []) } in
        rw (kept d held m t fits, t)
          (rw (receive_all-paused ms d' held) (
            ap (λ b. (record d { buffer = b }, map deliver (others ms)))
              (one_more d.buffer (ticks ms) m fits)))
    | no full ↦
        rw (given_up d held m t (omega arith), t)
          (rw (receive_all-paused ms d held) (
            ap (λ b. (record d { buffer = b }, map deliver (others ms)))
              (none_more d.buffer (ticks ms) (m ∷ ticks ms) (omega arith))))
  ]
]

-- Over a pause the demo delivers the other messages as they arrive and then, of the ticks, the first
-- `max_buffer` alone. It is then as it was: nothing tells that ticks are missing.
pub demo_pause-delivers :
    (d : Demo) (ms : List Message)
    → d.paused ≡ false
    → d.buffer ≡ []
    → let paused = (set_paused d true).0 in
      let after = receive_all paused ms in
      let resumed = set_paused after.0 false in
      (after.1 ++ resumed.1 ≡ map deliver (others ms ++ take max_buffer (ticks ms)))
      × (resumed.0 ≡ d)
unfolding set_paused
demo_pause-delivers d ms flows empty =
    rw (flows, empty)
      (rw (receive_all-paused ms (record { paused = true; buffer = [] }) refl)
        (sym (map-append deliver (others ms) (take max_buffer (ticks ms))), refl))
