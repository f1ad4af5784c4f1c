-- ===== src/Close/Agreement.antt =====
-- What the end of the close on one side says of the other side, over a network that may lose, repeat
-- and reorder messages, but makes none up.
use tcp_implementation_over.Common.{
  ℕ, zero, suc, ◌≡◌, refl, sym, ap, subst, ◌∙◌, List, [], ◌∷◌, ◌++◌, Memᴰ, arith, ◌⊎◌, inl, inr,
  ◌==◌, Bool-cases,
}
use mathlib.Core.List.Memᴰ.{append_cases}
use tcp_implementation_over.Wire.{fin_request, ack_request}
use tcp_implementation_over.Close.Active.{clean_close-heard}
use tcp_implementation_over.Close.{
  start, Event, timeout, received, Locals, Control, inner, outer, finished, active_step, follow,
  active_loop, active_close, ignored, acknowledged, passive_loop, passive_close, Outcome,
}

-- All messages that come are among those.
abbrev pub AreFrom : List ℕ → List Event → Type 0
AreFrom sent [] = Unit
AreFrom sent (timeout ∷ es) = AreFrom sent es
AreFrom sent (received m ∷ es) = Memᴰ m sent × AreFrom sent es

message : ℕ → Event → ℕ
message k timeout = k
message k (received m) = m

message-injective : {m k : ℕ} → received m ≡ received k → m ≡ k
unfolding message
message-injective {m} {k} e = ap (message 0) e

carried :
    (sent : List ℕ) (es : List Event) (m : ℕ) → AreFrom sent es → Memᴰ (received m) es → Memᴰ m sent
carried sent [] m a i = elim i [ ]
carried sent (timeout ∷ es) m a (Memᴰ.head e) = absurd (cc e)
carried sent (timeout ∷ es) m a (Memᴰ.tail i) = carried sent es m a i
carried sent (received k ∷ es) m a (Memᴰ.head e) =
    subst (λ (x : ℕ). Memᴰ x sent) (sym (message-injective e)) a.0
carried sent (received k ∷ es) m a (Memᴰ.tail i) = carried sent es m a.1 i

-- The loop of the server ends well only on an ACK.
loop-heard_ack :
    (n : ℕ) (es : List Event)
    → (passive_loop n es).1 ≡ acknowledged
    → Memᴰ (received ack_request) es
unfolding passive_loop
loop-heard_ack zero es e = absurd (cc e)
loop-heard_ack (suc n) [] e = absurd (cc e)
loop-heard_ack (suc n) (timeout ∷ es) e = Memᴰ.tail (loop-heard_ack n es e)
loop-heard_ack (suc n) (received m ∷ es) e = elim (Bool-cases (m == ack_request)) [
  | inl ack ↦ Memᴰ.head (ap received (ground (arith, ack)))
  | inr other ↦
      let step : (passive_loop (suc n) (received m ∷ es)).1 ≡ (passive_loop (suc n) es).1 =
        rw other refl in
      Memᴰ.tail (loop-heard_ack (suc n) es (sym step ∙ e))
]

follow-sent :
    (r : Locals × List ℕ × Control) (rest : Locals → Outcome)
    → Memᴰ ack_request (follow r rest).sent
    → Memᴰ ack_request r.1 ⊎ Memᴰ ack_request (rest r.0).sent
follow-sent (s, ms, inner) rest i = append_cases ms i
follow-sent (s, ms, outer) rest i = elim (append_cases (ms ++ fin_request ∷ []) i) [
  | inl j ↦ elim (append_cases ms j) [
    | inl k ↦ inl k
    | inr k ↦ elim k [
      | Memᴰ.head e ↦ absurd (omega (arith, e))
      | Memᴰ.tail none_left ↦ elim none_left [ ]
    ]
  ]
  | inr j ↦ inr j
]
follow-sent (s, ms, finished) rest i = inl i

step-heard_fin :
    (s : Locals) (e : Event) → Memᴰ ack_request (active_step s e).1 → e ≡ received fin_request
unfolding active_step
step-heard_fin s timeout i = elim i [ ]
step-heard_fin s (received m) i = elim (Bool-cases (m == ack_request)) [
  | inl ack ↦
      let e : (active_step s (received m)).1 ≡ [] = rw ack refl in
      elim (subst (λ (xs : List ℕ). Memᴰ ack_request xs) e i) [ ]
  | inr other ↦ elim (Bool-cases (m == fin_request)) [
    | inl fin ↦ ap received (ground (arith, fin))
    | inr neither ↦
        let e : (active_step s (received m)).1 ≡ [] = rw (other, neither) refl in
        elim (subst (λ (xs : List ℕ). Memᴰ ack_request xs) e i) [ ]
  ]
]

-- The loop of the client sends an ACK only when a FIN came.
loop-heard_fin :
    (s : Locals) (es : List Event)
    → Memᴰ ack_request (active_loop s es).sent
    → Memᴰ (received fin_request) es
unfolding active_loop
loop-heard_fin s [] i = elim i [ ]
loop-heard_fin s (e ∷ es) i = elim (follow-sent (active_step s e) (λ s'. active_loop s' es) i) [
  | inl j ↦ Memᴰ.head (sym (step-heard_fin s e j))
  | inr j ↦ Memᴰ.tail (loop-heard_fin (active_step s e).0 es j)
]

-- If all that the server gets behind the client's first message is sent by the close of the client, and
-- the server ends with an ACK, then the first message was the FIN, and the client got the server's FIN.
pub acknowledged-heard :
    (first : ℕ) (client_events server_events : List Event)
    → AreFrom (active_close client_events).sent server_events
    → (passive_close first server_events).1 ≡ acknowledged
    → (first ≡ fin_request) × Memᴰ (received fin_request) client_events
unfolding active_close passive_close
acknowledged-heard first client_events server_events from e =
    elim (Bool-cases (first == fin_request)) [
      | inl fin ↦
          let same : (passive_close first server_events).1 ≡ (passive_loop 2 server_events).1 =
            rw fin refl in
          let ended : (passive_loop 2 server_events).1 ≡ acknowledged = sym same ∙ e in
          (
            ground (arith, fin),
            from_loop (
                carried (active_close client_events).sent server_events ack_request from
                  (loop-heard_ack 2 server_events ended)),
          )
      | inr other ↦
          let dropped : (passive_close first server_events).1 ≡ ignored = rw other refl in
          absurd (not-ignored (sym dropped ∙ e))
    ]
  where
    from_loop :
        Memᴰ ack_request (active_close client_events).sent
        → Memᴰ (received fin_request) client_events
    from_loop (Memᴰ.head x) = absurd (omega (arith, x))
    from_loop (Memᴰ.tail i) = loop-heard_fin start client_events i

    not-ignored : ignored ≡ acknowledged → ⊥
    not-ignored x = cc x

-- If all that the client gets is sent by the close of the server, and the client counts its final wait
-- down to the end, then the first message that the server got was the FIN.
pub clean_close-agreed :
    (first : ℕ) (client_events server_events : List Event)
    → AreFrom (passive_close first server_events).0 client_events
    → (active_close client_events).locals.two_msl ≡ 0
    → first ≡ fin_request
unfolding passive_close
clean_close-agreed first client_events server_events from e =
    elim (Bool-cases (first == fin_request)) [
      | inl fin ↦ ground (arith, fin)
      | inr other ↦
          let silent : (passive_close first server_events).0 ≡ [] = rw other refl in
          let i =
            carried (passive_close first server_events).0 client_events ack_request from
              (clean_close-heard client_events e).0 in
          elim (subst (λ (xs : List ℕ). Memᴰ ack_request xs) silent i) [ ]
    ]
