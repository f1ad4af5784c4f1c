-- ===== src/Close/Active.antt =====
-- The client's side of the close: it ends, and a clean end means that both messages came.
use tcp_implementation_over.Common.{
  ℕ, suc, ◌+◌, ◌≤◌, ◌<◌, ◌≡◌, refl, Bool, true, false, List, [], ◌∷◌, Memᴰ, arith, ◌⊎◌, inl, inr,
  sym, ap, subst, ◌∙◌,
}
use tcp_implementation_over.Wire.{fin_request, ack_request}
use tcp_implementation_over.Close.{
  ActiveCloseState, fin_wait2, closing, time_wait, Event, timeout, received, Locals, Control, inner,
  outer, finished, active_step, Outcome, follow, active_loop, active_close, start,
}

abbrev pub timeouts : List Event → ℕ
timeouts [] = 0
timeouts (timeout ∷ es) = suc (timeouts es)
timeouts (received m ∷ es) = timeouts es

-- The two counters while the loop runs.
record IsRunning (s : Locals) : Type 0 where
  retry_left : 0 < s.num_retry
  msl_left : 0 < s.two_msl

abbrev cost : Event → ℕ
cost timeout = 1
cost (received m) = 0

-- A timeout takes one from the counters, or ends the loop; a message takes nothing.
step-cost :
    (s : Locals) (e : Event)
    → IsRunning s
    → let (s', ms, c) = active_step s e in
      (c ≡ finished)
      ⊎ (IsRunning s' × (s'.num_retry + s'.two_msl + cost e ≡ s.num_retry + s.two_msl))
unfolding active_step
step-cost s timeout h = ground arith
step-cost s (received m) h = ground arith

done-follow :
    (r : Locals × List ℕ × Control) (rest : Locals → Outcome)
    → (r.2 ≡ finished) ⊎ ((rest r.0).done ≡ true)
    → (follow r rest).done ≡ true
done-follow (s, ms, finished) rest h = refl
done-follow (s, ms, inner) rest h = ground arith
done-follow (s, ms, outer) rest h = ground arith

loop-done :
    (s : Locals) (es : List Event)
    → IsRunning s
    → s.num_retry + s.two_msl ≤ timeouts es + 1
    → (active_loop s es).done ≡ true
unfolding active_loop
loop-done s [] h enough = absurd (omega arith)
loop-done s (e ∷ es) h enough = done-follow (active_step s e) _ (elim (step-cost s e h) [
  | inl over ↦ inl over
  | inr (running, spent) ↦ inr (loop-done (active_step s e).0 es running (spare e es enough spent))
])
  where
    spare :
        (e : Event) (es : List Event) {a b : ℕ}
        → b ≤ timeouts (e ∷ es) + 1
        → a + cost e ≡ b
        → a ≤ timeouts es + 1
    spare timeout es p q = omega arith
    spare (received m) es p q = omega arith

-- Four timeouts are enough to end the close, whatever messages come between them.
pub active_close-done : (es : List Event) → 4 ≤ timeouts es → (active_close es).done ≡ true
unfolding active_close
active_close-done es h = loop-done start es (ground arith) (omega arith)

-- The two messages that a state stands for.
abbrev heard_ack : ActiveCloseState → Bool
heard_ack fin_wait2 = true
heard_ack time_wait = true
heard_ack _ = false

abbrev heard_fin : ActiveCloseState → Bool
heard_fin closing = true
heard_fin time_wait = true
heard_fin _ = false

step-heard_ack :
    (s : Locals) (e : Event)
    → heard_ack (active_step s e).0.current_state ≡ true
    → (heard_ack s.current_state ≡ true) ⊎ (e ≡ received ack_request)
unfolding active_step
step-heard_ack s timeout h = ground arith
step-heard_ack s (received m) h = ground arith

step-heard_fin :
    (s : Locals) (e : Event)
    → heard_fin (active_step s e).0.current_state ≡ true
    → (heard_fin s.current_state ≡ true) ⊎ (e ≡ received fin_request)
unfolding active_step
step-heard_fin s timeout h = ground arith
step-heard_fin s (received m) h = ground arith

-- The wait for 2 MSL is only counted down in TIME_WAIT.
abbrev IsWaiting : Locals → Type 0
IsWaiting s = (s.two_msl ≡ 2) ⊎ (s.current_state ≡ time_wait)

step-IsWaiting : (s : Locals) (e : Event) → IsWaiting s → IsWaiting (active_step s e).0
unfolding active_step
step-IsWaiting s timeout h = ground arith
step-IsWaiting s (received m) h = ground arith

locals-follow :
    (r : Locals × List ℕ × Control) (rest : Locals → Outcome)
    → ((follow r rest).locals ≡ r.0) ⊎ ((follow r rest).locals ≡ (rest r.0).locals)
locals-follow (s, ms, finished) rest = inl refl
locals-follow (s, ms, inner) rest = inr refl
locals-follow (s, ms, outer) rest = inr refl

loop-IsWaiting : (s : Locals) (es : List Event) → IsWaiting s → IsWaiting (active_loop s es).locals
unfolding active_loop
loop-IsWaiting s [] h = h
loop-IsWaiting s (e ∷ es) h = elim (locals-follow (active_step s e) (λ s'. active_loop s' es)) [
  | inl last ↦ subst IsWaiting (sym last) (step-IsWaiting s e h)
  | inr more ↦
      subst IsWaiting (sym more) (loop-IsWaiting (active_step s e).0 es (step-IsWaiting s e h))
]

-- What a state has heard was heard before, or is among the events.
loop-heard :
    (heard : ActiveCloseState → Bool) (m : ℕ)
    → ((s : Locals) (e : Event)
        → heard (active_step s e).0.current_state ≡ true
        → (heard s.current_state ≡ true) ⊎ (e ≡ received m))
    → (s : Locals) (es : List Event) → heard (active_loop s es).locals.current_state ≡ true
    → (heard s.current_state ≡ true) ⊎ Memᴰ (received m) es
unfolding active_loop
loop-heard heard m step s [] h = inl h
loop-heard heard m step s (e ∷ es) h =
    elim (locals-follow (active_step s e) (λ s'. active_loop s' es)) [
      | inl last ↦ at_step (step s e (ap (λ (t : Locals). heard t.current_state) (sym last) ∙ h))
      | inr more ↦ at_rest (
          loop-heard heard m step (active_step s e).0 es
            (ap (λ (t : Locals). heard t.current_state) (sym more) ∙ h))
    ]
  where
    at_step :
        (heard s.current_state ≡ true) ⊎ (e ≡ received m)
        → (heard s.current_state ≡ true) ⊎ Memᴰ (received m) (e ∷ es)
    at_step (inl p) = inl p
    at_step (inr p) = inr (Memᴰ.head (sym p))

    at_rest :
        (heard (active_step s e).0.current_state ≡ true) ⊎ Memᴰ (received m) es
        → (heard s.current_state ≡ true) ⊎ Memᴰ (received m) (e ∷ es)
    at_rest (inl p) = at_step (step s e p)
    at_rest (inr p) = inr (Memᴰ.tail p)

-- The close counts TIME_WAIT down to its end only if the server's ACK and the server's FIN came.
pub clean_close-heard :
    (es : List Event)
    → (active_close es).locals.two_msl ≡ 0
    → Memᴰ (received ack_request) es × Memᴰ (received fin_request) es
unfolding active_close
clean_close-heard es h =
    let waited : (active_loop start es).locals.current_state ≡ time_wait =
      ground (arith, loop-IsWaiting start es (inl refl)) in
    (
      from_start (loop-heard heard_ack ack_request step-heard_ack start es (ap heard_ack waited)),
      from_start (loop-heard heard_fin fin_request step-heard_fin start es (ap heard_fin waited)),
    )
  where
    from_start : {m : ℕ} → (false ≡ true) ⊎ Memᴰ (received m) es → Memᴰ (received m) es
    from_start (inl p) = absurd (cc)
    from_start (inr p) = p
