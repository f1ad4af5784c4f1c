-- ===== src/Listen/Serve.antt =====
-- Which request the server's loop takes.
use Prim.Native.String.{String}
use tcp_implementation_over.Common.{
  ℕ, ◌+◌, ◌<◌, ◌≡◌, refl, ap, ◌∙◌, none, some, List, [], ◌∷◌, ◌++◌, arith, length, if◌then◌else◌,
}
use tcp_implementation_over.Clients.{ClientInfo, on_request}
use tcp_implementation_over.Clients.Full.{used, on_request-twice}
use tcp_implementation_over.Listen.{
  Ready, idle, receive_error, request, first_request, on_first, serve_round,
}

-- No request among them.
abbrev pub AreSilent : List Ready → Type 0
AreSilent [] = Unit
AreSilent (idle ∷ rs) = AreSilent rs
AreSilent (receive_error ∷ rs) = AreSilent rs
AreSilent (request ip port ∷ rs) = ⊥

first_request-behind :
    (count : ℕ) (before after : List Ready) (ip : String) (port : ℕ)
    → AreSilent before
    → first_request count (before ++ request ip port ∷ after)
      ≡ some (count + length before, ip, port)
unfolding first_request
first_request-behind count [] after ip port s = ap (λ (n : ℕ). some (n, ip, port)) (omega arith)
first_request-behind count (idle ∷ rs) after ip port s =
    first_request-behind (count + 1) rs after ip port s
    ∙ ap (λ (n : ℕ). some (n, ip, port)) (omega arith)
first_request-behind count (receive_error ∷ rs) after ip port s =
    first_request-behind (count + 1) rs after ip port s
    ∙ ap (λ (n : ℕ). some (n, ip, port)) (omega arith)
first_request-behind count (request i p ∷ rs) after ip port s = absurd s

-- A round takes the first request, past sockets with nothing to read and past errors: the client is
-- looked up or added, and a child is forked for its socket exactly if it was unknown.
serve_round-first :
    (cs : List ClientInfo) (before after : List Ready) (ip : String) (port : ℕ)
    → AreSilent before
    → serve_round cs (before ++ request ip port ∷ after) ≡ (
        let (cs', forked) = on_request ip port cs in
        (cs', if forked then some (length before) else none))
unfolding serve_round
serve_round-first cs before after ip port s = ap (on_first cs) (
    first_request-behind 0 before after ip port s
    ∙ ap (λ (n : ℕ). some (n, ip, port)) (omega arith))

-- While an entry of the known clients is empty, a round that takes a client's request and a round that
-- takes it again fork at most one child: the second forks none and leaves the known clients as they are,
-- whichever sockets the requests come in on.
serve_round-twice :
    (cs : List ClientInfo) (before after before' after' : List Ready) (ip : String) (port : ℕ)
    → used cs < length cs
    → AreSilent before
    → AreSilent before'
    → let (cs', forked) = serve_round cs (before ++ request ip port ∷ after) in
      serve_round cs' (before' ++ request ip port ∷ after') ≡ (cs', none)
serve_round-twice cs before after before' after' ip port room s s' =
    rw
      (
        serve_round-first cs before after ip port s,
        serve_round-first (on_request ip port cs).0 before' after' ip port s',
        (on_request-twice ip port cs room).0,
      )
      refl
