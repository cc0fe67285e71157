-- ===== src/Demo/TcpServer/Connections.antt =====
-- What the TCP demo server has done after any run, and that it comes back to `accept`.
use gateway_forge.Common.{
  ℕ, ◌+◌, ◌≡◌, refl, sym, ap, subst, ◌∙◌, Option, some, List, [], ◌∷◌, ◌++◌, map, arith, ltb,
  if◌then◌else◌, length, append-nil, append_assoc, Bool-cases, inl, inr,
}
use gateway_forge.Common.Words.{Bytes}
use gateway_forge.Common.Text.{Text}
use gateway_forge.Demo.TcpServer.{
  Answer, refused, accepted, received, ended, Phase, accepting, serving, TcpServer, ack_of,
  on_received, disconnected, on_answer_in, on_answer, Serves, at_start, step,
}

-- The acknowledgements of what `recv` gave: one for each piece of at least ten bytes.
abbrev pub acks_of : List Bytes → List Bytes
acks_of [] = []
acks_of (chunk ∷ chunks) =
    (if ltb (length chunk) 10 then [] else ack_of chunk ∷ []) ++ acks_of chunks

abbrev chunk_of : Answer → List Bytes
chunk_of (received chunk) = chunk ∷ []
chunk_of _ = []

-- The pieces among the answers, and the number of clients.
abbrev pub chunks_of : List Answer → List Bytes
chunks_of [] = []
chunks_of (answer ∷ answers) = chunk_of answer ++ chunks_of answers

abbrev client_of : Answer → ℕ
client_of (accepted address port) = 1
client_of _ = 0

abbrev pub clients_of : List Answer → ℕ
clients_of [] = 0
clients_of (answer ∷ answers) = client_of answer + clients_of answers

abbrev pub open_clients : Phase → ℕ
open_clients accepting = 0
open_clients serving = 1

acks_of-append : (xs ys : List Bytes) → acks_of (xs ++ ys) ≡ acks_of xs ++ acks_of ys
acks_of-append [] ys = refl
acks_of-append (x ∷ xs) ys =
    ap (λ (acks : List Bytes). (if ltb (length x) 10 then [] else ack_of x ∷ []) ++ acks)
      (acks_of-append xs ys)
    ∙ sym (append_assoc (if ltb (length x) 10 then [] else ack_of x ∷ []) (acks_of xs) (acks_of ys))

chunks_of-append : (xs ys : List Answer) → chunks_of (xs ++ ys) ≡ chunks_of xs ++ chunks_of ys
chunks_of-append [] ys = refl
chunks_of-append (x ∷ xs) ys =
    ap (λ (chunks : List Bytes). chunk_of x ++ chunks) (chunks_of-append xs ys)
    ∙ sym (append_assoc (chunk_of x) (chunks_of xs) (chunks_of ys))

clients_of-append : (xs ys : List Answer) → clients_of (xs ++ ys) ≡ clients_of xs + clients_of ys
clients_of-append [] ys = omega arith
clients_of-append (x ∷ xs) ys = omega (arith, clients_of-append xs ys)

on_received_lem :
    (st : TcpServer) (chunk : Bytes)
    → ((on_received st chunk).acks ≡ st.acks ++ acks_of (chunk ∷ []))
      × ((on_received st chunk).phase ≡ st.phase)
      × ((on_received st chunk).closed ≡ st.closed)
unfolding on_received
on_received_lem st chunk = elim (Bool-cases (ltb (length chunk) 10)) [
  | inl short ↦ rw short (sym (append-nil st.acks), refl, refl)
  | inr long ↦ rw long (refl, refl, refl)
]

-- One step, as the counts see it.
abbrev IsCounted : Phase → Answer → TcpServer → TcpServer → Type 0
IsCounted phase answer st next =
    (next.acks ≡ st.acks ++ acks_of (chunk_of answer))
    × (client_of answer + (st.closed + open_clients phase) ≡ next.closed + open_clients next.phase)

some_injective : {a b : TcpServer} → ◌≡◌ {A = Option TcpServer} (some a) (some b) → a ≡ b
some_injective e = cc

on_answer_in-IsCounted :
    (phase : Phase) (answer : Answer) (st : TcpServer) {next : TcpServer}
    → phase ≡ st.phase
    → on_answer_in phase answer st ≡ some next
    → IsCounted phase answer st next
unfolding on_answer_in
on_answer_in-IsCounted accepting refused st p h =
    subst (IsCounted accepting refused st) (some_injective h)
      (sym (append-nil st.acks), omega (arith, ap open_clients p))
on_answer_in-IsCounted accepting (accepted address port) st p h =
    subst (IsCounted accepting (accepted address port) st) (some_injective h)
      (sym (append-nil st.acks), omega arith)
on_answer_in-IsCounted accepting (received buf) st p h = cc
on_answer_in-IsCounted accepting ended st p h = cc
on_answer_in-IsCounted serving refused st p h = cc
on_answer_in-IsCounted serving (accepted address port) st p h = cc
on_answer_in-IsCounted serving (received buf) st p h =
    let (acks, phase, closed) = on_received_lem st buf in
    subst (IsCounted serving (received buf) st) (some_injective h)
      (acks, omega (arith, closed, ap open_clients phase, ap open_clients p))
on_answer_in-IsCounted serving ended st p h =
    subst (IsCounted serving ended st) (some_injective h) (sym (append-nil st.acks), omega arith)

-- After any run the server has sent one acknowledgement for each piece of at least ten bytes that
-- `recv` gave, in order, and it has closed the socket of each client that it took but the one that
-- it is serving.
pub Serves-acks :
    (answers : List Answer) (st : TcpServer)
    → Serves answers st
    → (st.acks ≡ acks_of (chunks_of answers))
      × (clients_of answers ≡ st.closed + open_clients st.phase)
Serves-acks _ _ at_start = (refl, refl)
Serves-acks _ _ (step answers answer {st} {next} run h) =
    let (acks, clients) = Serves-acks answers st run in
    let (more, closed) = on_answer_in-IsCounted st.phase answer st refl h in
    (
      more
          ∙ ap (λ (sent : List Bytes). sent ++ acks_of (chunk_of answer)) acks
          ∙ sym (acks_of-append (chunks_of answers) (chunk_of answer))
          ∙ ap (λ (chunks : List Bytes). acks_of (chunks_of answers ++ chunks))
              (sym (append-nil (chunk_of answer)))
          ∙ ap acks_of (sym (chunks_of-append answers (answer ∷ []))),
      omega (arith, clients, closed, clients_of-append answers (answer ∷ [])),
    )

-- A client's connection: its address and port, and the pieces in which its bytes come.
pub record Connection : Type 0 where
  pub address : Text
  pub port : ℕ
  pub chunks : List Bytes

abbrev pub answers_of : Connection → List Answer
answers_of c = accepted c.address c.port ∷ (map received c.chunks ++ (ended ∷ []))

abbrev pub all_answers_of : List Connection → List Answer
all_answers_of [] = []
all_answers_of (c ∷ cs) = answers_of c ++ all_answers_of cs

serve_chunks :
    (answers : List Answer) (chunks : List Bytes) {st : TcpServer}
    → Serves answers st
    → st.phase ≡ serving
    → (next : TcpServer) × Serves (answers ++ map received chunks) next × (next.phase ≡ serving)
unfolding on_answer_in
serve_chunks answers [] {st} run p =
    (st, subst (λ (all : List Answer). Serves all st) (sym (append-nil answers)) run, p)
serve_chunks answers (chunk ∷ chunks) {st} run p =
    let moved : on_answer st (received chunk) ≡ some (on_received st chunk) =
      ap (λ (phase : Phase). on_answer_in phase (received chunk) st) p in
    let (next, rest, q) =
      serve_chunks (answers ++ (received chunk ∷ [])) chunks
        (step answers (received chunk) run moved)
        (let (_, same, _) = on_received_lem st chunk in same ∙ p) in
    (
      next,
      subst (λ (all : List Answer). Serves all next)
          (append_assoc answers (received chunk ∷ []) (map received chunks)) rest,
      q,
    )

serve_connection :
    (answers : List Answer) (c : Connection) {st : TcpServer}
    → Serves answers st
    → st.phase ≡ accepting
    → (next : TcpServer) × Serves (answers ++ answers_of c) next × (next.phase ≡ accepting)
unfolding on_answer_in
serve_connection answers c {st} run p =
    let first =
      step answers (accepted c.address c.port) run
        (ap (λ (phase : Phase). on_answer_in phase (accepted c.address c.port) st) p) in
    let (busy, served, q) =
      serve_chunks (answers ++ (accepted c.address c.port ∷ [])) c.chunks first refl in
    let last = step _ ended served (ap (λ (phase : Phase). on_answer_in phase ended busy) q) in
    (
      disconnected busy,
      subst (λ (all : List Answer). Serves all (disconnected busy))
          (append_assoc (answers ++ (accepted c.address c.port ∷ [])) (map received c.chunks)
              (ended ∷ [])
            ∙ append_assoc answers (accepted c.address c.port ∷ [])
                (map received c.chunks ++ (ended ∷ [])))
          last,
      refl,
    )

-- Whatever the server has done, once it waits for a client it takes any further clients, one after
-- another, whatever they send in whatever pieces, and then waits for a client again.
pub serve_connections :
    (answers : List Answer) (st : TcpServer) (connections : List Connection)
    → Serves answers st
    → st.phase ≡ accepting
    → (next : TcpServer) × Serves (answers ++ all_answers_of connections) next
      × (next.phase ≡ accepting)
serve_connections answers st [] run p =
    (st, subst (λ (all : List Answer). Serves all st) (sym (append-nil answers)) run, p)
serve_connections answers st (c ∷ cs) run p =
    let (busy, served, q) = serve_connection answers c run p in
    let (next, rest, r) = serve_connections (answers ++ answers_of c) busy cs served q in
    (
      next,
      subst (λ (all : List Answer). Serves all next)
          (append_assoc answers (answers_of c) (all_answers_of cs)) rest,
      r,
    )
