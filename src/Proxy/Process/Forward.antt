-- ===== src/Proxy/Process/Forward.antt =====
-- The request of a client behind its first line, in `process` of proxylab-handout/proxy.c.
use splab.Prelude.{
  ℕ, zero, suc, ◌≢◌, ◌^◌, ◌<◌, ◌≡◌, ◌⊎◌, refl, ap, ◌∙◌, inl, inr, true, false, List, [], ◌∷◌, ◌++◌,
  map, append-nil, append_assoc, length, arith,
}
use splab.Prelude.Int.{ℤ, pos, negsuc}
use splab.Proxy.Text.{starts_with_nocase}
use splab.Prelude.Fault.{Ensures, Ensures-some}
use splab.Proxy.Stream.{Received, byte, Conn, newline}
use splab.Proxy.Stream.Writes.{Accepts, writebuf_all}
use splab.Proxy.Relay.{Relayed, relay_header, relay_content}
use splab.Proxy.Relay.Content.{Ends, IsRelayed, relay_content_refines}
use splab.Proxy.Relay.Header.{Describes, header_bytes, relay_header_refines}
use splab.Proxy.Relay.Header.Line.{take_line}
use splab.Proxy.Process.{nonzero, is_posted, forward_content, forward}

-- What is left of a request: the bytes at the server, and what is not read.
pub record IsForwarded (output : List ℕ) (rest : List Received) (r : Relayed) : Type 0 where
  pub written : r.sink.output ≡ output
  pub left : r.source.input ≡ rest
  pub accepts : Accepts r.sink

-- The content that follows the header of a request: none but for a POST with a declared length
pub data Posts (method : List ℕ) (content : ℤ) (body : List ℕ) (rest : List Received) : Type 0 where
  not_posted :
      starts_with_nocase (b'p' ∷ b'o' ∷ b's' ∷ b't' ∷ []) method ≡ false
      → body ≡ []
      → Posts method content body rest
  no_length : content ≡ pos 0 → body ≡ [] → Posts method content body rest
  posted :
      starts_with_nocase (b'p' ∷ b'o' ∷ b's' ∷ b't' ∷ []) method ≡ true
      → content ≢ pos 0
      → Ends content body rest
      → Posts method content body rest

nonzero_lem : (content : ℤ) → content ≢ pos 0 → nonzero content ≡ true
nonzero_lem (negsuc n) h = refl
nonzero_lem (pos zero) h = absurd (h refl)
nonzero_lem (pos (suc n)) h = ground arith

is_posted-length : (method : List ℕ) → is_posted method (pos 0) ≡ false
unfolding is_posted
is_posted-length method = ground arith

-- What the test of the code makes of that
Taken : List ℕ → ℤ → List ℕ → List Received → Type 0
Taken method content body rest =
    ((is_posted method content ≡ true) × Ends content body rest)
    ⊎ ((is_posted method content ≡ false) × (body ≡ []))

Posts-Taken :
    (method : List ℕ) (content : ℤ) (body : List ℕ) (rest : List Received)
    → Posts method content body rest
    → Taken method content body rest
unfolding Taken is_posted
Posts-Taken method content body rest (not_posted e b) = inr (rw e refl, b)
Posts-Taken method content body rest (no_length e b) = inr (rw e (is_posted-length method), b)
Posts-Taken method content body rest (posted e n ends) =
    inl (rw (e, nonzero_lem content n) refl, ends)

forward_content_refines :
    (method : List ℕ) (content : ℤ) (body : List ℕ) (rest : List Received) (header : Relayed)
    → header.content ≡ content
    → 0 < length header.buf
    → length body < 2 ^ 31
    → header.source.input ≡ map byte body ++ rest
    → Accepts header.sink
    → Taken method content body rest
    → Ensures (forward_content method header) (IsForwarded (header.sink.output ++ body) rest)
unfolding forward_content Taken
forward_content_refines method content body rest header c l n e h (inl (f, ends)) =
    let copied =
      relay_content_refines header.content header.buf body rest header.source header.sink l n e
        (rw c ends) h in
    let (relayed, g, r) =
      Ensures-some
        (IsRelayed (length body) header.content rest (header.sink.output ++ body) header.buf
          header.source header.sink)
        (relay_content header.content header.buf header.source header.sink) copied in
    let here : is_posted method header.content ≡ true = rw c f in
    rw (here, g) record { written = r.written; left = rw r.left refl; accepts = r.accepts }
forward_content_refines method content body rest header c l n e h (inr (f, none_left)) =
    let here : is_posted method header.content ≡ false = rw c f in
    rw here (
      rw none_left record {
        written = rw (append-nil header.sink.output) refl;
        left = rw none_left at e;
        accepts = h;
      })

-- `forward` on a request that arrives: the server gets the request line, the header, the empty line
-- and the content exactly as they came, and what follows is not read. There is content if the method
-- starts with "post" in any case and the declared length is not 0, up to that length or, if it is
-- negative, the end of the input. It does not fault if
-- the lines and the sizes fit and no write to the server fails.
pub forward_refines :
    (method request stale : List ℕ) (content : ℤ) (texts : List (List ℕ)) (body : List ℕ)
    (rest : List Received) (client server : Conn)
    → let buf = request ++ newline ∷ stale in
      1 < length buf
      → Describes (length buf) (pos 0) texts content
      → Posts method content body rest
      → length body < 2 ^ 31
      → length (header_bytes texts) < 2 ^ 31
      → client.input ≡ map byte (header_bytes texts) ++ (map byte body ++ rest)
      → Accepts server
      → Ensures (forward method (suc (length request)) buf client server) (
          IsForwarded
            (server.output ++ ((request ++ newline ∷ []) ++ (header_bytes texts ++ body)))
            rest)
unfolding forward
forward_refines method request stale content texts body rest client server l d posts n m e h =
    let bytes = header_bytes texts in
    let buf = request ++ newline ∷ stale in
    let later = map byte body ++ rest in
    let (server', w, out, inp, k) = writebuf_all (request ++ newline ∷ []) server h in
    let (header, g, r) =
      Ensures-some
        (IsRelayed (length bytes) content later (server'.output ++ bytes) buf client server')
        (relay_header buf client server')
        (relay_header_refines content texts buf later client server' l m e d k) in
    let whole : header.sink.output ++ body
        ≡ server.output ++ ((request ++ newline ∷ []) ++ (bytes ++ body)) =
      ap (◌++ body) (r.written ∙ ap (◌++ bytes) out)
      ∙ append_assoc (server.output ++ (request ++ newline ∷ [])) bytes body
      ∙ append_assoc server.output (request ++ newline ∷ []) (bytes ++ body) in
    let room = r.buffer in
    let body_lem =
      forward_content_refines method content body rest header r.declares (omega (arith, l, room)) n
        (rw r.left refl) r.accepts (Posts-Taken method content body rest posts) in
    rw (take_line request stale, w) (rw g (rw whole at body_lem))
