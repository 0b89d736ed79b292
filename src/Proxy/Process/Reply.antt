-- ===== src/Proxy/Process/Reply.antt =====
-- The response of a server, from its first line to its content, in `process` of
-- proxylab-handout/proxy.c.
use splab.Prelude.{
  ℕ, suc, ◌+◌, ◌^◌, ◌<◌, ◌≡◌, ◌⊎◌, refl, ap, ◌∙◌, inl, inr, true, false, ltb, ◌≢◌, ◌≤◌, List, [],
  ◌∷◌, ◌++◌, map, append-nil, append_assoc, length, drop, some, arith,
}
use splab.Prelude.Int.{ℤ, pos, negsuc}
use splab.Prelude.Fault.{Ensures, Ensures-some}
use splab.Proxy.Stream.{Received, byte, Conn, newline}
use splab.Proxy.Stream.Lines.{IsPlain, readline_line}
use splab.Proxy.Stream.Writes.{Accepts, writebuf_all}
use splab.Proxy.Text.{to_int_fits, starts_with_nocase}
use splab.Proxy.Relay.{Relayed, relay_header, relay_content}
use splab.Proxy.Relay.Content.{Ends, IsRelayed, relay_content_refines}
use splab.Proxy.Relay.Header.{Describes, header_bytes, relay_header_refines}
use splab.Proxy.Relay.Header.Line.{take_line, length_line}
use splab.Proxy.Request.{parse_response}
use splab.Proxy.Process.{head, has_content, reply_content, replied, reply}

-- What is left of a response with this content: the sum for the log, the bytes at the client, and
-- what is not read.
pub record IsReplied (count : ℕ) (output : List ℕ) (rest : List Received) (r : ℕ × Relayed)
    : Type 0 where
  pub sum : r.0 ≡ count
  pub written : r.1.sink.output ≡ output
  pub left : r.1.source.input ≡ rest
  pub accepts : Accepts r.1.sink

-- The codes that a response with content may have: 200 and above, but for 204 and 304
abbrev pub Carries : ℤ → Type 0
Carries (negsuc n) = ⊥
Carries (pos msg) = (200 ≤ msg) × (msg ≢ 204) × (msg ≢ 304)

-- The codes of a response without content: below 200, 204 and 304
abbrev pub Empty : ℤ → Type 0
Empty (negsuc n) = Unit
Empty (pos msg) = (msg < 200) ⊎ (msg ≡ 204) ⊎ (msg ≡ 304)

-- What follows the header, by RFC 2616: to a HEAD, or with a code that allows no content, nothing;
-- else the content up to the declared length or the end of the input.
pub data Follows (method : List ℕ) (msg content : ℤ) (body : List ℕ) (rest : List Received)
    : Type 0 where
  to_head :
      starts_with_nocase (b'h' ∷ b'e' ∷ b'a' ∷ b'd' ∷ []) method ≡ true
      → body ≡ []
      → Follows method msg content body rest
  without : Empty msg → body ≡ [] → Follows method msg content body rest
  with_body :
      starts_with_nocase (b'h' ∷ b'e' ∷ b'a' ∷ b'd' ∷ []) method ≡ false
      → Carries msg
      → Ends content body rest
      → Follows method msg content body rest

has_content-head :
    (method : List ℕ) (msg : ℤ)
    → starts_with_nocase head method ≡ true
    → has_content method msg ≡ false
unfolding has_content
has_content-head method (negsuc n) e = refl
has_content-head method (pos msg) e = rw e refl

has_content-Empty : (method : List ℕ) (msg : ℤ) → Empty msg → has_content method msg ≡ false
unfolding has_content
has_content-Empty method (negsuc n) e = refl
has_content-Empty method (pos msg) (inl l) = ground arith
has_content-Empty method (pos msg) (inr (inl e)) = ground arith
has_content-Empty method (pos msg) (inr (inr e)) = ground arith

has_content-Carries :
    (method : List ℕ) (msg : ℤ)
    → starts_with_nocase head method ≡ false
    → Carries msg
    → has_content method msg ≡ true
unfolding has_content
has_content-Carries method (negsuc n) e c = absurd c
has_content-Carries method (pos msg) e (l, a, b) = rw e (ground arith)

-- What the test of the code makes of that
Taken : List ℕ → ℤ → ℤ → List ℕ → List Received → Type 0
Taken method msg content body rest =
    ((has_content method msg ≡ true) × Ends content body rest)
    ⊎ ((has_content method msg ≡ false) × (body ≡ []))

Follows-Taken :
    (method : List ℕ) (msg content : ℤ) (body : List ℕ) (rest : List Received)
    → Follows method msg content body rest
    → Taken method msg content body rest
unfolding Taken
Follows-Taken method msg content body rest (to_head e b) = inr (has_content-head method msg e, b)
Follows-Taken method msg content body rest (without e b) = inr (has_content-Empty method msg e, b)
Follows-Taken method msg content body rest (with_body e c ends) =
    inl (has_content-Carries method msg e c, ends)

reply_content_refines :
    (method : List ℕ) (msg content : ℤ) (sum : ℕ) (body : List ℕ) (rest : List Received)
    (header : Relayed)
    → header.content ≡ content
    → 0 < length header.buf
    → sum + length body < 2 ^ 31
    → header.source.input ≡ map byte body ++ rest
    → Accepts header.sink
    → Taken method msg content body rest
    → Ensures
        (reply_content method msg sum header)
        (IsReplied (sum + length body) (header.sink.output ++ body) rest)
unfolding reply_content Taken
reply_content_refines method msg content sum body rest header c l n e h (inl (f, ends)) =
    let copied =
      relay_content_refines header.content header.buf body rest header.source header.sink l
        (omega (arith, n)) e (rw c ends) h in
    let done =
      IsRelayed (length body) header.content rest (header.sink.output ++ body) header.buf
        header.source header.sink in
    let (relayed, g, r) =
      Ensures-some done (relay_content header.content header.buf header.source header.sink)
        copied in
    rw (f, g)
      (rw (r.res, to_int_fits (sum + length body) n)
        record { sum = refl; written = r.written; left = rw r.left refl; accepts = r.accepts })
reply_content_refines method msg content sum body rest header c l n e h (inr (f, none_left)) =
    let count : sum + 0 ≡ sum = omega arith in
    rw f (
      rw none_left record {
        sum = rw count refl;
        written = rw (append-nil header.sink.output) refl;
        left = rw none_left at e;
        accepts = h;
      })

-- `reply` on a response that arrives: the client gets the status line, the header, the empty line
-- and the content exactly as they came, what follows is not read, and `sum` is the size of the
-- status line and the content. There is content for every code from 200 on but 204 and 304, if the
-- method does not start with "head" in any case, up to the declared length or, with none or 0
-- declared, the end of the input. It does not fault if the line has a code, the lines and the sizes
-- fit, and no write to the client fails.
pub reply_refines :
    (method status : List ℕ) (msg content : ℤ) (texts : List (List ℕ)) (body buf : List ℕ)
    (rest : List Received) (client server : Conn)
    → 1 < length buf
    → length status < length buf
    → IsPlain status
    → ((stale : List ℕ) → parse_response (status ++ newline ∷ stale) ≡ some msg)
    → Describes (length buf) (pos 0) texts content
    → Follows method msg content body rest
    → suc (length status) + length body < 2 ^ 31
    → length (header_bytes texts) < 2 ^ 31
    → server.input
      ≡ map byte (status ++ newline ∷ [])
        ++ (map byte (header_bytes texts) ++ (map byte body ++ rest))
    → Accepts client
    → Ensures (reply method buf client server) (
        IsReplied
          (suc (length status) + length body)
          (client.output ++ ((status ++ newline ∷ []) ++ (header_bytes texts ++ body)))
          rest)
unfolding reply replied
reply_refines method status msg content texts body buf rest client server l fits plain code d
      follows n m e h =
    let bytes = header_bytes texts in
    let later = map byte bytes ++ (map byte body ++ rest) in
    let stale = drop (suc (length status)) buf in
    let buf' = status ++ newline ∷ stale in
    let size = length_line status buf fits in
    let line = readline_line status buf later server plain fits e in
    let some_bytes : ltb 0 (suc (length status)) ≡ true = ground arith in
    let (client', w, out, inp, k) = writebuf_all (status ++ newline ∷ []) client h in
    let server' = record server { input = later } in
    let (header, g, r) =
      Ensures-some
        (IsRelayed (length bytes) content (map byte body ++ rest) (client'.output ++ bytes) buf'
          server' client')
        (relay_header buf' server' client')
        (relay_header_refines content texts buf' (map byte body ++ rest) server' client' (rw size l)
          m refl (rw size d) k) in
    let whole : header.sink.output ++ body
        ≡ client.output ++ ((status ++ newline ∷ []) ++ (bytes ++ body)) =
      ap (◌++ body) (r.written ∙ ap (◌++ bytes) out)
      ∙ append_assoc (client.output ++ (status ++ newline ∷ [])) bytes body
      ∙ append_assoc client.output (status ++ newline ∷ []) (bytes ++ body) in
    let room = r.buffer in
    rw (line, replied)
      (rw (some_bytes, code stale, take_line status stale, w)
        (rw g (
          rw whole at (
            reply_content_refines method msg content (suc (length status)) body rest header
              r.declares (omega (arith, l, size, room)) n (rw r.left refl) r.accepts
              (Follows-Taken method msg content body rest follows)))))
