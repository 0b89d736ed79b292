-- ===== src/Proxy/Relay/Header.antt =====
-- `relay_header` of proxylab-handout/proxy.c on a header that arrives, over writes that do not fail.
pub mod Line
use splab.Prelude.{
  ℕ, zero, suc, ◌+◌, ◌^◌, ◌<◌, ◌≡◌, refl, sym, ap, ◌∙◌, true, false, ◌==◌, ltb, List, [], ◌∷◌, ◌++◌,
  map, append_assoc, length, length-append, take, drop, some, arith,
}
use splab.Prelude.Int.{ℤ, pos}
use splab.Prelude.Fault.{Ensures, Ensures-imp}
use splab.Proxy.Stream.{Received, byte, Conn, newline}
use splab.Proxy.Stream.Lines.{IsPlain, readline_line}
use splab.Proxy.Stream.Writes.{Accepts, writebuf_all}
use splab.Proxy.Text.{to_int_fits, starts_with}
use splab.Proxy.Relay.{
  Relayed, is_content_length, declared, crlf, received, header_loop, relay_header,
}
use splab.Proxy.Relay.Content.{IsRelayed}
use splab.Proxy.Relay.Header.Line.{map-line, take_line, length_line, line_read, received_line}

-- The bytes of a header of these lines and the empty line
abbrev pub header_bytes : List (List ℕ) → List ℕ
header_bytes [] = crlf
header_bytes (text ∷ texts) = text ++ newline ∷ header_bytes texts

-- A line, without its newline, that a buffer of `size` bytes holds, that is not the empty line, and
-- that takes the declared length from `content` to `content'` whatever stands behind it.
pub record IsField (size : ℕ) (content : ℤ) (text : List ℕ) (content' : ℤ) : Type 0 where
  pub plain : IsPlain text
  pub fits : length text < size
  pub goes_on : starts_with crlf (text ++ newline ∷ []) ≡ false
  pub declares : (stale : List ℕ) → declared content (text ++ newline ∷ stale) ≡ some content'

-- The lines take the declared length from the one value to the other.
abbrev pub Describes : ℕ → ℤ → List (List ℕ) → ℤ → Type 0
Describes size content [] content' = content ≡ content'
Describes size content (text ∷ texts) content' =
    (between : ℤ) × IsField size content text between × Describes size between texts content'

declared-crlf :
    (content : ℤ) (stale : List ℕ) → declared content (b'\r' ∷ newline ∷ stale) ≡ some content
unfolding declared is_content_length
declared-crlf content stale = refl

header_loop_lines :
    (fuel sum : ℕ) (content content' : ℤ) (texts : List (List ℕ)) (buf : List ℕ)
    (rest : List Received) (source sink : Conn)
    → length texts < fuel
    → 1 < length buf
    → sum + length (header_bytes texts) < 2 ^ 31
    → source.input ≡ map byte (header_bytes texts) ++ rest
    → Describes (length buf) content texts content'
    → Accepts sink
    → Ensures (header_loop fuel sum content buf source sink) (
        IsRelayed
          (sum + length (header_bytes texts))
          content'
          rest
          (sink.output ++ header_bytes texts)
          buf
          source
          sink)
unfolding header_loop
header_loop_lines zero sum content content' texts buf rest source sink f l n e d h =
    absurd (omega (arith, f))
header_loop_lines (suc fuel) sum content content' [] buf rest source sink f l n e d h =
    let line = readline_line (b'\r' ∷ []) buf rest source (refl, tt) l e in
    let (sink', r, out, inp, k) =
      received_line sum content content (b'\r' ∷ []) buf rest source sink (refl, tt)
        (declared-crlf content _) n h in
    rw (line, r)
      record {
        res = refl;
        declares = d;
        buffer = length_line (b'\r' ∷ []) buf l;
        left = refl;
        written = out;
        back = inp;
        accepts = k;
      }
header_loop_lines (suc fuel) sum content content' (text ∷ texts) buf rest source sink f l n e d h =
    let (between, field, d') = d in
    let bytes = header_bytes texts in
    let later = map byte bytes ++ rest in
    let buf' = text ++ newline ∷ drop (suc (length text)) buf in
    let size = length_line text buf field.fits in
    let count : sum + suc (length text) + length bytes
        ≡ sum + length (header_bytes (text ∷ texts)) =
      omega (arith, length-append text (newline ∷ bytes)) in
    let line =
      readline_line text buf later source field.plain field.fits (e ∙ map-line text bytes rest) in
    let (sink', r, out, inp, k) =
      received_line sum content between text buf later source sink field.plain (field.declares _)
        (omega (arith, n, count)) h in
    let ih =
      header_loop_lines fuel (sum + suc (length text)) between content' texts buf' rest
        (record source { input = later }) sink' (omega (arith, f)) (rw size l) (rw count n) refl
        (rw size d') k in
    let end : Relayed → Type 0 =
      IsRelayed (sum + length (header_bytes (text ∷ texts))) content' rest
        (sink.output ++ header_bytes (text ∷ texts)) buf source sink in
    rw (line, r)
      (rw field.goes_on (
        Ensures-imp _ end _ ih λ left g. record {
          res = rw (sym count) g.res;
          declares = g.declares;
          buffer = g.buffer ∙ size;
          left = g.left;
          written =
              g.written
              ∙ ap (◌++ bytes) out
              ∙ append_assoc sink.output (text ++ newline ∷ []) bytes
              ∙ ap (sink.output ++◌) (append_assoc text (newline ∷ []) bytes);
          back = g.back ∙ inp;
          accepts = g.accepts;
        }))

line_bound :
    (text s : List ℕ) (rest : List Received)
    → length (map byte s ++ rest) < length (map byte (text ++ newline ∷ s) ++ rest)
line_bound [] s rest = omega arith
line_bound (c ∷ text) s rest = omega (arith, line_bound text s rest)

header_bound :
    (texts : List (List ℕ)) (rest : List Received)
    → length texts < length (map byte (header_bytes texts) ++ rest)
header_bound [] rest = omega arith
header_bound (text ∷ texts) rest =
    omega (arith, line_bound text (header_bytes texts) rest, header_bound texts rest)

pub relay_header_refines :
    (content : ℤ) (texts : List (List ℕ)) (buf : List ℕ) (rest : List Received) (source sink : Conn)
    → 1 < length buf
    → length (header_bytes texts) < 2 ^ 31
    → source.input ≡ map byte (header_bytes texts) ++ rest
    → Describes (length buf) (pos 0) texts content
    → Accepts sink
    → Ensures (relay_header buf source sink) (
        IsRelayed
          (length (header_bytes texts))
          content
          rest
          (sink.output ++ header_bytes texts)
          buf
          source
          sink)
unfolding relay_header
relay_header_refines content texts buf rest source sink l n e d h =
    let count : 0 + length (header_bytes texts) ≡ length (header_bytes texts) = omega arith in
    let enough : length texts < length source.input + 1 =
      omega (arith, header_bound texts rest, ap length e) in
    rw count at (
      header_loop_lines (length source.input + 1) 0 (pos 0) content texts buf rest source sink
        enough l (rw count n) e d h)
