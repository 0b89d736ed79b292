-- ===== src/Proxy/Relay/Header/Line.antt =====
-- A line of a header in proxylab-handout/proxy.c, and the pass of `relay_header` that relays it.
use splab.Prelude.{
  ℕ, suc, ◌+◌, ◌^◌, ◌<◌, ◌≡◌, refl, ap, true, false, ◌==◌, ltb, List, [], ◌∷◌, ◌++◌, map, length,
  take, drop, some, arith,
}
use splab.Prelude.Int.{ℤ, pos}
use splab.Proxy.Stream.{Received, byte, Conn, newline}
use splab.Proxy.Stream.Lines.{IsPlain}
use splab.Proxy.Stream.Writes.{Accepts, writebuf_all}
use splab.Proxy.Text.{to_int_fits, starts_with}
use splab.Proxy.Relay.{declared, crlf, received}

pub map-line :
    (text s : List ℕ) (rest : List Received)
    → map byte (text ++ newline ∷ s) ++ rest
      ≡ map byte (text ++ newline ∷ []) ++ (map byte s ++ rest)
map-line [] s rest = refl
map-line (c ∷ text) s rest = ap (byte c ∷◌) (map-line text s rest)

pub take_line :
    (text s : List ℕ) → take (suc (length text)) (text ++ newline ∷ s) ≡ text ++ newline ∷ []
take_line [] s = refl
take_line (c ∷ text) s = ap (c ∷◌) (take_line text s)

pub length_line :
    (text buf : List ℕ)
    → length text < length buf
    → length (text ++ newline ∷ drop (suc (length text)) buf) ≡ length buf
length_line text [] l = absurd (omega (arith, l))
length_line [] (b ∷ buf) l = refl
length_line (c ∷ text) (b ∷ buf) l = ap suc (length_line text buf (omega (arith, l)))

starts_with_line :
    (text stale : List ℕ)
    → IsPlain text
    → starts_with crlf (text ++ newline ∷ stale) ≡ starts_with crlf (text ++ newline ∷ [])
starts_with_line [] stale plain = refl
starts_with_line (c ∷ []) stale plain = refl
starts_with_line (c ∷ d ∷ text) stale plain = refl

-- What `readline` gives for a line
abbrev pub line_read : List ℕ → List ℕ → List Received → Conn → ℤ × List ℕ × Conn
line_read text buf rest source = (
  pos (suc (length text)),
  text ++ newline ∷ drop (suc (length text)) buf,
  record source { input = rest },
)

-- A pass relays a line and goes on, unless it is the empty line.
pub received_line :
    (sum : ℕ) (content content' : ℤ) (text buf : List ℕ) (rest : List Received) (source sink : Conn)
    → IsPlain text
    → declared content (text ++ newline ∷ drop (suc (length text)) buf) ≡ some content'
    → sum + suc (length text) < 2 ^ 31
    → Accepts sink
    → (sink' : Conn) × (received sum content sink (line_read text buf rest source)
        ≡ some (
          starts_with crlf (text ++ newline ∷ []),
          record {
            res = pos (sum + suc (length text));
            content = content';
            buf = text ++ newline ∷ drop (suc (length text)) buf;
            source = record source { input = rest };
            sink = sink';
          },
        ))
      × (sink'.output ≡ sink.output ++ (text ++ newline ∷ []))
      × (sink'.input ≡ sink.input)
      × Accepts sink'
received_line sum content content' text buf rest source sink plain d l h =
    let (sink', w, out, inp, k) = writebuf_all (text ++ newline ∷ []) sink h in
    let stale = drop (suc (length text)) buf in
    let some_bytes : ltb 0 (suc (length text)) ≡ true = ground arith in
    let not_end : (suc (length text) == 0) ≡ false = ground arith in
    (
      sink',
      rw (d, some_bytes, take_line text stale, w)
          (rw (to_int_fits (sum + suc (length text)) l, not_end, starts_with_line text stale plain)
            refl),
      out,
      inp,
      k,
    )
