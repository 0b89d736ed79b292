-- ===== src/Proxy/Relay.antt =====
-- `relay_header` and `relay_content` of proxylab-handout/proxy.c. An `int` that overflows is a
-- fault.
pub mod Content
pub mod Header
pub mod Fields
use splab.Prelude.{
  ℕ, zero, suc, ◌+◌, Bool, true, false, ◌&&◌, ◌||◌, not, ltb, ◌==◌, if◌then◌else◌, List, [], ◌∷◌,
  length, take, set, Option, none, some,
}
use splab.Prelude.Int.{ℤ, pos, negsuc, pos_part}
use splab.Prelude.Fault.{◌>>=◌}
use splab.Proxy.Stream.{Received, byte, failed, Conn, readline, writebuf}
use splab.Proxy.Text.{find_char, starts_with, starts_with_nocase, atoi, to_int}

-- What a relay leaves: its result, `*content`, the buffer, and both connections.
pub record Relayed : Type 0 where
  pub res : ℤ
  pub content : ℤ
  pub buf : List ℕ
  pub source : Conn
  pub sink : Conn

abbrev pub content_length : List ℕ
content_length =
    b'c' ∷ b'o' ∷ b'n' ∷ b't' ∷ b'e' ∷ b'n' ∷ b't' ∷ b'-' ∷ b'l' ∷ b'e' ∷ b'n' ∷ b'g' ∷ b't' ∷ b'h'
    ∷ []

abbrev pub crlf : List ℕ
crlf = b'\r' ∷ b'\n' ∷ []

-- `strncasecmp(buf, "Content-Length", 14) == 0`
unfoldable pub is_content_length : List ℕ → Bool
is_content_length = starts_with_nocase content_length

-- The test of a line for the length of the content. The string does not end with the line: behind
-- it stands what the buffer held before.
unfoldable pub declared : ℤ → List ℕ → Option ℤ
declared content buf =
    if is_content_length buf
    then (do (before, value) ← find_char b' ' buf; atoi value)
    else some content

-- The rest of a pass of `relay_header` behind the `writebuf` of the line, given its result. Says
-- whether the loop ends too.
abbrev pub forwarded : ℕ → ℕ → ℤ → List ℕ → Conn → ℤ × Conn → Option (Bool × Relayed)
forwarded sum len content buf source (negsuc n, sink) =
    some
      (true, record { res = negsuc 0; content = content; buf = buf; source = source; sink = sink })
forwarded sum len content buf source (pos n, sink) = do
  sum' ← to_int (sum + len)
  some (
    len == 0 || starts_with crlf buf,
    record { res = pos sum'; content = content; buf = buf; source = source; sink = sink },
  )

-- The rest of a pass behind `readline`, given its result, the buffer and the connection
abbrev pub received : ℕ → ℤ → Conn → ℤ × List ℕ × Conn → Option (Bool × Relayed)
received sum content sink (negsuc n, buf, source) =
    some
      (true, record { res = negsuc 0; content = content; buf = buf; source = source; sink = sink })
received sum content sink (pos len, buf, source) = do
  content' ← declared content buf
  forwarded sum len content' buf source
      (if ltb 0 len then writebuf (take len buf) sink else (pos 0, sink))

-- The loop of `relay_header`. A line takes at least one byte, so the number of bytes to read and
-- one is enough fuel.
unfoldable pub header_loop : ℕ → ℕ → ℤ → List ℕ → Conn → Conn → Option Relayed
header_loop zero sum content buf source sink = none
header_loop (suc fuel) sum content buf source sink = do
  (last, r) ← received sum content sink (readline buf source)
  elim last [
    | true ↦ some r
    | false ↦ header_loop fuel (pos_part r.res) r.content r.buf r.source r.sink
  ]

-- `relay_header`
unfoldable pub relay_header : List ℕ → Conn → Conn → Option Relayed
relay_header buf source sink = header_loop (length source.input + 1) 0 (pos 0) buf source sink

-- `content && i == content`
abbrev pub reached : ℤ → ℕ → Bool
reached (negsuc n) i = false
reached (pos n) i = not (n == 0) && i == n

-- `j` behind the `writebuf` of a full buffer, if that succeeds
abbrev pub emptied : ℤ × Conn → Option ℕ × Conn
emptied (negsuc n, sink) = (none, sink)
emptied (pos n, sink) = (some 0, sink)

-- `if(j == len)`: the buffer is written when it is full.
unfoldable pub flush : ℕ → List ℕ → Conn → Option ℕ × Conn
flush j buf sink = if j == length buf then emptied (writebuf (take j buf) sink) else (some j, sink)

-- What the loop of `relay_content` does before it reads
pub data Step : Type 0 where
  done aborted : Conn → Step
  go : ℕ → Conn → Step

abbrev pub advanced : Option ℕ × Conn → Step
advanced (none, sink) = aborted sink
advanced (some j, sink) = go j sink

unfoldable pub before_read : ℤ → ℕ → ℕ → List ℕ → Conn → Step
before_read content i j buf sink =
    if reached content i then done sink else advanced (flush j buf sink)

-- What follows the loop. The result of the last `writebuf` is not tested.
abbrev pub finish : ℕ → ℕ → List ℕ → List Received → Conn → ℤ × List ℕ × List Received × Conn
finish i j buf input sink = (pos i, buf, input, (writebuf (take j buf) sink).1)

-- The loop of `relay_content` over what is left to read
unfoldable pub content_loop :
    ℤ → ℕ → ℕ → List ℕ → List Received → Conn → Option (ℤ × List ℕ × List Received × Conn)
content_loop content i j buf [] sink = elim (before_read content i j buf sink) [
  | done sink' ↦ some (finish i j buf [] sink')
  | aborted sink' ↦ some (negsuc 0, buf, [], sink')
  | go j' sink' ↦ some (finish i j' buf [] sink')
]
content_loop content i j buf (failed ∷ input) sink = elim (before_read content i j buf sink) [
  | done sink' ↦ some (finish i j buf (failed ∷ input) sink')
  | aborted sink' ↦ some (negsuc 0, buf, failed ∷ input, sink')
  | go j' sink' ↦ some (negsuc 0, buf, input, sink')
]
content_loop content i j buf (byte c ∷ input) sink = elim (before_read content i j buf sink) [
  | done sink' ↦ some (finish i j buf (byte c ∷ input) sink')
  | aborted sink' ↦ some (negsuc 0, buf, byte c ∷ input, sink')
  | go j' sink' ↦ do
    i' ← to_int (i + 1)
    content_loop content i' (j' + 1) (set buf j' c) input sink'
]

-- `relay_content`
unfoldable pub relay_content : ℤ → List ℕ → Conn → Conn → Option Relayed
relay_content content buf source sink = do
  (res, buf', input', sink') ← content_loop content 0 0 buf source.input sink
  some record {
    res = res;
    content = content;
    buf = buf';
    source = record source { input = input' };
    sink = sink';
  }
