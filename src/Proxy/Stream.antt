-- ===== src/Proxy/Stream.antt =====
-- The connections of proxylab-handout/proxy.c, and `readline` and `writebuf` on them.
pub mod Lines
pub mod Writes
use splab.Prelude.{
  ℕ, zero, suc, ◌+◌, Bool, true, false, ◌==◌, if◌then◌else◌, List, [], ◌∷◌, ◌++◌, length, take,
  drop,
}
use splab.Prelude.Int.{ℤ, pos, negsuc}

-- What one `read` of a byte gives: the byte, or -1.
pub data Received : Type 0 where
  byte : ℕ → Received
  failed : Received

-- What one `write` gives: the number of bytes that it takes, or -1.
pub data Sent : Type 0 where
  took : ℕ → Sent
  refused : Sent

-- A connected socket. `input` is what the reads give one after the other, and behind its end they
-- give 0, the end of file. `answers` is what the writes give; behind its end they take all that is
-- offered. `output` is what has been written.
pub record Conn : Type 0 where
  pub input : List Received
  pub answers : List Sent
  pub output : List ℕ

abbrev pub newline : ℕ
newline = b'\n'

-- The loop of `readline` at `i`, with the rest of the buffer: its length is `len - i`. Gives the
-- result, the new rest of the buffer and what is left to read.
unfoldable pub readline_from : ℕ → List ℕ → List Received → ℤ × List ℕ × List Received
readline_from i [] input = (pos i, [], input)
readline_from i (b ∷ buf) [] = (pos 0, b ∷ buf, [])
readline_from i (b ∷ buf) (failed ∷ input) = (negsuc 0, b ∷ buf, input)
readline_from i (b ∷ buf) (byte c ∷ input) =
    let (res, buf', input') = readline_from (i + 1) buf input in
    if c == newline then (pos (i + 1), c ∷ buf, input) else (res, c ∷ buf', input')

-- `readline`, into a buffer of `len` bytes
unfoldable pub readline : List ℕ → Conn → ℤ × List ℕ × Conn
readline buf conn =
    let (res, buf', input') = readline_from 0 buf conn.input in
    (res, buf', record conn { input = input' })

-- The loop of `writebuf` at `i`, with the bytes from `buf + i` on and the answers to the writes.
-- A write takes no more than it is offered.
unfoldable pub writebuf_from : ℕ → List ℕ → List Sent → List ℕ → ℤ × List Sent × List ℕ
writebuf_from i [] answers output = (pos i, answers, output)
writebuf_from i (b ∷ buf) [] output = (pos (i + length (b ∷ buf)), [], output ++ b ∷ buf)
writebuf_from i (b ∷ buf) (refused ∷ answers) output = (negsuc 0, answers, output)
writebuf_from i (b ∷ buf) (took n ∷ answers) output =
    writebuf_from (i + length (take n (b ∷ buf))) (drop n (b ∷ buf)) answers
      (output ++ take n (b ∷ buf))

-- `writebuf`
unfoldable pub writebuf : List ℕ → Conn → ℤ × Conn
writebuf buf conn =
    let (res, answers', output') = writebuf_from 0 buf conn.answers conn.output in
    (res, record conn { answers = answers'; output = output' })
