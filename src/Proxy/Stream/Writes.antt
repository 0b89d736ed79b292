-- ===== src/Proxy/Stream/Writes.antt =====
-- `writebuf` of proxylab-handout/proxy.c over writes that take a part of the bytes.
use splab.Prelude.{
  ℕ, ◌+◌, ◌≡◌, refl, ap, List, [], ◌∷◌, ◌++◌, append-nil, append_assoc, length, take, drop,
  take-append-drop, length-append, All, arith,
}
use splab.Prelude.Int.{pos}
use splab.Proxy.Stream.{Sent, took, refused, Conn, writebuf_from, writebuf}

-- A write that does not fail
abbrev pub Takes : Sent → Type 0
Takes refused = ⊥
Takes (took n) = Unit

-- No write on the connection fails.
abbrev pub Accepts : Conn → Type 0
Accepts conn = All Takes conn.answers

writebuf_from_all :
    (i : ℕ) (buf : List ℕ) (answers : List Sent) (output : List ℕ)
    → All Takes answers
    → (left : List Sent) × (writebuf_from i buf answers output
        ≡ (pos (i + length buf), left, output ++ buf))
      × All Takes left
unfolding writebuf_from
writebuf_from_all i [] answers output h =
    let count : i + 0 ≡ i = omega arith in (answers, rw (append-nil output, count) refl, h)
writebuf_from_all i (b ∷ buf) [] output h = ([], refl, tt)
writebuf_from_all i (b ∷ buf) (refused ∷ answers) output h = absurd h.0
writebuf_from_all i (b ∷ buf) (took n ∷ answers) output h =
    let first = take n (b ∷ buf) in
    let rest = drop n (b ∷ buf) in
    let whole : first ++ rest ≡ b ∷ buf = take-append-drop n (b ∷ buf) in
    let (left, e, k) = writebuf_from_all (i + length first) rest answers (output ++ first) h.1 in
    let count : i + length first + length rest ≡ i + length (b ∷ buf) =
      omega (arith, length-append first rest, ap length whole) in
    (left, rw (e, count, append_assoc output first rest, whole) refl, k)

-- When no write fails, `writebuf` writes the whole buffer behind what is written already, in as many
-- writes as it takes, and gives its length.
pub writebuf_all :
    (buf : List ℕ) (conn : Conn)
    → Accepts conn
    → (conn' : Conn) × (writebuf buf conn ≡ (pos (length buf), conn'))
      × (conn'.output ≡ conn.output ++ buf)
      × (conn'.input ≡ conn.input)
      × Accepts conn'
unfolding writebuf
writebuf_all buf conn h =
    let (left, e, k) = writebuf_from_all 0 buf conn.answers conn.output h in
    let count : 0 + length buf ≡ length buf = omega arith in
    (record conn { answers = left; output = conn.output ++ buf }, rw (e, count) refl, refl, refl, k)
