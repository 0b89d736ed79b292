-- ===== src/Proxy/Stream/Lines.antt =====
-- `readline` of proxylab-handout/proxy.c on a line that arrives, and on one that breaks off.
use splab.Prelude.{
  ℕ, suc, ◌+◌, ◌<◌, ◌≡◌, refl, false, ◌==◌, List, [], ◌∷◌, ◌++◌, map, length, drop, All, arith,
}
use splab.Prelude.Int.{pos}
use splab.Proxy.Stream.{Received, byte, Conn, newline, readline_from, readline}

-- Bytes with no newline among them
abbrev pub IsPlain : List ℕ → Type 0
IsPlain = All (λ c. (c == newline) ≡ false)

readline_from_line :
    (i : ℕ) (text buf : List ℕ) (rest : List Received)
    → IsPlain text
    → length text < length buf
    → readline_from i buf (map byte (text ++ newline ∷ []) ++ rest)
      ≡ (pos (i + suc (length text)), text ++ newline ∷ drop (suc (length text)) buf, rest)
unfolding readline_from
readline_from_line i text [] rest plain l = absurd (omega (arith, l))
readline_from_line i [] (b ∷ buf) rest plain l = refl
readline_from_line i (c ∷ text) (b ∷ buf) rest plain l =
    let more : i + 1 + suc (length text) ≡ i + suc (suc (length text)) = omega arith in
    rw (plain.0, readline_from_line (i + 1) text buf rest plain.1 (omega (arith, l)), more) refl

-- A line that fits the buffer is read with its newline and nothing behind it; the buffer keeps what
-- stood behind the line.
pub readline_line :
    (text buf : List ℕ) (rest : List Received) (conn : Conn)
    → IsPlain text
    → length text < length buf
    → conn.input ≡ map byte (text ++ newline ∷ []) ++ rest
    → readline buf conn ≡ (
      pos (suc (length text)),
      text ++ newline ∷ drop (suc (length text)) buf,
      record conn { input = rest },
    )
unfolding readline
readline_line text buf rest conn plain l e =
    let count : 0 + suc (length text) ≡ suc (length text) = omega arith in
    rw (e, readline_from_line 0 text buf rest plain l, count) refl

readline_from_full :
    (i : ℕ) (text : List ℕ) (rest : List Received) (buf : List ℕ)
    → IsPlain text
    → length text ≡ length buf
    → readline_from i buf (map byte text ++ rest) ≡ (pos (i + length text), text, rest)
unfolding readline_from
readline_from_full i [] rest [] plain l = let count : i + 0 ≡ i = omega arith in rw count refl
readline_from_full i [] rest (b ∷ buf) plain l = absurd (omega (arith, l))
readline_from_full i (c ∷ text) rest [] plain l = absurd (omega (arith, l))
readline_from_full i (c ∷ text) rest (b ∷ buf) plain l =
    let more : i + 1 + length text ≡ i + suc (length text) = omega arith in
    rw (plain.0, readline_from_full (i + 1) text rest buf plain.1 (omega (arith, l)), more) refl

readline_from_cut :
    (i : ℕ) (text buf : List ℕ)
    → IsPlain text
    → length text < length buf
    → readline_from i buf (map byte text) ≡ (pos 0, text ++ drop (length text) buf, [])
unfolding readline_from
readline_from_cut i text [] plain l = absurd (omega (arith, l))
readline_from_cut i [] (b ∷ buf) plain l = refl
readline_from_cut i (c ∷ text) (b ∷ buf) plain l =
    rw (plain.0, readline_from_cut (i + 1) text buf plain.1 (omega (arith, l))) refl

-- A full buffer ends the line too.
pub readline_full :
    (text buf : List ℕ) (rest : List Received) (conn : Conn)
    → IsPlain text
    → length text ≡ length buf
    → conn.input ≡ map byte text ++ rest
    → readline buf conn ≡ (pos (length text), text, record conn { input = rest })
unfolding readline
readline_full text buf rest conn plain l e =
    let count : 0 + length text ≡ length text = omega arith in
    rw (e, readline_from_full 0 text rest buf plain l, count) refl

-- If the input ends inside a line that fits the buffer, `readline` gives 0, as at the end of the
-- input, though it took the bytes.
pub readline_cut :
    (text buf : List ℕ) (conn : Conn)
    → IsPlain text
    → length text < length buf
    → conn.input ≡ map byte text
    → readline buf conn ≡ (pos 0, text ++ drop (length text) buf, record conn { input = [] })
unfolding readline
readline_cut text buf conn plain l e = rw (e, readline_from_cut 0 text buf plain l) refl
