-- ===== src/Proxy/Text.antt =====
-- The string functions of libc that proxylab-handout/proxy.c calls on its buffers. A string is the
-- list of bytes from a pointer to the end of its buffer: it ends at the first 0, and a read behind
-- the buffer is a fault.
use splab.Prelude.{
  ℕ, zero, suc, ◌+◌, ◌-◌, ◌*◌, ◌^◌, Bool, true, false, ◌&&◌, ◌||◌, leb, ltb, ◌==◌, if◌then◌else◌,
  List, [], ◌∷◌, length, drop, ◌++◌, Option, none, some, ◌≡◌, ◌<◌, arith,
}
use splab.Prelude.Int.{ℤ, pos, negsuc}
use splab.Prelude.Fault.{◌>>=◌}

-- `strchr` with a result that the code dereferences: what stands before the byte, and the string
-- behind it. The code has no test for the null pointer, so its absence is a fault.
unfoldable pub find_char : ℕ → List ℕ → Option (List ℕ × List ℕ)
find_char c [] = none
find_char c (d ∷ s) =
    let rest = (do (before, behind) ← find_char c s; some (d ∷ before, behind)) in
    if d == c then some ([], s) else if d == 0 then none else rest

abbrev pub is_host_end : ℕ → Bool
is_host_end c = c == b' ' || c == b':' || c == b'/' || c == b'\r' || c == b'\n'

-- `strpbrk(s, " :/\r\n\0")`, whose result the code dereferences
unfoldable pub find_host_end : List ℕ → Option (List ℕ × List ℕ)
find_host_end [] = none
find_host_end (d ∷ s) =
    let rest = (do (before, at) ← find_host_end s; some (d ∷ before, at)) in
    if is_host_end d then some ([], d ∷ s) else if d == 0 then none else rest

-- `tolower`
abbrev pub lower : ℕ → ℕ
lower c = if leb b'A' c && leb c b'Z' then c + 32 else c

-- `strncmp(s, p, n) == 0` for a literal `p` of `n` bytes. A buffer that ends inside `p` does not
-- match.
abbrev pub starts_with : List ℕ → List ℕ → Bool
starts_with [] s = true
starts_with (c ∷ p) [] = false
starts_with (c ∷ p) (d ∷ s) = d == c && starts_with p s

-- `strncasecmp(s, p, n) == 0` for a literal `p` of `n` small letters and signs
abbrev pub starts_with_nocase : List ℕ → List ℕ → Bool
starts_with_nocase [] s = true
starts_with_nocase (c ∷ p) [] = false
starts_with_nocase (c ∷ p) (d ∷ s) = lower d == c && starts_with_nocase p s

abbrev pub is_digit : ℕ → Bool
is_digit c = leb b'0' c && leb c b'9'

-- `isspace`
abbrev pub is_space : ℕ → Bool
is_space c = c == b' ' || leb 9 c && leb c 13

-- A value that no `int` has is undefined.
abbrev pub to_int : ℕ → Option ℕ
to_int n = if ltb n (2 ^ 31) then some n else none

pub to_int_fits : (n : ℕ) → n < 2 ^ 31 → to_int n ≡ some n
to_int_fits n l = ground arith

-- The digits of `atoi`, behind the value `n`
unfoldable pub digits_from : ℕ → List ℕ → Option ℕ
digits_from n [] = none
digits_from n (c ∷ s) =
    let rest = digits_from (n * 10 + (c - b'0')) s in if is_digit c then rest else to_int n

abbrev pub negate : ℕ → ℤ
negate zero = pos 0
negate (suc n) = negsuc n

-- The sign of `atoi`
abbrev pub signed : List ℕ → Option ℤ
signed [] = none
signed (c ∷ s) =
    if c == b'-'
    then (do n ← digits_from 0 s; some (negate n))
    else if c == b'+'
    then (do n ← digits_from 0 s; some (pos n))
    else (do n ← digits_from 0 (c ∷ s); some (pos n))

-- `atoi`
unfoldable pub atoi : List ℕ → Option ℤ
atoi [] = none
atoi (c ∷ s) = let rest = atoi s in if is_space c then rest else signed (c ∷ s)

-- `strncpy` of the bytes that a string has before a later one, into a buffer. It writes no 0.
abbrev pub copy_into : List ℕ → List ℕ → Option (List ℕ)
copy_into bytes buf =
    if leb (length bytes) (length buf) then some (bytes ++ drop (length bytes) buf) else none

-- ... and the 0 that the code writes behind them
abbrev pub copy_string : List ℕ → List ℕ → Option (List ℕ)
copy_string bytes buf = copy_into (bytes ++ 0 ∷ []) buf

-- The text of a string, where it has one
unfoldable pub text : List ℕ → Option (List ℕ)
text [] = none
text (c ∷ s) = let rest = (do t ← text s; some (c ∷ t)) in if c == 0 then some [] else rest
