-- ===== src/Proxy/Relay/Content/Loop.antt =====
-- The loop of `relay_content` of proxylab-handout/proxy.c on bytes that arrive.
use splab.Prelude.{
  ℕ, zero, suc, ◌+◌, ◌^◌, ◌<◌, ◌≤◌, ◌≡◌, refl, sym, ap, ◌∙◌, ◌⊎◌, inl, inr, true, false, ◌==◌, List,
  [], ◌∷◌, ◌++◌, map, append-nil, append_assoc, length, take, set, length-set, Bool-cases, some,
  arith,
}
use splab.Prelude.Int.{ℤ, pos}
use splab.Prelude.Fault.{Ensures, Ensures-imp}
use splab.Proxy.Stream.{Received, byte, failed, Conn, writebuf}
use splab.Proxy.Stream.Writes.{Accepts, writebuf_all}
use splab.Proxy.Text.{to_int_fits}
use splab.Proxy.Relay.{
  reached, emptied, advanced, flush, done, go, before_read, finish, content_loop,
}

take-set :
    (buf : List ℕ) (j c : ℕ) → j < length buf → take (j + 1) (set buf j c) ≡ take j buf ++ c ∷ []
take-set [] j c l = absurd (omega (arith, l))
take-set (b ∷ buf) zero c l = refl
take-set (b ∷ buf) (suc j) c l =
    let more : suc j + 1 ≡ suc (j + 1) = omega arith in
    rw (more, take-set buf j c (omega (arith, l))) refl

-- The pass to the next read keeps the bytes that are written or held back.
record IsReady (content : ℤ) (i j : ℕ) (buf : List ℕ) (sink : Conn) : Type 0 where
  j' : ℕ
  sink' : Conn
  goes : before_read content i j buf sink ≡ go j' sink'
  room : j' < length buf
  kept : sink'.output ++ take j' buf ≡ sink.output ++ take j buf
  input : sink'.input ≡ sink.input
  accepts : Accepts sink'

before_read-IsReady :
    (content : ℤ) (i j : ℕ) (buf : List ℕ) (sink : Conn)
    → reached content i ≡ false
    → 0 < length buf
    → j ≤ length buf
    → Accepts sink
    → IsReady content i j buf sink
unfolding before_read flush
before_read-IsReady content i j buf sink e l m h = elim (Bool-cases (j == length buf)) [
  | inl f ↦
      let (sink', w, out, inp, k) = writebuf_all (take j buf) sink h in
      let flushed : flush j buf sink ≡ (some 0, sink') = rw f (ap emptied w) in
      record {
        j' = 0;
        sink' = sink';
        goes = rw e (ap advanced flushed);
        room = l;
        kept = rw (append-nil sink'.output) out;
        input = inp;
        accepts = k;
      }
  | inr f ↦
      let flushed : flush j buf sink ≡ (some j, sink) = rw f refl in
      record {
        j' = j;
        sink' = sink;
        goes = rw e (ap advanced flushed);
        room = ground arith;
        kept = refl;
        input = refl;
        accepts = h;
      }
]

-- What the loop leaves: the number of bytes, the input behind them, and `output` on the other side.
pub record IsCopied (count : ℕ) (rest : List Received) (output : List ℕ) (buf : List ℕ)
    (sink : Conn) (left : ℤ × List ℕ × List Received × Conn) : Type 0 where
  pub res : left.0 ≡ pos count
  pub buffer : length left.1 ≡ length buf
  pub input : left.2 ≡ rest
  pub written : left.3.output ≡ output
  pub back : left.3.input ≡ sink.input
  pub accepts : Accepts left.3

finish-IsCopied :
    (i j : ℕ) (buf : List ℕ) (input : List Received) (sink : Conn)
    → Accepts sink
    → IsCopied i input (sink.output ++ take j buf) buf sink (finish i j buf input sink)
finish-IsCopied i j buf input sink h =
    let (sink', w, out, inp, k) = writebuf_all (take j buf) sink h in
    let same : (writebuf (take j buf) sink).1 ≡ sink' = rw w refl in
    record {
      res = refl;
      buffer = refl;
      input = refl;
      written = rw same out;
      back = rw same inp;
      accepts = rw same k;
    }

content_loop_done :
    (content : ℤ) (i j : ℕ) (buf : List ℕ) (input : List Received) (sink : Conn)
    → before_read content i j buf sink ≡ done sink
    → content_loop content i j buf input sink ≡ some (finish i j buf input sink)
unfolding content_loop
content_loop_done content i j buf [] sink e = rw (e, content_loop) refl
content_loop_done content i j buf (failed ∷ input) sink e = rw (e, content_loop) refl
content_loop_done content i j buf (byte c ∷ input) sink e = rw (e, content_loop) refl

content_loop_eof :
    (content : ℤ) (i j : ℕ) (buf : List ℕ) (sink : Conn)
    → reached content i ≡ false
    → 0 < length buf
    → j ≤ length buf
    → Accepts sink
    → Ensures
        (content_loop content i j buf [] sink)
        (IsCopied i [] (sink.output ++ take j buf) buf sink)
unfolding content_loop
content_loop_eof content i j buf sink e l m h =
    let ready = before_read-IsReady content i j buf sink e l m h in
    let copied = finish-IsCopied i ready.j' buf [] ready.sink' ready.accepts in
    rw (ready.goes, content_loop)
      record {
        res = copied.res;
        buffer = copied.buffer;
        input = copied.input;
        written = copied.written ∙ ready.kept;
        back = copied.back ∙ ready.input;
        accepts = copied.accepts;
      }

content_loop_end :
    (content : ℤ) (i j : ℕ) (buf : List ℕ) (rest : List Received) (sink : Conn)
    → 0 < length buf
    → j ≤ length buf
    → (reached content i ≡ true) ⊎ (rest ≡ [])
    → Accepts sink
    → Ensures
        (content_loop content i j buf rest sink)
        (IsCopied i rest (sink.output ++ take j buf) buf sink)
unfolding before_read
content_loop_end content i j buf rest sink l m stop h = elim (Bool-cases (reached content i)) [
  | inl f ↦
      rw (content_loop_done content i j buf rest sink (rw f refl))
        (finish-IsCopied i j buf rest sink h)
  | inr f ↦ elim stop [ inl e ↦ cc | inr e ↦ rw e (content_loop_eof content i j buf sink f l m h) ]
]

shift :
    (out out' held held' body : List ℕ) (c : ℕ)
    → out' ++ held' ≡ out ++ held
    → out' ++ ((held' ++ c ∷ []) ++ body) ≡ out ++ (held ++ c ∷ body)
shift out out' held held' body c e =
    rw (append_assoc held' (c ∷ []) body, sym (append_assoc out' held' (c ∷ body)), e)
      (append_assoc out held (c ∷ body))

pub content_loop_all :
    (content : ℤ) (i j : ℕ) (buf body : List ℕ) (rest : List Received) (sink : Conn)
    → 0 < length buf
    → j ≤ length buf
    → i + length body < 2 ^ 31
    → ((k : ℕ) → k < i + length body → reached content k ≡ false)
    → (reached content (i + length body) ≡ true) ⊎ (rest ≡ [])
    → Accepts sink
    → Ensures
        (content_loop content i j buf (map byte body ++ rest) sink)
        (IsCopied (i + length body) rest (sink.output ++ (take j buf ++ body)) buf sink)
unfolding content_loop
content_loop_all content i j buf [] rest sink l m n before stop h =
    let count : i + 0 ≡ i = omega arith in
    rw (count, append-nil (take j buf))
      (content_loop_end content i j buf rest sink l m (rw count at stop) h)
content_loop_all content i j buf (c ∷ body) rest sink l m n before stop h =
    let ready = before_read-IsReady content i j buf sink (before i (omega arith)) l m h in
    let count : i + 1 + length body ≡ i + suc (length body) = omega arith in
    let len = length-set buf ready.j' c in
    let joined =
      shift sink.output ready.sink'.output (take j buf) (take ready.j' buf) body c ready.kept in
    let moved = rw (sym (take-set buf ready.j' c ready.room)) at joined in
    let ih =
      content_loop_all content (i + 1) (ready.j' + 1) (set buf ready.j' c) body rest ready.sink'
        (rw len l) (rw len (let room = ready.room in omega arith)) (rw count n) (rw count before)
        (rw count stop) ready.accepts in
    rw (ready.goes, content_loop)
      (rw (to_int_fits (i + 1) (omega (arith, n))) (
        Ensures-imp _
          (IsCopied (i + length (c ∷ body)) rest (sink.output ++ (take j buf ++ c ∷ body)) buf sink)
          _ ih
          λ left r. record {
            res = rw (sym count) r.res;
            buffer = r.buffer ∙ len;
            input = r.input;
            written = r.written ∙ moved;
            back = r.back ∙ ready.input;
            accepts = r.accepts;
          }))
