-- ===== src/Proxy/Relay/Content.antt =====
-- `relay_content` of proxylab-handout/proxy.c on bytes that arrive, over writes that do not fail.
mod Loop
use splab.Prelude.{
  ℕ, zero, suc, ◌+◌, ◌^◌, ◌<◌, ◌≤◌, ◌≡◌, refl, sym, ap, ◌∙◌, ◌⊎◌, inl, inr, Bool, true, false, ◌==◌,
  ltb, List, [], ◌∷◌, ◌++◌, map, append-nil, append_assoc, length, take, set, length-set,
  Bool-cases, Option, some, none, arith,
}
use splab.Prelude.Int.{ℤ, pos, negsuc}
use splab.Prelude.Fault.{Ensures, Ensures-some, Ensures-imp}
use splab.Proxy.Stream.{Received, byte, failed, Conn, writebuf}
use splab.Proxy.Stream.Writes.{Accepts, writebuf_all}
use splab.Proxy.Text.{to_int}
use splab.Proxy.Relay.{
  Relayed, reached, emptied, advanced, flush, Step, done, aborted, go, before_read, finish,
  content_loop, relay_content,
}
use splab.Proxy.Relay.Content.Loop.{IsCopied, content_loop_all}

-- Where `relay_content` stops: at the declared length, or at the end of the input, where no length
-- is declared or it is not reached.
pub data Ends (content : ℤ) (body : List ℕ) (rest : List Received) : Type 0 where
  counted : content ≡ pos (length body) → 0 < length body → Ends content body rest
  undeclared : content ≡ pos 0 → rest ≡ [] → Ends content body rest
  negative : (n : ℕ) → content ≡ negsuc n → rest ≡ [] → Ends content body rest
  cut : (n : ℕ) → content ≡ pos n → length body < n → rest ≡ [] → Ends content body rest

Ends-before :
    (content : ℤ) (body : List ℕ) (rest : List Received)
    → Ends content body rest
    → (k : ℕ) → k < length body
    → reached content k ≡ false
Ends-before content body rest (counted e l) k m = rw e (ground arith)
Ends-before content body rest (undeclared e f) k m = rw e refl
Ends-before content body rest (negative n e f) k m = rw e refl
Ends-before content body rest (cut n e l f) k m = rw e (ground arith)

Ends-stop :
    (content : ℤ) (body : List ℕ) (rest : List Received)
    → Ends content body rest
    → (reached content (length body) ≡ true) ⊎ (rest ≡ [])
Ends-stop content body rest (counted e l) = inl (rw e (ground arith))
Ends-stop content body rest (undeclared e f) = inr f
Ends-stop content body rest (negative n e f) = inr f
Ends-stop content body rest (cut n e l f) = inr f

-- A relay of `count` bytes, which leaves `rest` to read and `output` on the other side. The buffer
-- keeps its size, and nothing goes the other way.
pub record IsRelayed (count : ℕ) (content : ℤ) (rest : List Received) (output : List ℕ)
    (buf : List ℕ) (source sink : Conn) (r : Relayed) : Type 0 where
  pub res : r.res ≡ pos count
  pub declares : r.content ≡ content
  pub buffer : length r.buf ≡ length buf
  pub left : r.source ≡ record source { input = rest }
  pub written : r.sink.output ≡ output
  pub back : r.sink.input ≡ sink.input
  pub accepts : Accepts r.sink

-- `relay_content` does not fault. It copies exactly the bytes of the content, in order and however
-- many times the buffer fills, leaves what follows them unread, and gives their number, which an
-- `int` must hold, if no write fails and the bytes end as `Ends` says.
pub relay_content_refines :
    (content : ℤ) (buf body : List ℕ) (rest : List Received) (source sink : Conn)
    → 0 < length buf
    → length body < 2 ^ 31
    → source.input ≡ map byte body ++ rest
    → Ends content body rest
    → Accepts sink
    → Ensures
        (relay_content content buf source sink)
        (IsRelayed (length body) content rest (sink.output ++ body) buf source sink)
unfolding relay_content
relay_content_refines content buf body rest source sink l n e ends h =
    let count : 0 + length body ≡ length body = omega arith in
    let copied : Ensures (content_loop content 0 0 buf source.input sink)
        (IsCopied (0 + length body) rest (sink.output ++ body) buf sink) =
      rw e (
        content_loop_all content 0 0 buf body rest sink l (omega arith) (rw count n)
          (rw count (Ends-before content body rest ends))
          (rw count (Ends-stop content body rest ends)) h) in
    let (left, f, r) =
      Ensures-some (IsCopied (0 + length body) rest (sink.output ++ body) buf sink)
        (content_loop content 0 0 buf source.input sink) copied in
    rw f record {
      res = rw count at r.res;
      declares = refl;
      buffer = r.buffer;
      left = rw r.input refl;
      written = r.written;
      back = r.back;
      accepts = r.accepts;
    }
