-- ===== src/Proxy/Tests.antt =====
-- The proxy on small inputs, and the theorems at them.
use splab.Prelude.{
  length, ◌+◌, ◌≢◌, ℕ, ◌≡◌, refl, true, false, List, [], ◌∷◌, ◌++◌, map, none, some, arith,
}
use splab.Prelude.Int.{ℤ, pos}
use splab.Prelude.Fault.{Ensures, Yields}
use splab.Proxy.Stream.{byte, took, Conn, newline, readline}
use splab.Proxy.Stream.Lines.{readline_cut}
use splab.Proxy.Stream.Writes.{Accepts}
use splab.Proxy.Relay.{is_content_length, relay_content}
use splab.Proxy.Relay.Content.{counted, IsRelayed, relay_content_refines}
use splab.Proxy.Relay.Header.{IsField, header_bytes}
use splab.Proxy.Relay.Fields.{declared_number}
use splab.Proxy.Request.{Target, parse_response}
use splab.Proxy.Text.{find_char, atoi, digits_from}
use splab.Proxy.Socket.{Answers}
use splab.Proxy.Socket.Tidy.{left_open, disciplined}
use splab.Proxy.Main.{Arrival, accept_loop}
use splab.Proxy.Main.Sockets.{accept_loop_leaks}
use splab.Proxy.Process.{process, reply, forward}
use splab.Proxy.Process.Reply.{IsReplied, with_body, reply_refines}
use splab.Proxy.Process.Forward.{IsForwarded, posted, forward_refines}
use splab.Proxy.Process.Tidy.{process-Tidy}

abbrev small : List ℕ
small = 0 ∷ 0 ∷ 0 ∷ 0 ∷ []

abbrev buffer : List ℕ
buffer =
    0 ∷ 0 ∷ 0 ∷ 0 ∷ 0 ∷ 0 ∷ 0 ∷ 0 ∷ 0 ∷ 0 ∷ 0 ∷ 0 ∷ 0 ∷ 0 ∷ 0 ∷ 0 ∷ 0 ∷ 0 ∷ 0 ∷ 0 ∷ 0 ∷ 0 ∷ 0 ∷ 0
    ∷ []

abbrev word : List ℕ
word = b'h' ∷ b'i' ∷ []

-- A connection that gives these bytes and takes two writes of one byte first
abbrev peer : List ℕ → Conn
peer s = record { input = map byte s; answers = took 1 ∷ took 1 ∷ []; output = [] }

peer-Accepts : (s : List ℕ) → Accepts (peer s)
peer-Accepts s = (tt, (tt, tt))

readline_cut_example : readline small (peer word) ≡ (pos 0, b'h' ∷ b'i' ∷ 0 ∷ 0 ∷ [], peer [])
readline_cut_example = readline_cut word small (peer word) (refl, (refl, tt)) (omega arith) refl

-- Five bytes of content through a buffer of four, and one more behind them
relay_content_refines_example :
    Ensures
      (relay_content (pos 5) small (peer (b'a' ∷ b'b' ∷ b'c' ∷ b'd' ∷ b'e' ∷ b'x' ∷ [])) (peer []))
      (IsRelayed 5
        (pos 5)
        (byte b'x' ∷ [])
        (b'a' ∷ b'b' ∷ b'c' ∷ b'd' ∷ b'e' ∷ [])
        small
        (peer (b'a' ∷ b'b' ∷ b'c' ∷ b'd' ∷ b'e' ∷ b'x' ∷ []))
        (peer []))
relay_content_refines_example =
    relay_content_refines (pos 5) small (b'a' ∷ b'b' ∷ b'c' ∷ b'd' ∷ b'e' ∷ []) (byte b'x' ∷ [])
      (peer (b'a' ∷ b'b' ∷ b'c' ∷ b'd' ∷ b'e' ∷ b'x' ∷ [])) (peer []) (omega arith) (omega arith)
      refl (counted refl (omega arith)) (peer-Accepts [])

abbrev name : List ℕ
name =
    b'c' ∷ b'o' ∷ b'n' ∷ b't' ∷ b'e' ∷ b'n' ∷ b't' ∷ b'-' ∷ b'L' ∷ b'E' ∷ b'N' ∷ b'G' ∷ b'T' ∷ b'H'
    ∷ b':' ∷ []

abbrev field : List ℕ
field =
    b'c' ∷ b'o' ∷ b'n' ∷ b't' ∷ b'e' ∷ b'n' ∷ b't' ∷ b'-' ∷ b'L' ∷ b'E' ∷ b'N' ∷ b'G' ∷ b'T' ∷ b'H'
    ∷ b':' ∷ b' ' ∷ b'5' ∷ b'\r' ∷ []

field-IsField : IsField 24 (pos 0) field (pos 5)
unfolding is_content_length
field-IsField = record {
  plain = ground arith;
  fits = omega arith;
  goes_on = refl;
  declares = λ stale.
      declared_number (pos 0) name b'5' [] (newline ∷ stale) refl (ground arith) (refl, tt)
        (omega arith);
}

abbrev target : Target
target = record { method = buffer; uri = buffer; hostname = buffer; port = pos 0 }

-- A system that answers without a failure, with descriptor 7
abbrev willing : Answers
willing = record {
  detached = true;
  lock_free = true;
  resolves = λ name. true;
  socket = some 7;
  connects = true;
  log_locks = true;
  stamp = b'M' ∷ b'o' ∷ b'n' ∷ [];
}

-- A connection with a thread, and one without
abbrev two_arrivals : List Arrival
two_arrivals =
    (record { accepted = some 5; created = true })
    ∷ (record { accepted = some 6; created = false })
    ∷ []

accept_loop_leaks_example :
    let (calls, threads) = accept_loop two_arrivals in
    length (left_open (3 ∷ []) calls) ≡ 1 + length threads + 1
accept_loop_leaks_example = accept_loop_leaks two_arrivals (3 ∷ [])

-- Three times the buffer, with room for the log entry
abbrev page : List ℕ
page = buffer ++ buffer ++ buffer

process-Tidy_example :
    Yields
      (process willing 4 0 target page
        (peer (
          b'G' ∷ b'E' ∷ b'T' ∷ b' ' ∷ b'h' ∷ b't' ∷ b't' ∷ b'p' ∷ b':' ∷ b'/' ∷ b'/' ∷ b'a' ∷ b'/'
          ∷ b' ' ∷ b'x' ∷ b'\r' ∷ b'\n' ∷ b'\r' ∷ b'\n' ∷ []))
        (peer (
          b'H' ∷ b'T' ∷ b'T' ∷ b'P' ∷ b' ' ∷ b'2' ∷ b'0' ∷ b'4' ∷ b' ' ∷ b'\r' ∷ b'\n' ∷ b'\r'
          ∷ b'\n' ∷ [])))
      (λ ended. (left_open (4 ∷ []) ended.calls ≡ []) × (disciplined none ended.calls ≡ true))
process-Tidy_example =
    process-Tidy willing refl 4 0 target page
      (peer (
        b'G' ∷ b'E' ∷ b'T' ∷ b' ' ∷ b'h' ∷ b't' ∷ b't' ∷ b'p' ∷ b':' ∷ b'/' ∷ b'/' ∷ b'a' ∷ b'/'
        ∷ b' ' ∷ b'x' ∷ b'\r' ∷ b'\n' ∷ b'\r' ∷ b'\n' ∷ []))
      (peer (
        b'H' ∷ b'T' ∷ b'T' ∷ b'P' ∷ b' ' ∷ b'2' ∷ b'0' ∷ b'4' ∷ b' ' ∷ b'\r' ∷ b'\n' ∷ b'\r' ∷ b'\n'
        ∷ []))

abbrev status : List ℕ
status =
    b'H' ∷ b'T' ∷ b'T' ∷ b'P' ∷ b'/' ∷ b'1' ∷ b'.' ∷ b'1' ∷ b' ' ∷ b'2' ∷ b'0' ∷ b'0' ∷ b' ' ∷ b'O'
    ∷ b'K' ∷ b'\r' ∷ []

abbrev content : List ℕ
content = b'a' ∷ b'b' ∷ b'c' ∷ b'd' ∷ b'e' ∷ []

-- The field, the empty line and the content behind a first line
abbrev message : List ℕ → List ℕ
message line = (line ++ newline ∷ []) ++ (header_bytes (field ∷ []) ++ content)

reply_refines_example :
    Ensures
      (reply small buffer (peer []) (peer (message status)))
      (IsReplied 22 (message status) [])
unfolding parse_response find_char atoi digits_from
reply_refines_example =
    reply_refines small status (pos 200) (pos 5) (field ∷ []) content buffer [] (peer [])
      (peer (message status)) (omega arith) (omega arith) (ground arith) (λ stale. refl)
      (pos 5, field-IsField, refl)
      (with_body refl (omega arith, omega arith, omega arith) (counted refl (omega arith)))
      (omega arith) (omega arith) refl (peer-Accepts [])

abbrev request : List ℕ
request =
    b'P' ∷ b'O' ∷ b'S' ∷ b'T' ∷ b' ' ∷ b'h' ∷ b't' ∷ b't' ∷ b'p' ∷ b':' ∷ b'/' ∷ b'/' ∷ b'a' ∷ b'/'
    ∷ b' ' ∷ b'v' ∷ b'\r' ∷ []

five_given : ◌≢◌ {A = ℤ} (pos 5) (pos 0)
five_given e = cc

forward_refines_example :
    Ensures
      (forward
        (b'P' ∷ b'O' ∷ b'S' ∷ b'T' ∷ [])
        18
        (request ++ newline ∷ 0 ∷ 0 ∷ 0 ∷ 0 ∷ 0 ∷ 0 ∷ [])
        (peer (header_bytes (field ∷ []) ++ content))
        (peer []))
      (IsForwarded (message request) [])
forward_refines_example =
    forward_refines (b'P' ∷ b'O' ∷ b'S' ∷ b'T' ∷ []) request (0 ∷ 0 ∷ 0 ∷ 0 ∷ 0 ∷ 0 ∷ []) (pos 5)
      (field ∷ []) content [] (peer (header_bytes (field ∷ []) ++ content)) (peer []) (omega arith)
      (pos 5, field-IsField, refl) (posted refl five_given (counted refl (omega arith)))
      (omega arith) (omega arith) refl (peer-Accepts [])
