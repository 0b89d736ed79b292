-- ===== src/Proxy/Process.antt =====
-- `process` of proxylab-handout/proxy.c, the routine of a thread, and what it logs.
pub mod Tidy
pub mod Reply
pub mod Forward
use splab.Prelude.{
  ℕ, zero, suc, length, ◌+◌, ◌/◌, ◌%◌, ◌^◌, Bool, true, false, ◌&&◌, not, leb, ltb, ◌==◌,
  if◌then◌else◌, List, [], ◌∷◌, ◌++◌, take, Option, none, some,
}
use splab.Prelude.Int.{ℤ, pos, negsuc}
use splab.Prelude.Fault.{◌>>=◌}
use splab.Proxy.Stream.{Conn, readline, writebuf}
use splab.Proxy.Text.{starts_with_nocase, to_int, text}
use splab.Proxy.Relay.{Relayed, relay_header, relay_content}
use splab.Proxy.Request.{Target, parse_request, parse_response}
use splab.Proxy.Socket.{Call, lock, unlock, logfile, close, write_log, Answers, open_serverfd}

-- What `format_log_entry` writes: the time, the four bytes of the client's address, the text of the URI
-- and the size.
pub record Entry : Type 0 where
  pub stamp : List ℕ
  pub a : ℕ
  pub b : ℕ
  pub c : ℕ
  pub d : ℕ
  pub uri : List ℕ
  pub size : ℕ

-- The digits of a number that sprintf writes with `%d`; an `int` has ten at most.
unfoldable pub decimals : ℕ → ℕ → ℕ
decimals zero n = 1
decimals (suc rounds) n = let rest = decimals rounds (n / 10) in if ltb n 10 then 1 else suc rest

-- The length of "%s: %d.%d.%d.%d %s %d"
unfoldable pub entry_length : Entry → ℕ
entry_length e =
    length e.stamp
    + 2
    + (decimals 9 e.a + 1 + decimals 9 e.b + 1 + decimals 9 e.c + 1 + decimals 9 e.d)
    + (1 + length e.uri)
    + (1 + decimals 9 e.size)

-- `format_log_entry` into an array of `room` bytes; a longer text is written behind it, which is a
-- fault.
unfoldable pub format_log_entry : ℕ → List ℕ → ℕ → List ℕ → ℕ → Option Entry
format_log_entry room stamp host uri size = do
  name ← text uri
  let entry : Entry = record {
    stamp = stamp;
    a = host / 2 ^ 24 % 2 ^ 8;
    b = host / 2 ^ 16 % 2 ^ 8;
    c = host / 2 ^ 8 % 2 ^ 8;
    d = host % 2 ^ 8;
    uri = name;
    size = size;
  }
  if ltb (entry_length entry) room then some entry else none

abbrev pub post : List ℕ
post = b'p' ∷ b'o' ∷ b's' ∷ b't' ∷ []

abbrev pub head : List ℕ
head = b'h' ∷ b'e' ∷ b'a' ∷ b'd' ∷ []

abbrev pub nonzero : ℤ → Bool
nonzero (negsuc n) = true
nonzero (pos n) = not (n == 0)

-- If POST request and content-length provided
unfoldable pub is_posted : List ℕ → ℤ → Bool
is_posted method content = starts_with_nocase post method && nonzero content

-- The content of a request whose header is relayed
unfoldable pub forward_content : List ℕ → Relayed → Option Relayed
forward_content method header =
    if is_posted method header.content
    then relay_content header.content header.buf header.source header.sink
    else some header

-- The request, whose first line of `len` bytes is in the buffer
unfoldable pub forward : List ℕ → ℕ → List ℕ → Conn → Conn → Option Relayed
forward method len buf client server = do
  let (sent, server') = writebuf (take len buf) server
  header ← relay_header buf client server'
  forward_content method header

-- Whether content may follow the header of a response. The division of a negative `int` gives no
-- more than 0.
unfoldable pub has_content : List ℕ → ℤ → Bool
has_content method (negsuc n) = false
has_content method (pos msg) =
    not (starts_with_nocase head method)
    && leb 2 (msg / 100)
    && not (msg == 204)
    && not (msg == 304)

-- `sum` behind the result of `relay_content`
abbrev pub total : ℕ → ℤ → Option ℕ
total sum (negsuc n) = some sum
total sum (pos n) = to_int (sum + n)

-- The content of a response, whose header is relayed, and `sum`
unfoldable pub reply_content : List ℕ → ℤ → ℕ → Relayed → Option (ℕ × Relayed)
reply_content method msg sum header =
    if has_content method msg
    then (do
      body ← relay_content header.content header.buf header.source header.sink
      sum' ← total sum body.res
      some (sum', body))
    else some (sum, header)

abbrev unread : ℤ → List ℕ → Conn → Conn → Relayed
unread res buf source sink = record {
  res = res;
  content = pos 0;
  buf = buf;
  source = source;
  sink = sink;
}

-- The response behind `readline`, given its result, the buffer and the connection, and `sum`
unfoldable pub replied : List ℕ → Conn → ℤ × List ℕ × Conn → Option (ℕ × Relayed)
replied method client (negsuc n, buf, server) = some (0, unread (negsuc n) buf server client)
replied method client (pos len, buf, server) =
    if ltb 0 len
    then (do
      msg ← parse_response buf
      let (sent, client') = writebuf (take len buf) client
      header ← relay_header buf server client'
      reply_content method msg len header)
    else some (0, unread (pos len) buf server client)

-- The response, from its first line on
unfoldable pub reply : List ℕ → List ℕ → Conn → Conn → Option (ℕ × Relayed)
reply method buf client server = replied method client (readline buf server)

-- What a thread leaves: both connections, what it logged, and its calls in order
pub record Ended : Type 0 where
  pub client : Conn
  pub server : Conn
  pub log : List Entry
  pub calls : List Call

abbrev pub idle : Conn → Conn → List Call → Ended
idle client server calls = record { client = client; server = server; log = []; calls = calls }

-- The log and the end of the connection to the server. The result of the lock is not tested.
unfoldable pub log_and_close : Answers → ℕ → ℕ → List ℕ → ℕ × Relayed → Option Ended
log_and_close answers host newfd uri (sum, response) =
    if ltb 0 sum
    then (do
      entry ← format_log_entry (length response.buf) answers.stamp host uri sum
      some record {
        client = response.sink;
        server = response.source;
        log = entry ∷ [];
        calls =
            (if answers.log_locks then lock logfile ∷ [] else [])
            ++ (write_log ∷ unlock logfile ∷ close newfd ∷ []);
      })
    else some (idle response.sink response.source (close newfd ∷ []))

-- From the result of `open_serverfd` on
unfoldable pub transfer :
    Answers → ℕ → Target → ℕ → List ℕ → Conn → Conn → ℤ × List Call → Option Ended
transfer answers host target len buf client server (negsuc n, calls) =
    some (idle client server calls)
transfer answers host target len buf client server (pos newfd, calls) = do
  request ← forward target.method len buf client server
  response ← reply target.method request.buf request.source request.sink
  ended ← log_and_close answers host newfd target.uri response
  some record ended { calls = calls ++ ended.calls }

-- From the result of `parse_request` on
unfoldable pub parsed : Answers → ℕ → ℕ → List ℕ → Conn → Conn → ℤ × Target → Option Ended
parsed answers host len buf client server (negsuc n, target) = some (idle client server [])
parsed answers host len buf client server (pos n, target) = do
  connection ← open_serverfd answers target.hostname
  transfer answers host target len buf client server connection

-- From the result of the first `readline` on
unfoldable pub serve : Answers → ℕ → Target → Conn → ℤ × List ℕ × Conn → Option Ended
serve answers host target server (negsuc n, buf, client) = some (idle client server [])
serve answers host target server (pos len, buf, client) =
    if ltb 0 len
    then (do request ← parse_request buf target; parsed answers host len buf client server request)
    else some (idle client server [])

-- `process` on the socket `sockfd` of a client at `host`, where the arrays hold what the stack held
unfoldable pub process : Answers → ℕ → ℕ → Target → List ℕ → Conn → Conn → Option Ended
process answers sockfd host target buf client server = do
  ended ←
      if answers.detached
      then serve answers host target server (readline buf client)
      else some (idle client server [])
  some record ended { calls = ended.calls ++ close sockfd ∷ [] }
