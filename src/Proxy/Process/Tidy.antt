-- ===== src/Proxy/Process/Tidy.antt =====
-- Descriptors and mutexes over a whole thread of proxylab-handout/proxy.c.
use splab.Prelude.{ℕ, ◌≡◌, ◌∙◌, true, ltb, length, List, [], ◌∷◌, ◌++◌, none, Bool-cases, inl, inr}
use splab.Prelude.Int.{ℤ, pos, negsuc}
use splab.Prelude.Fault.{Yields, Yields-bind, Yields_any}
use splab.Proxy.Stream.{Conn, readline}
use splab.Proxy.Relay.{Relayed}
use splab.Proxy.Request.{Target, parse_request}
use splab.Proxy.Socket.{Call, lock, unlock, logfile, write_log, close, Answers, open_serverfd}
use splab.Proxy.Socket.Tidy.{
  Moves, Moves-none, Moves-append, close-Moves, left_open, remove-first, disciplined, result_fds,
  open_serverfd-Moves,
}
use splab.Proxy.Process.{
  format_log_entry, forward, reply, log_and_close, transfer, parsed, serve, process,
}

logged-Moves :
    (fd : ℕ) → Moves (fd ∷ []) [] (lock logfile ∷ write_log ∷ unlock logfile ∷ close fd ∷ [])
logged-Moves fd = let m = close-Moves fd in record { fds = m.fds; locks = m.locks }

log_and_close-Moves :
    (answers : Answers)
    → answers.log_locks ≡ true
    → (host newfd : ℕ) (uri : List ℕ) (response : ℕ × Relayed)
    → Yields
        (log_and_close answers host newfd uri response)
        (λ ended. Moves (newfd ∷ []) [] ended.calls)
unfolding log_and_close
log_and_close-Moves answers locks host newfd uri (sum, response) = elim (Bool-cases (ltb 0 sum)) [
  | inl e ↦ rw e (
      Yields-bind (λ _. Unit) _ (format_log_entry (length response.buf) answers.stamp host uri sum)
        _ (Yields_any _) λ entry t. simp locks (logged-Moves newfd))
  | inr e ↦ rw e (close-Moves newfd)
]

transfer-Moves :
    (answers : Answers)
    → answers.log_locks ≡ true
    → (host : ℕ) (target : Target) (len : ℕ) (buf : List ℕ) (client server : Conn)
      (connection : ℤ × List Call)
    → Moves [] (result_fds connection.0) connection.1
    → Yields
        (transfer answers host target len buf client server connection)
        (λ ended. Moves [] [] ended.calls)
unfolding transfer
transfer-Moves answers locks host target len buf client server (negsuc n, calls) m = m
transfer-Moves answers locks host target len buf client server (pos newfd, calls) m =
    Yields-bind (λ _. Unit) _ (forward target.method len buf client server) _ (Yields_any _)
      λ request t.
        Yields-bind (λ _. Unit) _ (reply target.method request.buf request.source request.sink) _
          (Yields_any _)
          λ response u.
            Yields-bind (λ ended. Moves (newfd ∷ []) [] ended.calls) _
              (log_and_close answers host newfd target.uri response) _
              (log_and_close-Moves answers locks host newfd target.uri response)
              λ ended n. Moves-append [] (newfd ∷ []) [] calls ended.calls m n

parsed-Moves :
    (answers : Answers)
    → answers.log_locks ≡ true
    → (host len : ℕ) (buf : List ℕ) (client server : Conn) (request : ℤ × Target)
    → Yields (parsed answers host len buf client server request) (λ ended. Moves [] [] ended.calls)
unfolding parsed
parsed-Moves answers locks host len buf client server (negsuc n, target) = Moves-none
parsed-Moves answers locks host len buf client server (pos n, target) =
    Yields-bind (λ (res, calls). Moves [] (result_fds res) calls) _
      (open_serverfd answers target.hostname) _ (open_serverfd-Moves answers target.hostname)
      (transfer-Moves answers locks host target len buf client server)

serve-Moves :
    (answers : Answers)
    → answers.log_locks ≡ true
    → (host : ℕ) (target : Target) (server : Conn) (line : ℤ × List ℕ × Conn)
    → Yields (serve answers host target server line) (λ ended. Moves [] [] ended.calls)
unfolding serve
serve-Moves answers locks host target server (negsuc n, buf, client) = Moves-none
serve-Moves answers locks host target server (pos len, buf, client) =
    elim (Bool-cases (ltb 0 len)) [
      | inr e ↦ rw e Moves-none
      | inl e ↦ rw e (
          Yields-bind (λ _. Unit) _ (parse_request buf target) _ (Yields_any _)
            λ request t. parsed-Moves answers locks host len buf client server request)
    ]

closed :
    (sockfd : ℕ) (calls : List Call)
    → Moves [] [] calls
    → (left_open (sockfd ∷ []) (calls ++ close sockfd ∷ []) ≡ [])
      × (disciplined none (calls ++ close sockfd ∷ []) ≡ true)
closed sockfd calls m =
    (m.fds (sockfd ∷ []) (close sockfd ∷ []) ∙ remove-first sockfd [], m.locks (close sockfd ∷ []))

-- If the mutex of the log can be locked, and whatever else the system answers and the peers send, a
-- thread that does not fault leaves no descriptor open, neither the client's nor the server's; it
-- never holds two mutexes, releases what it locked, and calls `gethostbyname` and writes the log under
-- their mutexes only.
pub process-Tidy :
    (answers : Answers)
    → answers.log_locks ≡ true
    → (sockfd host : ℕ) (target : Target) (buf : List ℕ) (client server : Conn)
    → Yields (process answers sockfd host target buf client server) (λ ended.
      (left_open (sockfd ∷ []) ended.calls ≡ []) × (disciplined none ended.calls ≡ true))
unfolding process
process-Tidy answers locks sockfd host target buf client server =
    elim (Bool-cases answers.detached) [
      | inl e ↦ simp e (
          Yields-bind (λ ended. Moves [] [] ended.calls) _
            (serve answers host target server (readline buf client)) _
            (serve-Moves answers locks host target server (readline buf client))
            λ ended m. closed sockfd ended.calls m)
      | inr e ↦ simp e (closed sockfd [] Moves-none)
    ]
