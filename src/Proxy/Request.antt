-- ===== src/Proxy/Request.antt =====
-- The parsers of proxylab-handout/proxy.c. They walk the buffer that a line was read into, so they
-- see what stands behind the line too.
use splab.Prelude.{ℕ, ◌==◌, if◌then◌else◌, List, [], ◌∷◌, set, drop, Option, none, some}
use splab.Prelude.Int.{ℤ, pos, negsuc}
use splab.Prelude.Fault.{◌>>=◌}
use splab.Proxy.Text.{find_char, find_host_end, starts_with_nocase, atoi, copy_into, copy_string}

-- What `parse_request` writes: the arrays `method`, `uri` and `hostname` of `process`, and `port`.
pub record Target : Type 0 where
  pub method : List ℕ
  pub uri : List ℕ
  pub hostname : List ℕ
  pub port : ℤ

abbrev pub scheme : List ℕ
scheme = b'h' ∷ b't' ∷ b't' ∷ b'p' ∷ b':' ∷ b'/' ∷ b'/' ∷ []

-- The port behind the host name
abbrev pub port_at : List ℕ → Option ℤ
port_at [] = none
port_at (c ∷ s) = if c == b':' then atoi s else some (pos 80)

-- `parse_request`
unfoldable pub parse_request : List ℕ → Target → Option (ℤ × Target)
parse_request request target = do
  (word, tok) ← find_char b' ' request
  method' ← copy_into word target.method
  if starts_with_nocase scheme tok
      then (do
        (host, hostend) ← find_host_end (drop 7 tok)
        hostname' ← copy_string host target.hostname
        port' ← port_at hostend
        (name, behind) ← find_char b' ' tok
        uri' ← copy_string name target.uri
        some (pos 0, record { method = method'; uri = uri'; hostname = hostname'; port = port' }))
      else some (negsuc 0, record target { method = method'; hostname = set target.hostname 0 0 })

-- `parse_response`
unfoldable pub parse_response : List ℕ → Option ℤ
parse_response response = do (before, code) ← find_char b' ' response; atoi code
