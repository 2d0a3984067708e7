-- ===== src/Callbacks.antt =====
-- cppweb/Callbacks.cpp: the callback for messages of a connection whose user sets none. The other two defaults
-- only log.
use cppweb.Base.{ℕ, ◌≡◌, ◌+◌, ◌≤◌, List, [], length, Returns, max_size}
use cppweb.Buffer.{Buffer, Received, received, areas, read_fd, retrieve_all, extra_size}
use cppweb.Buffer.Valid.{Holds}
use cppweb.Buffer.ReadFd.{read_fd-Holds, total}
use cppweb.Buffer.Retrieve.{retrieve_all-Holds}

-- `defaultMessageCallback`
unfoldable pub default_message_callback : Buffer → Buffer
default_message_callback b = retrieve_all b

-- A read that is followed by the default callback leaves an empty buffer, whatever was left in it before and
-- came, and so the next read finds room again.
read_fd-default_message_callback :
    (readv : List ℕ → Received) {b : Buffer} {xs : List ℕ} (ys : List ℕ)
    → Holds b xs
    → readv (areas b) ≡ received ys
    → length ys ≤ total (areas b)
    → length b.buffer + extra_size ≤ max_size
    → Returns (read_fd readv b) (λ p. Holds (default_message_callback p.1) [])
unfolding default_message_callback
read_fd-default_message_callback readv ys h e bound space =
    let (p, read, (r, held)) = read_fd-Holds readv ys h e bound space in
    (p, read, retrieve_all-Holds held.valid)
