-- ===== src/Server/Daemon/Sockets.antt =====
-- Which sockets the cleaning thread of src/xcd.cpp closes.
use xchange.Prelude.{
  ℕ, ◌<◌, ◌≡◌, refl, ◌∙◌, subst, arith, Bool, true, false, not, ◌&&◌, ◌||◌, none, List, [], ◌∷◌,
  ◌==◌, if◌then◌else◌,
}
use xchange.Server.Daemon.{
  Conn, Daemon, is_open, close_socket, start_manager, clean_list, clean_up, accept, take_up,
  hang_up, finish, clean, Reach, start, next,
}

-- The connections that are not finished, and whether a finished one has the socket.
unfoldable pub running : List Conn → List Conn
running [] = []
running (c ∷ cs) = if c.done then running cs else c ∷ running cs

unfoldable pub finished_on : ℕ → List Conn → Bool
finished_on fd [] = false
finished_on fd (c ∷ cs) = (c.done && (fd == c.socket)) || finished_on fd cs

is_open-close_socket :
    (fd x : ℕ) (fds : List ℕ) → is_open fd (close_socket x fds) ≡ (is_open fd fds && not (fd == x))
unfolding is_open close_socket
is_open-close_socket fd x [] = refl
is_open-close_socket fd x (y ∷ ys) = ground (arith, is_open-close_socket fd x ys)

clean_list-running :
    (fd : ℕ) (cs : List Conn) (fds : List ℕ)
    → ((clean_list cs fds).0 ≡ running cs)
      × (is_open fd (clean_list cs fds).1 ≡ (is_open fd fds && not (finished_on fd cs)))
unfolding clean_list running finished_on
clean_list-running fd [] fds = (refl, ground arith)
clean_list-running fd (c ∷ cs) fds = ground (
  arith,
  clean_list-running fd cs fds,
  clean_list-running fd cs (if is_open c.socket fds then close_socket c.socket fds else fds),
  is_open-close_socket fd c.socket fds,
)

-- One run of the cleaner takes exactly the finished connections off the list, in place, and
-- afterwards a socket is open exactly if it was before and no finished connection has its number.
pub clean_up-running :
    (fd : ℕ) (d : Daemon)
    → ((clean_up d).managers ≡ running d.managers)
      × (is_open fd (clean_up d).open_sockets
          ≡ (is_open fd d.open_sockets && not (finished_on fd d.managers)))
unfolding clean_up
clean_up-running fd d = clean_list-running fd d.managers d.open_sockets

abbrev conn : ℕ → Conn
conn fd = record { socket = fd; closed = false; done = false }

abbrev ended : ℕ → Conn
ended fd = record { socket = fd; closed = true; done = true }

abbrev two_conns : List ℕ → ℕ → Daemon
two_conns standing fd = record {
  pending = none;
  managers = ended fd ∷ conn fd ∷ [];
  open_sockets = fd ∷ standing;
}

-- Closing the last socket that was opened gives the ones before.
close_socket-fresh :
    (fd : ℕ) (fds : List ℕ) → is_open fd fds ≡ false → close_socket fd (fd ∷ fds) ≡ fds
unfolding is_open close_socket
close_socket-fresh fd [] fresh = ground arith
close_socket-fresh fd (x ∷ fds) fresh = ground (arith, close_socket-fresh fd fds)

-- A connection ends, and the next one gets its socket's number before the cleaner runs.
Reach-two_conns :
    (standing : List ℕ) (fd : ℕ)
    → 0 < fd
    → is_open fd standing ≡ false
    → Reach standing (two_conns standing fd)
unfolding start_manager
Reach-two_conns standing fd pos fresh =
    let one = next (next start (accept fd refl pos fresh)) (take_up fd refl) in
    let closed = next one (hang_up [] [] (conn fd) refl refl refl) in
    let gone =
      next closed (finish [] [] (record { socket = fd; closed = true; done = false }) refl refl) in
    let idle : Reach standing
        (record { pending = none; managers = ended fd ∷ []; open_sockets = standing }) =
      subst
        (λ (xs : List ℕ).
          Reach standing (record { pending = none; managers = ended fd ∷ []; open_sockets = xs }))
        (close_socket-fresh fd standing fresh) gone in
    next (next idle (accept fd refl pos fresh)) (take_up fd refl)

-- For every number above 0 that is not open from the start there is a run after which a connection
-- that is not finished and has not closed its socket has that number, and the socket is closed: an
-- earlier connection had the number, and the cleaner closes it once more.
pub live_socket_closed :
    (standing : List ℕ) (fd : ℕ)
    → 0 < fd
    → is_open fd standing ≡ false
    → (d : Daemon) × Reach standing d
      × (d.managers ≡ record { socket = fd; closed = false; done = false } ∷ [])
      × (is_open fd d.open_sockets ≡ false)
unfolding running finished_on is_open
live_socket_closed standing fd pos fresh =
    let two = two_conns standing fd in
    let cleaned = clean_up-running fd two in
    let again : (fd == fd) ≡ true = ground arith in
    (
      clean_up two,
      next (Reach-two_conns standing fd pos fresh) clean,
      cleaned.0,
      cleaned.1 ∙ ground (arith, again),
    )
