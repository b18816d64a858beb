-- ===== src/Server/Daemon.antt =====
-- `mainLoop` and `CleanUpConnManagerList` of src/xcd.cpp: the list of connections, which the accept
-- loop and the cleaning thread change in turn under its lock, and the sockets that are open.
pub mod Clients
pub mod Sockets
use xchange.Prelude.{
  ℕ, ◌<◌, ◌≡◌, Bool, true, false, not, ◌&&◌, ◌||◌, Option, none, some, List, [], ◌∷◌, ◌++◌, length,
  leb, ◌==◌, if◌then◌else◌,
}
use xchange.Wire.{max_connected_clients}

-- A `ConnectionManager` on the list: its socket, whether its worker has closed that, and `done`.
pub record Conn : Type 0 where
  pub socket : ℕ
  pub closed : Bool
  pub done : Bool

-- `pending` is the socket that `accept` returned, until `STATE_START_CONN_MANAGER` takes it up.
pub record Daemon : Type 0 where
  pub pending : Option ℕ
  pub managers : List Conn
  pub open_sockets : List ℕ

unfoldable pub is_open : ℕ → List ℕ → Bool
is_open fd [] = false
is_open fd (x ∷ xs) = fd == x || is_open fd xs

-- `close`; a descriptor that is not open is left alone.
unfoldable pub close_socket : ℕ → List ℕ → List ℕ
close_socket fd [] = []
close_socket fd (x ∷ xs) = let rest = close_socket fd xs in if fd == x then rest else x ∷ rest

-- `STATE_START_CONN_MANAGER`.
unfoldable pub start_manager : ℕ → Daemon → Daemon
start_manager fd d =
    if leb max_connected_clients (length d.managers)
    then record d { pending = none; open_sockets = close_socket fd d.open_sockets }
    else record d {
      pending = none;
      managers = d.managers ++ (record { socket = fd; closed = false; done = false } ∷ []);
    }

-- The loop of `CleanUpConnManagerList` over the list, and the removal of the null pointers. The
-- socket of a finished connection is closed if its number is open.
unfoldable pub clean_list : List Conn → List ℕ → List Conn × List ℕ
clean_list [] fds = ([], fds)
clean_list (c ∷ cs) fds =
    let dropped = clean_list cs (if is_open c.socket fds then close_socket c.socket fds else fds) in
    let (kept, fds') = clean_list cs fds in if c.done then dropped else (c ∷ kept, fds')

unfoldable pub clean_up : Daemon → Daemon
clean_up d =
    let (managers, fds) = clean_list d.managers d.open_sockets in
    record d { managers = managers; open_sockets = fds }

-- When `mainLoop` starts, `standing` is open: the listening socket, the standard streams and what
-- else `main` has opened.
abbrev pub initial : List ℕ → Daemon
initial standing = record { pending = none; managers = []; open_sockets = standing }

-- What may happen next: `accept` returns a number that is not open, the accept loop takes it up, a
-- worker closes its socket (at the end of `ctrl_loop`) or sets `done` (at the end of its
-- `mainLoop`), or the cleaner runs.
pub data Step (d : Daemon) : Daemon → Type 0 where
  accept :
      (fd : ℕ)
      → d.pending ≡ none
      → 0 < fd
      → is_open fd d.open_sockets ≡ false
      → Step d (record d { pending = some fd; open_sockets = fd ∷ d.open_sockets })
  take_up : (fd : ℕ) → d.pending ≡ some fd → Step d (start_manager fd d)
  hang_up :
      (front back : List Conn) (c : Conn)
      → d.managers ≡ front ++ (c ∷ back)
      → c.closed ≡ false
      → c.done ≡ false
      → Step d (record d {
        managers = front ++ (record c { closed = true } ∷ back);
        open_sockets = close_socket c.socket d.open_sockets;
      })
  finish :
      (front back : List Conn) (c : Conn)
      → d.managers ≡ front ++ (c ∷ back)
      → c.done ≡ false
      → Step d (record d { managers = front ++ (record c { done = true } ∷ back) })
  clean : Step d (clean_up d)

pub data Reach (standing : List ℕ) : Daemon → Type 0 where
  start : Reach standing (initial standing)
  next : {d d' : Daemon} → Reach standing d → Step d d' → Reach standing d'
