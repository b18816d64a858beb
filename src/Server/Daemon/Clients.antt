-- ===== src/Server/Daemon/Clients.antt =====
-- How many connections the server of src/xcd.cpp keeps.
use xchange.Prelude.{
  ℕ, ◌≤◌, ◌≡◌, ap, arith, true, false, List, [], ◌∷◌, ◌++◌, length, length-append, if◌then◌else◌,
}
use xchange.Server.Daemon.{
  Conn, Daemon, is_open, close_socket, start_manager, clean_list, clean_up, Step, accept, take_up,
  hang_up, finish, clean, Reach, start, next,
}

length-start_manager :
    (fd : ℕ) (d : Daemon) → length d.managers ≤ 10 → length (start_manager fd d).managers ≤ 10
unfolding start_manager
length-start_manager fd d h =
    ground
      (arith, length-append d.managers (record { socket = fd; closed = false; done = false } ∷ []))

length-clean_list : (cs : List Conn) (fds : List ℕ) → length (clean_list cs fds).0 ≤ length cs
unfolding clean_list
length-clean_list [] fds = omega arith
length-clean_list (c ∷ cs) fds = ground (
  arith,
  length-clean_list cs fds,
  length-clean_list cs (if is_open c.socket fds then close_socket c.socket fds else fds),
)

length-change :
    (front back : List Conn) (c c' : Conn)
    → length (front ++ (c' ∷ back)) ≡ length (front ++ (c ∷ back))
length-change front back c c' =
    omega (arith, length-append front (c' ∷ back), length-append front (c ∷ back))

Step-bound : {d d' : Daemon} → Step d d' → length d.managers ≤ 10 → length d'.managers ≤ 10
unfolding clean_up
Step-bound (accept fd idle pos fresh) h = h
Step-bound {d} (take_up fd e) h = length-start_manager fd d h
Step-bound (hang_up front back c e own live) h =
    omega (arith, length-change front back c (record c { closed = true }), ap length e, h)
Step-bound (finish front back c e live) h =
    omega (arith, length-change front back c (record c { done = true }), ap length e, h)
Step-bound {d} clean h = omega (arith, length-clean_list d.managers d.open_sockets, h)

-- However connections come, end and are cleaned up, the list never has more than
-- MAX_CONNECTED_CLIENTS of them.
pub managers-bound : (standing : List ℕ) (d : Daemon) → Reach standing d → length d.managers ≤ 10
managers-bound standing d r = bound r
  where
    bound : {d : Daemon} → Reach standing d → length d.managers ≤ 10
    bound start = omega arith
    bound (next r s) = Step-bound s (bound r)
