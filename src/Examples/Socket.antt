-- ===== src/Examples/Socket.antt =====
-- Tests of the two socket loops.
use xchange.Prelude.{ℕ, ◌≡◌, ◌≢◌, refl, arith, false, none, [], ◌∷◌, ◌++◌, Bytes}
use xchange.Sio.{
  Kernel, recv_transient, sent_transient, done, stuck, write_to_socket, read_from_socket,
}
use xchange.Sio.Write.{Delivered, write_to_socket-Delivered}
use xchange.Sio.Read.{read_from_socket-ne-stuck, read_from_socket-in_order, read_from_socket_whole}
use xchange.Examples.Sim.{
  SimWorld, sim, with_inbox, quiet, sent_bytes, bytes_to_come, sim-WriteLaws, sim-RecvLaws,
  sim-StreamLaws,
}

abbrev three : Bytes
three = 1 ∷ 2 ∷ 3 ∷ []

write_to_socket-Delivered_example :
    Delivered sim sent_bytes sim-WriteLaws [] three (write_to_socket sim three quiet)
write_to_socket-Delivered_example =
    write_to_socket-Delivered sim sent_bytes sim-WriteLaws three quiet (omega arith)

two_read : read_from_socket sim 2 false (with_inbox three) ≡ done (1 ∷ 2 ∷ []) (with_inbox (3 ∷ []))
two_read =
    read_from_socket_whole sim 2 false (with_inbox three) (1 ∷ 2 ∷ []) (with_inbox (3 ∷ [])) refl
      refl (omega arith)

read_from_socket-ne-stuck_example : read_from_socket sim 2 false (with_inbox three) ≢ stuck
read_from_socket-ne-stuck_example =
    read_from_socket-ne-stuck sim sim-RecvLaws 2 false (with_inbox three)

sim_calm : (n : ℕ) (v v' : SimWorld) → sim.recv n false v ≢ recv_transient v'
sim_calm n v v' e = cc

read_from_socket-in_order_example : three ≡ (1 ∷ 2 ∷ []) ++ (3 ∷ [])
read_from_socket-in_order_example =
    read_from_socket-in_order sim bytes_to_come sim-StreamLaws 2 (with_inbox three) (1 ∷ 2 ∷ [])
      (with_inbox (3 ∷ [])) sim_calm two_read

-- A socket on which every call is interrupted.
abbrev busy : Kernel
busy = record {
  World = ℕ;
  recv = λ n peek w. recv_transient w;
  write = λ b w. sent_transient w;
  so_sndbuf = λ w. none;
  interrupts = λ w. 0;
}
