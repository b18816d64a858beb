-- ===== src/Server/Protocol/Steps.antt =====
-- The rounds of `recv_filename` and `recv_file`, each for what `ReadDataFrame` answers.
use xchange.Prelude.{
  ℕ, suc, ◌≤◌, ◌≡◌, arith, true, false, some, Bytes, [], ◌∷◌, ◌++◌, length, take, drop,
}
use xchange.Sio.{Kernel}
use xchange.Crypto.{CryptoLib}
use xchange.SocketIo.{Session, payload, eot, read_error}
use xchange.SocketIo.Receive.{read_data_frame}
use xchange.Server.Files.{exists, open_out, write_out, remove}
use xchange.Server.Protocol.{
  Server, Params, c_string, target_path, buffered, frame_order, file_exists, file_heading, entry,
  print_path, recv_rounds, recv_filename, recv_loop, recv_to, recv_file,
}

module _ (K : Kernel) (C : CryptoLib) where
  abbrev St : Type 0
  St = Server C.Rng K.World

  -- The bytes of a frame's payload, in the buffer.
  abbrev pub payload_bytes : ℕ → Session C.Rng K.World → Bytes
  payload_bytes n s = take n (drop 10 s.manager.pln_buffer)

  pub recv_loop_payload :
      (fuel n : ℕ) (path : Bytes) (s : St) (s' : Session C.Rng K.World)
      → read_data_frame K C s.session ≡ some (payload n, s')
      → recv_loop K C (suc fuel) path s
        ≡ recv_loop K C fuel path
            (record s { session = s'; files = write_out path (payload_bytes n s') s.files })
  unfolding recv_loop buffered
  recv_loop_payload fuel n path s s' e = ground arith

  pub recv_loop_eot :
      (fuel : ℕ) (path : Bytes) (s : St) (s' : Session C.Rng K.World)
      → read_data_frame K C s.session ≡ some (eot, s')
      → recv_loop K C (suc fuel) path s ≡ some (true, record s { session = s' })
  unfolding recv_loop
  recv_loop_eot fuel path s s' e = ground arith

  pub recv_loop_error :
      (fuel : ℕ) (path : Bytes) (s : St) (s' : Session C.Rng K.World)
      → read_data_frame K C s.session ≡ some (read_error, s')
      → recv_loop K C (suc fuel) path s ≡ some (false, record s { session = s' })
  unfolding recv_loop
  recv_loop_error fuel path s s' e = ground arith

  pub recv_filename_payload :
      (n : ℕ) (s : St) (s' : Session C.Rng K.World)
      → read_data_frame K C s.session ≡ some (payload n, s')
      → n ≤ 128
      → s'.manager.frame_order_nbr ≡ 1
      → recv_filename K C s ≡ some (some (payload_bytes n s'), record s { session = s' })
  unfolding recv_filename buffered frame_order
  recv_filename_payload n s s' e small first = ground arith

  pub recv_file_named :
      (p : Params) (name text path : Bytes) (s s' : St)
      → recv_filename K C s ≡ some (some name, s')
      → c_string (name ++ (0 ∷ [])) ≡ some text
      → target_path p.out_dir text ≡ some path
      → recv_file K C p s ≡ recv_to K C p path s'
  unfolding recv_file
  recv_file_named p name text path s s' e1 e2 e3 = ground arith

  -- A complete file stays, and an incomplete one is removed.
  pub recv_to_complete :
      (p : Params) (path : Bytes) (s s' : St)
      → exists path s.files ≡ false
      → recv_loop K C recv_rounds path (record s { files = open_out path s.files })
        ≡ some (true, s')
      → recv_to K C p path s
        ≡ some (
          true,
          record s' {
            printed = s'.printed ++ (entry p file_heading (length s'.printed) path ∷ []);
          },
        )
  unfolding recv_to file_exists print_path
  recv_to_complete p path s s' fresh e = ground arith

  pub recv_to_incomplete :
      (p : Params) (path : Bytes) (s s' : St)
      → exists path s.files ≡ false
      → recv_loop K C recv_rounds path (record s { files = open_out path s.files })
        ≡ some (false, s')
      → recv_to K C p path s ≡ some (false, record s' { files = remove path s'.files })
  unfolding recv_to file_exists
  recv_to_incomplete p path s s' fresh e = ground arith
