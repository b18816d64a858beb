-- ===== src/Server/Protocol.antt =====
-- `DefaultProtocolHandler` of src/xcd_protocol_handler.hpp: the receiving side of a transfer.
pub mod Steps
pub mod Message
use xchange.Prelude.{
  ℕ, zero, suc, ◌+◌, ◌-◌, ◌^◌, Bool, true, false, not, ◌&&◌, Option, none, some, List, [], ◌∷◌,
  ◌++◌, Bytes, codes, length, get_or, set, take, drop, bit_and, ltb, ◌==◌, if◌then◌else◌,
}
use xchange.Prelude.Action.{M, pure, ◌>>=◌, ◌>>◌}
use xchange.Wire.{
  CtrlFrame, DataType, type_none, type_txt, type_bin, flag_binary_transmission, flag_encrypted,
  ack_ok, data_frame_header_size, max_filename_length,
}
use xchange.Sio.{Kernel}
use xchange.Crypto.{CryptoLib}
use xchange.SocketIo.{Session, Manager, ReadResult, payload, eot, read_error}
use xchange.SocketIo.Receive.{read_data_frame, set_iv_from_socket}
use xchange.SocketIo.Send.{send_ack, dec_read_key_from_file}
use xchange.Server.Files.{Files, exists, open_out, write_out, remove}

-- The text that `<<` and `append` make of a `char *`: up to the first 0, which must be there.
unfoldable pub c_string : Bytes → Option Bytes
c_string [] = none
c_string (b ∷ bs) =
    let rest : Option Bytes = elim (c_string bs) [ none ↦ none | some t ↦ some (b ∷ t) ] in
    if b == 0 then some [] else rest

-- The object with its socket, the files below `outDir` and the entries that it has written to
-- `stdoutStream`.
pub record Server (R W : Type 0) : Type 0 where
  pub session : Session R W
  pub files : Files
  pub printed : List Bytes
  pub err_state : Bool

-- The part of `Parameter` that the handler reads; the key file is what it holds. `clock n` is what
-- `tool::current_time_string` returns when the handler has written `n` entries to `stdoutStream`.
pub record Params : Type 0 where
  pub out_dir : Bytes
  pub key_file : Bytes
  pub clock : ℕ → Bytes

abbrev pub message_heading : Bytes
message_heading = codes "::Message:"

abbrev pub file_heading : Bytes
file_heading = codes "::File:"

-- The entry that is written as number `n` to `stdoutStream`: an empty line, the time and the
-- heading, and a line with the text.
unfoldable pub entry : Params → Bytes → ℕ → Bytes → Bytes
entry p heading n text = (10 ∷ []) ++ p.clock n ++ heading ++ (10 ∷ []) ++ text ++ (10 ∷ [])

-- The last byte of a string; `path[path.size()-1]` of an empty one is out of bounds.
unfoldable pub last_byte : Bytes → Option ℕ
last_byte [] = none
last_byte (b ∷ []) = some b
last_byte (b ∷ c ∷ bs) = last_byte (c ∷ bs)

unfoldable pub target_path : Bytes → Bytes → Option Bytes
target_path out_dir filename = elim (last_byte out_dir) [
  | none ↦ none
  | some b ↦ some (if b == b'/' then out_dir ++ filename else (out_dir ++ (b'/' ∷ [])) ++ filename)
]

-- `setConnectionType`
unfoldable pub connection_type : CtrlFrame → DataType
connection_type c = if bit_and c.flags flag_binary_transmission == 0 then type_txt else type_bin

-- Each frame that is taken moves the frame counter, and its 2 ^ 32nd value ends the transfer.
abbrev pub recv_rounds : ℕ
recv_rounds = 2 ^ 32

module _ (K : Kernel) (C : CryptoLib) where
  abbrev St : Type 0
  St = Server C.Rng K.World

  -- An action of `socketIO`.
  abbrev pub on_socket : {A : Type 0} → M (Session C.Rng K.World) A → M St A
  on_socket m s = elim (m s.session) [
    | none ↦ none
    | some (a, s') ↦ some (a, record s { session = s' })
  ]

  abbrev pub on_files : (Files → Files) → M St (Unit {0})
  on_files f s = some (tt, record s { files = f s.files })

  set_frame_order : ℕ → M St (Unit {0})
  set_frame_order n s = some (
    tt,
    record s {
      session = record s.session { manager = record s.session.manager { frame_order_nbr = n } };
    },
  )

  -- `pln_buffer[i] = 0`, and the text behind the header printed.
  print_message : Params → ℕ → M St (Unit {0})
  print_message p i s =
      let buffer = set s.session.manager.pln_buffer i 0 in
      let printed : Option (Unit {0} × St) = elim (c_string (drop data_frame_header_size buffer)) [
        | none ↦ none
        | some msg ↦ some (
          tt,
          record s {
            session = record s.session {
              manager = record s.session.manager { pln_buffer = buffer };
            };
            printed = s.printed ++ (entry p message_heading (length s.printed) msg ∷ []);
          },
        )
      ] in
      if ltb i (length s.session.manager.pln_buffer) then printed else none

  -- `recv_message`: true where it returns 0. EOT is -2, and only -1 is tested for.
  unfoldable pub recv_message : Params → M St Bool
  unfolding set_frame_order print_message
  recv_message p = do
    set_frame_order 1
    r ← on_socket (read_data_frame K C)
    elim r [
      | read_error ↦ pure false
      | eot ↦ do print_message p (data_frame_header_size - 2); pure true
      | payload n ↦ do print_message p (data_frame_header_size + n); pure true
    ]

  -- The bytes behind the header in `pln_buffer`.
  buffered : ℕ → M St Bytes
  buffered n s = some (take n (drop data_frame_header_size s.session.manager.pln_buffer), s)

  frame_order : M St ℕ
  frame_order s = some (s.session.manager.frame_order_nbr, s)

  -- `recv_filename`: the bytes that it copies, or `none` where it returns -1.
  unfoldable pub recv_filename : M St (Option Bytes)
  unfolding buffered frame_order
  recv_filename = do
    r ← on_socket (read_data_frame K C)
    elim r [
      | read_error ↦ pure none
      | eot ↦ pure none
      | payload n ↦ do
        order ← frame_order
        name ← buffered n
        if ltb max_filename_length n
            then pure none
            else if order == 1
            then pure (some name)
            else pure none
    ]

  -- The `while(reading)` loop: true for EOT, false for -1.
  unfoldable pub recv_loop : ℕ → Bytes → M St Bool
  unfolding buffered
  recv_loop zero path = λ s. none
  recv_loop (suc fuel) path = do
    r ← on_socket (read_data_frame K C)
    elim r [
      | read_error ↦ pure false
      | eot ↦ pure true
      | payload n ↦ do bytes ← buffered n; on_files (write_out path bytes); recv_loop fuel path
    ]

  file_exists : Bytes → M St Bool
  file_exists path s = some (exists path s.files, s)

  print_path : Params → Bytes → M St (Unit {0})
  print_path p path s =
      some (
        tt,
        record s { printed = s.printed ++ (entry p file_heading (length s.printed) path ∷ []) },
      )

  -- What follows once the path is known.
  unfoldable pub recv_to : Params → Bytes → M St Bool
  unfolding file_exists print_path
  recv_to p path = do
    there ← file_exists path
    let body : M St Bool = do
      on_files (open_out path)
      complete ← recv_loop recv_rounds path
      if complete
          then (do print_path p path; pure true)
          else (do on_files (remove path); pure false)
    if there then pure false else body

  -- `recv_file`: true where it returns 0. The name is a zero-terminated array.
  unfoldable pub recv_file : Params → M St Bool
  recv_file p = do
    answer ← recv_filename
    elim answer [
      | none ↦ pure false
      | some name ↦ elim (c_string (name ++ (0 ∷ []))) [
        | none ↦ λ s. none
        | some text ↦ elim (target_path p.out_dir text) [
          | none ↦ λ s. none
          | some path ↦ recv_to p path
        ]
      ]
    ]
