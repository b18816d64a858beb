-- ===== src/Transfer/RecvFile.antt =====
-- All that `recv_file` does with the frames of a file, over a connection of either kind.
use xchange.Prelude.{
  ℕ, ◌+◌, ◌/◌, ◌%◌, ◌^◌, ◌≤◌, ◌<◌, ◌≡◌, ◌≢◌, refl, sym, ap, subst, ◌∙◌, arith, Bool, true, false,
  Option, none, some, Bytes, IsByte, [], ◌∷◌, ◌++◌, length, All, Bool-cases, inl, inr,
  if◌then◌else◌,
}
use xchange.Sio.{Kernel}
use xchange.Crypto.{CryptoLib}
use xchange.SocketIo.{payload}
use xchange.Client.Protocol.{data_frame, eot_frame}
use xchange.Server.Files.{exists, open_out, remove}
use xchange.Server.Files.Written.{Written, Written-trans, Written-open_out, Written-remove}
use xchange.Server.Protocol.{
  Server, Params, file_heading, entry, c_string, target_path, recv_rounds, recv_to, recv_file,
}
use xchange.Server.Protocol.Steps.{
  recv_filename_payload, recv_file_named, recv_to_complete, recv_to_incomplete,
}
use xchange.Transfer.Blocks.{
  block_count, block_frames, file_frames, ends_short, block_bounds, data_frame-FrameFits,
}
use xchange.Transfer.Arrival.{answer}
use xchange.Transfer.Channel.{Inbound}
use xchange.Transfer.Receiving.{Receiving}
use xchange.Transfer.Receiving.Loop.{recv_loop-block_frames}

-- A file's name as `sendFile` sends it: no zero byte, and not longer than the server takes.
pub record IsFilename (name : Bytes) : Type 0 where
  pub no_zero : All (λ (b : ℕ). b ≢ 0) name
  pub some_bytes : 0 < length name
  pub small : length name ≤ 128

c_string-append :
    (name : Bytes) → All (λ (b : ℕ). b ≢ 0) name → c_string (name ++ (0 ∷ [])) ≡ some name
unfolding c_string
c_string-append [] h = ground arith
c_string-append (x ∷ xs) h = let ih = c_string-append xs h.1 in ground (arith, h.0, ih)

module _ (K : Kernel) (C : CryptoLib) (I : Inbound K C) where
  abbrev St : Type 0
  St = Server C.Rng K.World

  -- What `recv_file` leaves at the path: the file if it is complete, and nothing if not.
  abbrev pub kept : Bytes → Option Bytes
  kept bytes = if ends_short I.block bytes then some bytes else none

  -- A path that is free and can be opened, with the file's blocks in the socket.
  recv_to-block_frames :
      (p : Params) (id : ℕ) (path bytes tail : Bytes) (s : St)
      → IsByte id
      → length bytes / I.block + 3 < 2 ^ 32
      → exists path s.files ≡ false
      → s.files.can_open path ≡ true
      → I.Holds id 1
          (block_frames I.block (length bytes + 1) id 0 bytes
            ++ (eot_frame id (block_count I.block bytes + 1) ∷ []))
          tail
          s.session
      → (s' : St) × (recv_to K C p path s ≡ some (ends_short I.block bytes, s'))
        × Written path (kept bytes) s.files s'.files
        × (s'.err_state ≡ s.err_state)
        × I.Always s'.session
  recv_to-block_frames p id path bytes tail s byte room fresh can holds =
      let w = Written-open_out path s.files can in
      let start : Receiving K C I id 1 path [] _ tail (record s { files = open_out path s.files }) =
        record {
          holds = holds;
          content = w.at_path;
          can_open = ap (λ f. f path) w.can_open ∙ can;
        } in
      let (s1, e, ended) =
        recv_loop-block_frames K C I (length bytes + 1) recv_rounds id 0
          (block_count I.block bytes + 1) path [] bytes tail _ byte (omega arith)
          (omega (arith, room)) (omega (arith, room)) (omega arith) start in
      let keep = λ (b : Bool). if b then some bytes else none in
      elim (Bool-cases (ends_short I.block bytes)) [
        | inl good ↦
            let s' : St = record s1 {
              printed = s1.printed ++ (entry p file_heading (length s1.printed) path ∷ []);
            } in
            (
              s',
              recv_to_complete K C p path s s1 fresh (e ∙ ap (λ b. some (b, s1)) good)
                  ∙ ap (λ b. some (b, s')) (sym good),
              subst (λ b. Written path (keep b) s.files s1.files) (sym good)
                  (Written-trans w ended.files),
              ended.err_state,
              ended.always,
            )
        | inr bad ↦
            let s' : St = record s1 { files = remove path s1.files } in
            (
              s',
              recv_to_incomplete K C p path s s1 fresh (e ∙ ap (λ b. some (b, s1)) bad)
                  ∙ ap (λ b. some (b, s')) (sym bad),
              subst (λ b. Written path (keep b) s.files s'.files) (sym bad)
                  (Written-trans w (Written-trans ended.files (Written-remove path s1.files))),
              ended.err_state,
              ended.always,
            )
      ]

  pub recv_file-file_frames :
      (p : Params) (id : ℕ) (name path bytes tail : Bytes) (s : St)
      → IsByte id
      → IsFilename name
      → length bytes / I.block + 3 < 2 ^ 32
      → target_path p.out_dir name ≡ some path
      → exists path s.files ≡ false
      → s.files.can_open path ≡ true
      → I.Holds id 0 (file_frames I.block id name bytes) tail s.session
      → (s' : St) × (recv_file K C p s ≡ some (ends_short I.block bytes, s'))
        × Written path (kept bytes) s.files s'.files
        × (s'.err_state ≡ s.err_state)
        × I.Always s'.session
  unfolding file_frames
  recv_file-file_frames p id name path bytes tail s byte ok room target fresh can holds =
      let bounds = block_bounds I.block I.is_block in
      let f = data_frame id 0 name in
      let size : length name % 2 ^ 16 ≡ length name = omega (arith, ok.small) in
      let (session, e, more, buffered) =
        I.read id 0 f _ tail s.session
          (data_frame-FrameFits id 0 name (omega (arith, ok.small)) byte (omega arith))
          (omega (arith, ok.small, bounds)) refl refl (omega arith) holds in
      let whole : answer f ≡ payload (length name) = ground (arith, ok.some_bytes, size) in
      let read = e ∙ ap (λ r. some (r, session)) whole in
      let named =
        recv_filename_payload K C (length name) s session read ok.small
          (I.order id 1 _ tail session more) in
      let text = ap c_string (ap (λ b. b ++ (0 ∷ [])) buffered) ∙ c_string-append name ok.no_zero in
      let (s', run, w, same, always) =
        recv_to-block_frames p id path bytes tail (record s { session = session }) byte room fresh
          can more in
      (s', recv_file_named K C p _ name path s _ named text target ∙ run, w, same, always)
