-- ===== src/Transfer/Receiving.antt =====
-- What the loop of `recv_file` makes of one frame, over a connection of either kind.
pub mod Loop
use xchange.Prelude.{
  ℕ, zero, suc, ◌+◌, ◌%◌, ◌^◌, ◌≤◌, ◌<◌, ◌≡◌, refl, ap, subst, ◌∙◌, arith, true, false, some, List,
  [], ◌∷◌, ◌++◌, Bytes, IsByte, length,
}
use xchange.Sio.{Kernel}
use xchange.Crypto.{CryptoLib}
use xchange.Frame.{DataFrame}
use xchange.SocketIo.{Session, payload}
use xchange.Client.Protocol.{block_frame, eot_frame}
use xchange.Server.Files.{Files, write_out}
use xchange.Server.Files.Written.{Written, Written-trans, Written-write_out}
use xchange.Server.Protocol.{Server, recv_loop}
use xchange.Server.Protocol.Steps.{payload_bytes, recv_loop_payload, recv_loop_eot, recv_loop_error}
use xchange.Transfer.Blocks.{block_bounds, block_frame-FrameFits, eot_frame-FrameFits}
use xchange.Transfer.Arrival.{answer}
use xchange.Transfer.Channel.{Inbound}

answer-block_frame :
    (id n : ℕ) (chunk : Bytes)
    → length chunk ≤ 1450
    → 0 < length chunk
    → answer (block_frame id n chunk) ≡ payload (length chunk)
answer-block_frame id n chunk small some_bytes =
    let size : length chunk % 2 ^ 16 ≡ length chunk = omega arith in ground arith

module _ (K : Kernel) (C : CryptoLib) (I : Inbound K C) where
  abbrev St : Type 0
  St = Server C.Rng K.World

  -- The file under construction, and the socket with the frames to come.
  pub record Receiving (id n : ℕ) (path c : Bytes) (fs : List DataFrame) (tail : Bytes) (s : St)
      : Type 0 where
    pub holds : I.Holds id n fs tail s.session
    pub content : s.files.content path ≡ some c
    pub can_open : s.files.can_open path ≡ true

  -- How the loop ends.
  pub record Ended (path c : Bytes) (before after : St) : Type 0 where
    pub files : Written path (some c) before.files after.files
    pub printed : after.printed ≡ before.printed
    pub err_state : after.err_state ≡ before.err_state
    pub always : I.Always after.session

  Ended-trans :
      {path c c' : Bytes} {s t : St} (f : Files)
      → Written path (some c) s.files f
      → (session : Session C.Rng K.World)
      → Ended path c' (record s { session = session; files = f }) t
      → Ended path c' s t
  Ended-trans f w session e = record {
    files = Written-trans w e.files;
    printed = e.printed;
    err_state = e.err_state;
    always = e.always;
  }

  unchanged :
      (path c : Bytes) (s : St) (session : Session C.Rng K.World)
      → s.files.content path ≡ some c
      → I.Always session
      → Ended path c s (record s { session = session })
  unchanged path c s session e always = record {
    files = record { at_path = e; elsewhere = λ p d. refl; can_open = refl };
    printed = refl;
    err_state = refl;
    always = always;
  }

  -- A block that is not empty is appended to the file.
  pub recv_block :
      (fuel id n : ℕ) (path c chunk : Bytes) (fs : List DataFrame) (tail : Bytes) (s : St)
      → IsByte id
      → n + 1 < 2 ^ 32
      → length chunk ≤ I.block
      → 0 < length chunk
      → Receiving id n path c (block_frame id n chunk ∷ fs) tail s
      → (s' : St) × (recv_loop K C (suc fuel) path s ≡ recv_loop K C fuel path s')
        × Receiving id (n + 1) path (c ++ chunk) fs tail s'
        × ((t : St) (c' : Bytes) → Ended path c' s' t → Ended path c' s t)
  recv_block fuel id n path c chunk fs tail s byte room small some_bytes st =
      let fits_block : length chunk ≤ 1450 =
        omega (arith, block_bounds I.block I.is_block, small) in
      let fits = block_frame-FrameFits id n chunk fits_block byte (omega (arith, room)) in
      let (session, e, holds, buffered) =
        I.read id n (block_frame id n chunk) fs tail s.session fits small refl refl room st.holds in
      let e' =
        e ∙ ap (λ r. some (r, session)) (answer-block_frame id n chunk fits_block some_bytes) in
      let files = write_out path (payload_bytes K C (length chunk) session) s.files in
      let w : Written path (some (c ++ chunk)) s.files files =
        subst (λ (b : Bytes). Written path (some (c ++ b)) s.files files) buffered
          (Written-write_out path _ c s.files st.content st.can_open) in
      (
        record s { session = session; files = files },
        recv_loop_payload K C fuel (length chunk) path s session e',
        record {
          holds = holds;
          content = w.at_path;
          can_open = ap (λ f. f path) w.can_open ∙ st.can_open;
        },
        λ t c' ended. Ended-trans files w session ended,
      )

  -- An empty block is an error.
  pub recv_empty_block :
      (fuel id n : ℕ) (path c : Bytes) (fs : List DataFrame) (tail : Bytes) (s : St)
      → 0 < fuel
      → IsByte id
      → n + 1 < 2 ^ 32
      → Receiving id n path c (block_frame id n [] ∷ fs) tail s
      → (s' : St) × (recv_loop K C fuel path s ≡ some (false, s')) × Ended path c s s'
  recv_empty_block zero id n path c fs tail s pos byte room st = absurd (omega (arith, pos))
  recv_empty_block (suc fuel) id n path c fs tail s pos byte room st =
      let fits = block_frame-FrameFits id n [] (omega arith) byte (omega (arith, room)) in
      let (session, e, holds, buffered) =
        I.read id n (block_frame id n []) fs tail s.session fits (omega arith) refl refl room
          st.holds in
      (
        record s { session = session },
        recv_loop_error K C fuel path s session e,
        unchanged path c s session st.content (I.holds-Always id (n + 1) fs tail session holds),
      )

  -- The frame with the EOT flag ends the file.
  pub recv_eot :
      (fuel id n : ℕ) (path c : Bytes) (fs : List DataFrame) (tail : Bytes) (s : St)
      → 0 < fuel
      → IsByte id
      → n + 1 < 2 ^ 32
      → Receiving id n path c (eot_frame id n ∷ fs) tail s
      → (s' : St) × (recv_loop K C fuel path s ≡ some (true, s')) × Ended path c s s'
  recv_eot zero id n path c fs tail s pos byte room st = absurd (omega (arith, pos))
  recv_eot (suc fuel) id n path c fs tail s pos byte room st =
      let (session, e, holds, buffered) =
        I.read id n (eot_frame id n) fs tail s.session
          (eot_frame-FrameFits id n byte (omega (arith, room))) (omega arith) refl refl room
          st.holds in
      (
        record s { session = session },
        recv_loop_eot K C fuel path s session e,
        unchanged path c s session st.content (I.holds-Always id (n + 1) fs tail session holds),
      )
