-- ===== src/Transfer/Bypass.antt =====
-- The whitelist of the server in src/xcd.hpp against a client that fills the control frame by hand.
use xchange.Prelude.{
  ℕ, ◌+◌, ◌/◌, ◌^◌, ◌<◌, ◌≡◌, refl, ap, ◌∙◌, subst, arith, true, false, not, some, none, List,
  Bytes, ◌++◌, length, if◌then◌else◌,
}
use xchange.Wire.{CtrlFrame}
use xchange.Wire.Layout.{encode_ctrl}
use xchange.Sio.{Kernel}
use xchange.Sio.Duplex.{Duplex}
use xchange.Crypto.{CryptoLib, Keys}
use xchange.Server.Admission.{
  listed, pv_is_valid, sv_is_valid, valid_flags, ctrl_frame_valid, sec_version_lookup,
}
use xchange.Server.Files.{Files, exists}
use xchange.Server.Files.Written.{Written}
use xchange.Server.Protocol.{Server, Params, target_path, connection_type}
use xchange.Server.Handler.{closed, Control, is_encrypted, served, connection}
use xchange.Transfer.Blocks.{file_wire, ends_short}
use xchange.Transfer.RecvFile.{IsFilename}
use xchange.Transfer.Connection.{IsPlainFile, connection_receives_file}

-- A control frame that claims a security version, for a file, without the flag for encryption and
-- with the protocol version of plain transfers.
abbrev pub bypass_frame : ℕ → CtrlFrame
bypass_frame sv = record { pv = 1; sv = sv; flags = 10; transmission_id = 1 }

bypass_frame-IsPlainFile :
    (allowed : List ℕ) (sv : ℕ)
    → 0 < sv
    → sv < 5
    → listed sv allowed ≡ true
    → IsPlainFile allowed (bypass_frame sv)
unfolding ctrl_frame_valid sv_is_valid pv_is_valid valid_flags sec_version_lookup listed
    is_encrypted connection_type
bypass_frame-IsPlainFile allowed sv lo hi on_list = record {
  fits = record {
    pv = omega arith;
    sv = omega arith;
    flags = omega arith;
    transmission_id = omega arith;
  };
  valid = ground arith;
  plain = refl;
  not_encrypted = refl;
  binary = refl;
}

module _ (K : Kernel) (C : CryptoLib) (incoming outgoing : K.World → Bytes)
    (net : Duplex K incoming outgoing) where
  -- On whatever whitelist, with a security version of it: when the control frame arrives that
  -- claims this version but has the protocol version 1 and no flag for encryption, and then what
  -- `sendFile` writes for a file unencrypted, a server with a duplex socket that takes writes and
  -- delivers reads whole, and where the path is free and can be opened, serves the connection to
  -- its end without an error, and keeps a file whose size is no multiple of 1450. No other file
  -- changes.
  pub connection_bypasses_whitelist :
      (allowed : List ℕ) (sv : ℕ) (p : Params) (name path bytes tail : Bytes) (memory : Keys)
      (buffer : Bytes) (rng : C.Rng) (files : Files) (w : K.World)
      → 0 < sv
      → sv < 5
      → listed sv allowed ≡ true
      → IsFilename name
      → length bytes / 1450 + 3 < 2 ^ 32
      → ends_short 1450 bytes ≡ true
      → target_path p.out_dir name ≡ some path
      → exists path files ≡ false
      → files.can_open path ≡ true
      → incoming w ≡ encode_ctrl (bypass_frame sv) ++ (file_wire 1 name bytes ++ tail)
      → (c : Control) × (t : Server C.Rng K.World) × (connection K C allowed p memory buffer rng
            files w
          ≡ served c t)
        × (c.state ≡ closed)
        × (c.err ≡ false)
        × (t.err_state ≡ false)
        × Written path (some bytes) files t.files
  connection_bypasses_whitelist allowed sv p name path bytes tail memory buffer rng files w lo hi
        on_list named room short target fresh can came =
      let (c, t, run, ends, err, err_state, written, out) =
        connection_receives_file K C incoming outgoing net allowed p (bypass_frame sv) name path
          bytes tail memory buffer rng files w (bypass_frame-IsPlainFile allowed sv lo hi on_list)
          named room target fresh can came in
      (
        c,
        t,
        run,
        ends,
        err ∙ ap not short,
        err_state ∙ ap not short,
        subst (λ b. Written path (if b then some bytes else none) files t.files) short written,
      )
