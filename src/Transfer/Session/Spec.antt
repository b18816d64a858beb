-- ===== src/Transfer/Session/Spec.antt =====
-- What a file transfer promises, without frames, keys and sockets.
use mathlib.Core.Path.{fun_ext}
use xchange.Prelude.{
  ◌≡◌, refl, sym, ap, ◌∙◌, arith, ℕ, Bool, true, false, not, [], ◌++◌, Option, none, some, Bytes,
  eqb, eqb_iff, Bool-cases, inl, inr, if◌then◌else◌,
}
use xchange.Server.Files.{Files, exists, update}
use xchange.Server.Files.Written.{Written, Written-none}
use xchange.Transfer.Blocks.{ends_short}
use xchange.Transfer.Session.{ack_bytes, is_lost, answers}

-- One step on the contents of the files: the file is there, or nothing has happened and there is
-- an error.
unfoldable pub atomic_transfer :
    ℕ → Bytes → Bytes → (Bytes → Option Bytes) → Bool × (Bytes → Option Bytes)
atomic_transfer block path bytes content =
    if is_lost block bytes then (true, content) else (false, update content path (some bytes))

-- Two file systems with the same content are equal as functions.
Written-update :
    (path bytes : Bytes) (f g : Files)
    → Written path (some bytes) f g
    → g.content ≡ update f.content path (some bytes)
Written-update path bytes f g w = fun_ext at
  where
    at : (p : Bytes) → g.content p ≡ update f.content path (some bytes) p
    at p = elim (Bool-cases (eqb path p)) [
      | inl e ↦ ap g.content (sym ((eqb_iff path p).0 e)) ∙ w.at_path ∙ ground (arith, e)
      | inr d ↦ w.elsewhere p d ∙ ground (arith, d)
    ]

-- What a transfer leaves, and the error that an end reports, are those of the one step.
pub atomic_transfer-Written :
    (block : ℕ) (path bytes : Bytes) (f g : Files) (lost : Bool)
    → is_lost block bytes ≡ lost
    → exists path f ≡ false
    → Written path (if lost then none else some bytes) f g
    → (lost, g.content) ≡ atomic_transfer block path bytes f.content
unfolding atomic_transfer
atomic_transfer-Written block path bytes f g true size free w =
    rw size (ap (λ c. (true, c)) (fun_ext (Written-none path f g free w)))
atomic_transfer-Written block path bytes f g false size free w =
    rw size (ap (λ c. (false, c)) (Written-update path bytes f g w))

-- What the server has made of the file, in terms of its size.
pub kept-is_lost :
    (block : ℕ) (bytes : Bytes)
    → (not (ends_short block bytes) ≡ is_lost block bytes)
      × ((if ends_short block bytes then some bytes else none)
          ≡ (if is_lost block bytes then none else some bytes))
      × (ack_bytes ++ (if ends_short block bytes then ack_bytes else []) ≡ answers block bytes)
unfolding ends_short
kept-is_lost block bytes = by_size (is_lost block bytes)
  where
    by_size :
        (lost : Bool)
        → (not (not lost) ≡ lost)
          × ((if not lost then some bytes else none) ≡ (if lost then none else some bytes))
          × (ack_bytes ++ (if not lost then ack_bytes else [])
              ≡ ack_bytes ++ (if lost then [] else ack_bytes))
    by_size true = (refl, refl, refl)
    by_size false = (refl, refl, refl)
