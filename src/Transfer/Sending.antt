-- ===== src/Transfer/Sending.antt =====
-- The frames that the loop of `sendFile` sends, over a connection of either kind.
use xchange.Prelude.{
  ℕ, zero, suc, ◌+◌, ◌/◌, ◌^◌, ◌≤◌, ◌<◌, ◌≡◌, refl, sym, ap, subst, ◌∙◌, arith, Bool, true, false,
  not, List, [], ◌∷◌, some, Bytes, IsByte, ◌++◌, append_assoc, length, take, length-take, drop,
  length-drop, ltb, Bool-cases, inl, inr,
}
use xchange.Sio.{Kernel}
use xchange.Crypto.{CryptoLib}
use xchange.Frame.{DataFrame}
use xchange.SocketIo.{Session}
use xchange.SocketIo.Send.{send_data_frame}
use xchange.Client.Source.{FileIo, read_bytes}
use xchange.Client.Protocol.{block_frame, next_order, send_blocks}
use xchange.Transfer.Frames.{FrameFits}
use xchange.Transfer.Blocks.{
  block_frames, block_frames_short, block_frames_full, block_frame-FrameFits, block_bounds,
  div_short, div_full,
}
use xchange.Transfer.Channel.{Outbound}

read_block :
    (f : FileIo) (size b : ℕ) (short : Bool)
    → size ≡ b
    → ltb (length (take b f.rest)) b ≡ short
    → read_bytes size f ≡ (take b f.rest, record f { rest = drop b f.rest; good = not short })
unfolding read_bytes
read_block f size b true e h = rw (e, h)
read_block f size b false e h = rw (e, h)

module _ (K : Kernel) (C : CryptoLib) where
  abbrev St : Type 0
  St = Session C.Rng K.World

  send_blocks_stop :
      (fuel id n : ℕ) (f : FileIo) (s : St)
      → f.good ≡ false
      → send_blocks K C (suc fuel) id n f s ≡ some (some n, s)
  unfolding send_blocks
  send_blocks_stop fuel id n f s e = rw e

  send_blocks_round :
      (fuel id n : ℕ) (f f' : FileIo) (chunk : Bytes) (s s' : St)
      → f.good ≡ true
      → read_bytes s.manager.data_block_size f ≡ (chunk, f')
      → n + 1 < 2 ^ 32
      → send_data_frame K C (block_frame id (n + 1) chunk) s ≡ some (true, s')
      → send_blocks K C (suc fuel) id n f s ≡ send_blocks K C fuel id (n + 1) f' s'
  unfolding send_blocks
  send_blocks_round fuel id n f f' chunk s s' good r room e =
      let order : next_order n ≡ n + 1 = omega (arith, room) in ground (arith, good, r, order, e)

  module _ (outgoing : K.World → Bytes) (O : Outbound K C outgoing) where
    -- What has been sent: `w` in front of what follows reads as `fs` in front of what follows.
    pub record Sent (fs : List DataFrame) (k : O.Key) (s : St) (k' : O.Key) (s' : St) : Type 0 where
      pub out : Bytes
      pub written : outgoing s'.world ≡ outgoing s.world ++ out
      pub still_open : O.Open k' s'
      pub reads :
          (gs : List DataFrame) (w : Bytes) → O.Wire k' gs w → O.Wire k (fs ++ gs) (out ++ w)

    pub Sent-trans :
        {fs gs : List DataFrame} {k k' k'' : O.Key} {s s' s'' : St}
        → Sent fs k s k' s'
        → Sent gs k' s' k'' s''
        → Sent (fs ++ gs) k s k'' s''
    Sent-trans {fs} {gs} {k} {s} a b = record {
      out = a.out ++ b.out;
      written =
          b.written ∙ ap (λ x. x ++ b.out) a.written ∙ append_assoc (outgoing s.world) a.out b.out;
      still_open = b.still_open;
      reads = λ hs w h.
          subst (λ x. O.Wire k ((fs ++ gs) ++ hs) x) (sym (append_assoc a.out b.out w))
            (subst (λ l. O.Wire k l (a.out ++ (b.out ++ w))) (sym (append_assoc fs gs hs))
              (a.reads (gs ++ hs) (b.out ++ w) (b.reads hs w h)));
    }

    -- A frame that fits is sent.
    pub send_frame :
        (f : DataFrame) (k : O.Key) (s : St)
        → FrameFits f
        → length f.data_pointer ≤ O.block
        → O.Open k s
        → (k' : O.Key) × (s' : St) × (send_data_frame K C f s ≡ some (true, s'))
          × Sent (f ∷ []) k s k' s'
    send_frame f k s fits small here =
        let (out, k', s', e, written, still_open, reads) = O.send f k s fits small here in
        (k', s', e, record { out = out; written = written; still_open = still_open; reads = reads })

    -- The loop of `sendFile` sends the file's blocks, each in a frame with the next number.
    pub send_blocks-block_frames :
        (fuel id n : ℕ) (f : FileIo) (k : O.Key) (s : St)
        → O.Open k s
        → IsByte id
        → f.good ≡ true
        → length f.rest < fuel
        → n + length f.rest / O.block + 3 ≤ 2 ^ 32
        → (k' : O.Key) × (s' : St) × (send_blocks K C (suc fuel) id n f s
            ≡ some (some (n + length f.rest / O.block + 1), s'))
          × Sent (block_frames O.block fuel id n f.rest) k s k' s'
    send_blocks-block_frames zero id n f k s here byte good h room = absurd (omega arith)
    send_blocks-block_frames (suc fuel) id n f k s here byte good h room =
        let b = O.block in
        let bounds = block_bounds b O.is_block in
        let chunk = take b f.rest in
        let size = length-take b f.rest in
        let left = length-drop b f.rest in
        let fits =
          block_frame-FrameFits id (n + 1) chunk (omega (arith, size, bounds)) byte
            (omega (arith, room)) in
        let (k1, s1, e1, sent1) =
          send_frame (block_frame id (n + 1) chunk) k s fits (omega (arith, size)) here in
        let round = λ (short : Bool) (h' : ltb (length chunk) b ≡ short).
          send_blocks_round (suc fuel) id n f _ chunk s _ good
            (read_block f _ b short (O.block_size k s here) h') (omega (arith, room)) e1 in
        elim (Bool-cases (ltb (length chunk) b)) [
          | inl short ↦
              let few : length f.rest < b = ground (arith, size, short) in
              let last : n + length f.rest / b + 1 ≡ n + 1 =
                omega (arith, div_short b O.is_block (length f.rest) few) in
              (
                k1,
                s1,
                round true short
                    ∙ send_blocks_stop fuel id (n + 1) _ _ refl
                    ∙ ap (λ (j : ℕ). some (some j, s1)) (sym last),
                subst (λ l. Sent l k s k1 s1) (sym (block_frames_short b fuel id n f.rest short))
                    sent1,
              )
          | inr full ↦
              let whole : b ≤ length f.rest = ground (arith, size, full) in
              let step = div_full b O.is_block (length f.rest) whole in
              let next : length (drop b f.rest) / b + 1 ≡ length f.rest / b =
                ap (λ (j : ℕ). j / b + 1) left ∙ sym step in
              let (k2, s2, e2, sent2) =
                send_blocks-block_frames fuel id (n + 1)
                  (record f { rest = drop b f.rest; good = true }) k1 s1 sent1.still_open byte refl
                  (omega (arith, h, left, whole, bounds)) (omega (arith, room, next)) in
              let count : n + 1 + length (drop b f.rest) / b + 1 ≡ n + length f.rest / b + 1 =
                omega (arith, next) in
              (
                k2,
                s2,
                round false full ∙ e2 ∙ ap (λ (j : ℕ). some (some j, s2)) count,
                subst (λ l. Sent l k s k2 s2) (sym (block_frames_full b fuel id n f.rest full))
                    (Sent-trans sent1 sent2),
              )
        ]
