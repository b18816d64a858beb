-- ===== src/Transfer/Receiving/Loop.antt =====
-- The loop of `recv_file` on all frames of a file.
use xchange.Prelude.{
  ℕ, zero, suc, ◌+◌, ◌/◌, ◌%◌, ◌^◌, ◌≤◌, ◌<◌, ◌≡◌, sym, ap, subst, ◌∙◌, arith, true, false, not,
  some, List, Bytes, IsByte, [], ◌∷◌, ◌++◌, append-nil, append_assoc, length, take, take_all,
  take-append-drop, drop, length-take, length-drop, ltb, ◌==◌, Bool-cases, inl, inr,
}
use xchange.Sio.{Kernel}
use xchange.Crypto.{CryptoLib}
use xchange.Frame.{DataFrame}
use xchange.Client.Protocol.{block_frame, eot_frame}
use xchange.Server.Protocol.{Server, recv_loop}
use xchange.Transfer.Blocks.{
  block_frames, block_frames_short, block_frames_full, ends_short, block_bounds, div_short,
  div_full, mod_short, mod_full,
}
use xchange.Transfer.Channel.{Inbound}
use xchange.Transfer.Receiving.{Receiving, Ended, recv_block, recv_empty_block, recv_eot}

module _ (K : Kernel) (C : CryptoLib) (I : Inbound K C) where
  abbrev St : Type 0
  St = Server C.Rng K.World

  ends_short-cons :
      (x : ℕ) (xs : Bytes) → length (x ∷ xs) < I.block → ends_short I.block (x ∷ xs) ≡ true
  unfolding ends_short
  ends_short-cons x xs small =
      let m = mod_short I.block I.is_block (length (x ∷ xs)) small in ground (arith, m)

  ends_short-nil : ends_short I.block [] ≡ false
  unfolding ends_short
  ends_short-nil =
      let bounds = block_bounds I.block I.is_block in
      let m = mod_short I.block I.is_block 0 (omega (arith, bounds)) in ground (arith, m)

  ends_short-drop :
      (rest : Bytes)
      → I.block ≤ length rest
      → ends_short I.block (drop I.block rest) ≡ ends_short I.block rest
  unfolding ends_short
  ends_short-drop rest whole =
      ap (λ (j : ℕ). not (j % I.block == 0)) (length-drop I.block rest)
      ∙ ap (λ (j : ℕ). not (j == 0)) (mod_full I.block I.is_block (length rest) whole)

  -- The last block, which is shorter than a block, and the frame after it.
  recv_last :
      (fuel id n : ℕ) (path c rest tail : Bytes) (fs : List DataFrame) (s : St)
      → IsByte id
      → length rest < I.block
      → 2 ≤ fuel
      → n + 2 < 2 ^ 32
      → Receiving K C I id n path c (block_frame id n rest ∷ eot_frame id (n + 1) ∷ fs) tail s
      → (s' : St) × (recv_loop K C fuel path s ≡ some (ends_short I.block rest, s'))
        × Ended K C I path (c ++ rest) s s'
  recv_last zero id n path c rest tail fs s byte small two room st = absurd (omega (arith, two))
  recv_last (suc fuel) id n path c [] tail fs s byte small two room st =
      let (s', e, ended) =
        recv_empty_block K C I (suc fuel) id n path c _ tail s (omega arith) byte
          (omega (arith, room)) st in
      (
        s',
        e ∙ ap (λ b. some (b, s')) (sym ends_short-nil),
        subst (λ b. Ended K C I path b s s') (sym (append-nil c)) ended,
      )
  recv_last (suc fuel) id n path c (x ∷ xs) tail fs s byte small two room st =
      let (s1, e1, st1, back) =
        recv_block K C I fuel id n path c (x ∷ xs) _ tail s byte (omega (arith, room))
          (omega (arith, small)) (omega arith) st in
      let (s2, e2, ended) =
        recv_eot K C I fuel id (n + 1) path (c ++ (x ∷ xs)) fs tail s1 (omega (arith, two)) byte
          (omega (arith, room)) st1 in
      (s2, e1 ∙ e2 ∙ ap (λ b. some (b, s2)) (sym (ends_short-cons x xs small)), back s2 _ ended)

  -- All frames of a file's blocks and the frame with the EOT flag: the content is appended, and
  -- the loop ends well if the last block is not empty.
  pub recv_loop-block_frames :
      (g fuel id n last : ℕ) (path c rest tail : Bytes) (s : St)
      → IsByte id
      → length rest < g
      → length rest / I.block + 2 ≤ fuel
      → n + length rest / I.block + 3 < 2 ^ 32
      → last ≡ n + length rest / I.block + 2
      → Receiving K C I id
          (n + 1)
          path
          c
          (block_frames I.block g id n rest ++ (eot_frame id last ∷ []))
          tail
          s
      → (s' : St) × (recv_loop K C fuel path s ≡ some (ends_short I.block rest, s'))
        × Ended K C I path (c ++ rest) s s'
  recv_loop-block_frames zero fuel id n last path c rest tail s byte h two room e st =
      absurd (omega (arith, h))
  recv_loop-block_frames (suc g) zero id n last path c rest tail s byte h two room e st =
      absurd (omega (arith, two))
  recv_loop-block_frames (suc g) (suc fuel) id n last path c rest tail s byte h two room e st =
      let b = I.block in
      let bounds = block_bounds b I.is_block in
      let chunk = take b rest in
      let size = length-take b rest in
      let left = length-drop b rest in
      let start = λ (l : List DataFrame).
        Receiving K C I id (n + 1) path c (l ++ (eot_frame id last ∷ [])) tail s in
      elim (Bool-cases (ltb (length chunk) b)) [
        | inl short ↦
            let few : length rest < b = ground (arith, size, short) in
            let all : chunk ≡ rest = take_all b rest (omega (arith, few)) in
            let none_more = div_short b I.is_block (length rest) few in
            let here = subst start (block_frames_short b g id n rest short) st in
            recv_last (suc fuel) id (n + 1) path c rest tail [] s byte few (omega (arith, two))
              (omega (arith, room, none_more))
              (subst (λ l. Receiving K C I id (n + 1) path c l tail s)
                (ap (λ k. block_frame id (n + 1) k ∷ eot_frame id last ∷ []) all
                  ∙ ap (λ (k : ℕ). block_frame id (n + 1) rest ∷ eot_frame id k ∷ [])
                      (omega (arith, e, none_more)))
                here)
        | inr full ↦
            let whole : b ≤ length rest = ground (arith, size, full) in
            let step = div_full b I.is_block (length rest) whole in
            let next : length (drop b rest) / b + 1 ≡ length rest / b =
              ap (λ (j : ℕ). j / b + 1) left ∙ sym step in
            let here = subst start (block_frames_full b g id n rest full) st in
            let (s1, e1, st1, back) =
              recv_block K C I fuel id (n + 1) path c chunk _ tail s byte (omega (arith, room))
                (omega (arith, size)) (omega (arith, size, whole, bounds)) here in
            let (s2, e2, ended) =
              recv_loop-block_frames g fuel id (n + 1) last path (c ++ chunk) (drop b rest) tail s1
                byte (omega (arith, h, left, whole, bounds)) (omega (arith, two, next))
                (omega (arith, room, next)) (omega (arith, e, next)) st1 in
            let content : (c ++ chunk) ++ drop b rest ≡ c ++ rest =
              append_assoc c chunk (drop b rest) ∙ ap (λ x. c ++ x) (take-append-drop b rest) in
            (
              s2,
              e1 ∙ e2 ∙ ap (λ x. some (x, s2)) (ends_short-drop rest whole),
              back s2 _ (subst (λ x. Ended K C I path x s1 s2) content ended),
            )
      ]
