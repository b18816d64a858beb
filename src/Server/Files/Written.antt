-- ===== src/Server/Files/Written.antt =====
-- What a transfer may do to the file system: one path gets a content, the others keep theirs.
use xchange.Prelude.{
  ◌≡◌, refl, sym, ap, ◌∙◌, true, false, Option, none, some, Bytes, [], ◌++◌, eqb, eqb_iff,
  Bool-cases, inl, inr, arith,
}
use xchange.Server.Files.{Files, exists, open_out, write_out, remove}

pub record Written (path : Bytes) (c : Option Bytes) (before after : Files) : Type 0 where
  pub at_path : after.content path ≡ c
  pub elsewhere : (p : Bytes) → eqb path p ≡ false → after.content p ≡ before.content p
  pub can_open : after.can_open ≡ before.can_open

same : (path : Bytes) → eqb path path ≡ true
same path = (eqb_iff path path).1 refl

pub Written-trans :
    {path : Bytes} {c c' : Option Bytes} {f g h : Files}
    → Written path c f g
    → Written path c' g h
    → Written path c' f h
Written-trans a b = record {
  at_path = b.at_path;
  elsewhere = λ p d. b.elsewhere p d ∙ a.elsewhere p d;
  can_open = b.can_open ∙ a.can_open;
}

pub Written-open_out :
    (path : Bytes) (f : Files) → f.can_open path ≡ true → Written path (some []) f (open_out path f)
unfolding open_out
Written-open_out path f can = record {
  at_path = ground (arith, same path);
  elsewhere = λ p d. ground arith;
  can_open = ground arith;
}

pub Written-write_out :
    (path bytes c : Bytes) (f : Files)
    → f.content path ≡ some c
    → f.can_open path ≡ true
    → Written path (some (c ++ bytes)) f (write_out path bytes f)
unfolding write_out
Written-write_out path bytes c f there can = record {
  at_path = ground (arith, same path);
  elsewhere = λ p d. ground arith;
  can_open = ground arith;
}

pub Written-remove : (path : Bytes) (f : Files) → Written path none f (remove path f)
unfolding remove
Written-remove path f = record {
  at_path = ground (arith, same path);
  elsewhere = λ p d. ground arith;
  can_open = refl;
}

-- If the path was free before, removing it again restores every file.
pub Written-none :
    (path : Bytes) (f g : Files)
    → exists path f ≡ false
    → Written path none f g
    → (p : Bytes) → g.content p ≡ f.content p
unfolding exists
Written-none path f g free w p = elim (Bool-cases (eqb path p)) [
  | inl e ↦
      let q = (eqb_iff path p).0 e in
      let fresh : f.content path ≡ none = ground arith in
      ap g.content (sym q) ∙ w.at_path ∙ sym fresh ∙ ap f.content q
  | inr d ↦ w.elsewhere p d
]
