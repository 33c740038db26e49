-- ===== src/Config/Path/Last.antt =====
-- The last element of a path.
use mpt_base.Prelude.{
  ℕ, zero, suc, ◌+◌, ◌-◌, ◌^◌, ◌%◌, ◌<◌, ◌≤◌, ◌≡◌, ◌≢◌, refl, ap, ◌∙◌, some, arith, ==-false,
  ==_iff, true, false, inl, inr, ltb-false, ltb-true, ◌⊎◌,
}
use native.Mathlib.Decide.{ℕ_discrete}
use mpt_base.Prelude.Int.{as_int}
use mpt_base.Prelude.Mem.{Bytes}
use mpt_base.Config.Path.{ElementPath, is_binary, path_last, scan_back}

-- The place `q` where the last part of the `pos` characters from `m` starts.
record LastPart (m : Bytes) (sep pos len : ℕ) (r : ℕ × ℕ) : Type 0 where
  q : ℕ
  inside : q ≤ pos
  is : r ≡ (q, len + (pos - q))
  part : (a : ℕ) → q ≤ a → a < pos → m a ≢ sep
  start : (q ≡ 0) ⊎ (m (q - 1) ≡ sep)

scan_back-LastPart :
    (m : Bytes) (sep pos len : ℕ) → LastPart m sep pos len (scan_back m sep pos len)
unfolding scan_back
scan_back-LastPart m sep zero len = record {
  q = 0;
  inside = omega arith;
  is = ap (λ (x : ℕ). (0, x)) (omega arith);
  part = λ a l h. omega arith;
  start = inl refl;
}
scan_back-LastPart m sep (suc k) len = elim (ℕ_discrete (m k) sep) [
  | yes z ↦ rw ((==_iff (m k) sep).1 z) (record {
    q = suc k;
    inside = omega arith;
    is = ap (λ (x : ℕ). (suc k, x)) (omega arith);
    part = λ a l h. omega arith;
    start = inr (ap m (omega arith) ∙ z);
  })
  | no ne ↦
      let w : LastPart m sep k (len + 1) (scan_back m sep k (len + 1)) =
        scan_back-LastPart m sep k (len + 1) in
      let inside = w.inside in
      rw (==-false (m k) sep ne) (record {
        q = w.q;
        inside = omega arith;
        is = w.is ∙ ap (λ (x : ℕ). (w.q, x)) (omega arith);
        part = λ a l h. elim (ℕ_discrete a k) [ yes e ↦ rw e ne | no n ↦ w.part a l (omega arith) ];
        start = w.start;
      })
]

last-text :
    (p : ElementPath) (m : Bytes) (q n : ℕ)
    → p.base ≡ some m
    → is_binary p ≡ false
    → 0 < p.len
    → scan_back m p.sep (p.len - 1) 0 ≡ (q, n)
    → path_last p
      ≡ (record p { off = (p.off + q) % 2 ^ 64; len = n % 256 + 1; first = n % 256 }, as_int n)
unfolding path_last
last-text p m q n b t l e = simp (b, t, ==-false p.len 0 (omega arith), e) refl

last-binary :
    (p : ElementPath) (m : Bytes) (n : ℕ)
    → p.base ≡ some m
    → is_binary p ≡ true
    → 2 ≤ p.len
    → n ≡ m (p.len - 2)
    → n < 128
    → n ≤ p.len
    → path_last p ≡ (
      record p { off = (p.off + (p.len - n)) % 2 ^ 64; len = n % 256 + 2; first = n % 256 },
      as_int n,
    )
unfolding path_last
last-binary p m n b t l e s c =
    simp
      (
        b,
        t,
        ==-false p.len 0 (omega arith),
        ← e,
        ltb-true n 128 s,
        ltb-false p.len 2 l,
        ltb-false p.len n c,
      )
      refl

-- The last element of a text path with a length is the part behind the last separator among the
-- characters of the path's base, not of those from its offset on; the offset is moved by the place
-- of that part, and the new length counts it and its end if it has fewer than 256 characters.
pub path_last-text :
    (p : ElementPath) (m : Bytes)
    → p.base ≡ some m
    → is_binary p ≡ false
    → 0 < p.len
    → p.off + p.len < 2 ^ 64
    → (p' : ElementPath) × (q : ℕ) × (path_last p ≡ (p', as_int (p.len - 1 - q)))
      × (q < p.len)
      × ((a : ℕ) → q ≤ a → a < p.len - 1 → m a ≢ p.sep)
      × ((q ≡ 0) ⊎ (m (q - 1) ≡ p.sep))
      × (p'.off ≡ p.off + q)
      × (p.len - 1 - q < 256 → p'.len ≡ p.len - q)
path_last-text p m b t l h =
    let w : LastPart m p.sep (p.len - 1) 0 (scan_back m p.sep (p.len - 1) 0) =
      scan_back-LastPart m p.sep (p.len - 1) 0 in
    let inside = w.inside in
    let n = p.len - 1 - w.q in
    let is : scan_back m p.sep (p.len - 1) 0 ≡ (w.q, n) =
      w.is ∙ ap (λ (x : ℕ). (w.q, x)) (omega arith) in
    (
      record p { off = (p.off + w.q) % 2 ^ 64; len = n % 256 + 1; first = n % 256 },
      w.q,
      last-text p m (w.q) n b t l is,
      omega arith,
      w.part,
      w.start,
      omega arith,
      λ s. omega arith,
    )

-- The last element of a binary path, with a length below 128 that the path's own length covers: it
-- gives that length as an int, but the path that is left ends two bytes behind the end of the path.
pub path_last_beyond :
    (p : ElementPath) (m : Bytes)
    → p.base ≡ some m
    → is_binary p ≡ true
    → 2 ≤ p.len
    → m (p.len - 2) < 128
    → m (p.len - 2) ≤ p.len
    → p.off + p.len < 2 ^ 64
    → (p' : ElementPath) × (path_last p ≡ (p', as_int (m (p.len - 2))))
      × (p'.off + p'.len ≡ p.off + p.len + 2)
path_last_beyond p m b t l s c h =
    let n = m (p.len - 2) in
    (
      record p { off = (p.off + (p.len - n)) % 2 ^ 64; len = n % 256 + 2; first = n % 256 },
      last-binary p m n b t l refl s c,
      omega arith,
    )
