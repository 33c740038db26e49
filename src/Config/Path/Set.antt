-- ===== src/Config/Path/Set.antt =====
-- The text that a path is set to, and the elements that it holds then.
use mpt_base.Prelude.{
  ℕ, zero, suc, ◌+◌, ◌-◌, ◌^◌, ◌<◌, ◌≤◌, ◌≡◌, ◌≢◌, refl, sym, ap, ◌∙◌, List, [], ◌∷◌, Option, none,
  some, ◌==◌, if◌then◌else◌, arith, ==-false, ==_iff, true, false, leb, done, ltb, length,
  Option-cases, inl, inr,
}
use native.Mathlib.Decide.{ℕ_discrete}
use mpt_base.Prelude.Mem.{Bytes}
use mpt_base.Prelude.Slice.{slice}
use mpt_base.Config.Path.{ElementPath, Scan, memchr, scan_text, path_set}
use mpt_base.Config.Path.Split.{split, push}
use mpt_base.Config.Path.Next.{IsText, elements}

-- The text before the first assign character.
unfoldable pub before : (assign : ℕ) → List ℕ → List ℕ
before assign [] = []
before assign (c ∷ s) = let rest = before assign s in if c == assign then [] else c ∷ rest

-- What the loop finds in the `n` characters from `plen` on.
record Scanned (m : Bytes) (sep assign plen first count n : ℕ) (r : Scan) : Type 0 where
  text : List ℕ
  is : text ≡ before assign (slice m plen n)
  same : slice m plen (length text) ≡ text
  short : length text ≤ n
  read : r.plen + r.add ≡ plen + length text + 1
  parts : r.count + r.add ≡ count + length (split sep text)
  ended : r.add ≡ (if length text == n then 1 else 0)
  kept : count ≢ 0 → r.first ≡ first
  lost : count ≡ 0 → memchr m plen sep (length text) ≡ none → r.first ≡ first
  found : (k : ℕ) → count ≡ 0 → memchr m plen sep (length text) ≡ some k → r.first ≡ plen + k

length-push : (c : ℕ) (x : List (List ℕ)) → 0 < length x → length (push c x) ≡ length x
length-push c [] h = omega arith
length-push c (x ∷ xs) h = refl

split_size : (sep : ℕ) (s : List ℕ) → 0 < length (split sep s)
unfolding split
split_size sep [] = omega arith
split_size sep (c ∷ s) =
    let rest = split_size sep s in let e = length-push c (split sep s) rest in ground arith

memchr-zero : (m : Bytes) (a c k : ℕ) → memchr m a c 0 ≢ some k
unfolding memchr
memchr-zero m a c k e = cc

memchr-here : (m : Bytes) (a c n : ℕ) → m a ≡ c → memchr m a c (suc n) ≡ some 0
unfolding memchr
memchr-here m a c n e = ground arith

memchr-next :
    (m : Bytes) (a c n k : ℕ)
    → m a ≢ c
    → memchr m a c (suc n) ≡ some k
    → (j : ℕ) × (memchr m (a + 1) c n ≡ some j) × (k ≡ j + 1)
unfolding memchr
memchr-next m a c n k ne e = elim (Option-cases (memchr m (a + 1) c n)) [
  | inl h ↦ ground arith
  | inr (j, h) ↦ (j, h, ground arith)
]

memchr-lost :
    (m : Bytes) (a c n : ℕ) → m a ≢ c → memchr m a c (suc n) ≡ none → memchr m (a + 1) c n ≡ none
unfolding memchr
memchr-lost m a c n ne e = elim (Option-cases (memchr m (a + 1) c n)) [
  | inl h ↦ h
  | inr (j, h) ↦ ground arith
]

-- The text ends with the range or before an assign character.
scan_end :
    (m : Bytes) (sep assign plen first count n : ℕ) (r : Scan)
    → before assign (slice m plen n) ≡ []
    → r.plen + r.add ≡ plen + 1
    → r.count + r.add ≡ count + 1
    → r.add ≡ (if 0 == n then 1 else 0)
    → r.first ≡ first
    → Scanned m sep assign plen first count n r
scan_end m sep assign plen first count n r b l c e f = record {
  text = [];
  is = sym b;
  same = refl;
  short = omega arith;
  read = omega arith;
  parts = c ∙ ap (λ (x : ℕ). count + x) (unfold split in refl);
  ended = e;
  kept = λ h. f;
  lost = λ z h. f;
  found = λ k z h. absurd (memchr-zero m plen sep k h);
}

scan_char :
    (m : Bytes) (sep assign plen first count n : ℕ) (r : Scan)
    → m plen ≢ assign
    → m plen ≢ sep
    → Scanned m sep assign (plen + 1) first count n r
    → Scanned m sep assign plen first count (suc n) r
scan_char m sep assign plen first count n r na ns w = record {
  text = m plen ∷ w.text;
  is = unfold before in (rw (==-false (m plen) assign na) (ap (λ (x : List ℕ). m plen ∷ x) w.is));
  same = ap (λ (x : List ℕ). m plen ∷ x) w.same;
  short = let short = w.short in omega arith;
  read = let read = w.read in omega arith;
  parts =
      unfold split in
      (rw
        (==-false (m plen) sep ns, length-push (m plen) (split sep w.text) (split_size sep w.text))
        w.parts);
  ended = let ended = w.ended in ground arith;
  kept = w.kept;
  lost = λ z h. w.lost z (memchr-lost m plen sep (length w.text) ns h);
  found = λ k z h.
      let next = memchr-next m plen sep (length w.text) k ns h in
      let at_ = w.found next.0 z next.1 in let later = next.2 in omega arith;
}

scan_sep :
    (m : Bytes) (sep assign plen first count n : ℕ) (r : Scan)
    → m plen ≢ assign
    → m plen ≡ sep
    → Scanned m sep assign (plen + 1) (if count == 0 then plen else first) (count + 1) n r
    → Scanned m sep assign plen first count (suc n) r
scan_sep m sep assign plen first count n r na s w =
    let kept : r.first ≡ (if count == 0 then plen else first) = w.kept (omega arith) in
    record {
      text = m plen ∷ w.text;
      is =
          unfold before in
          (rw (==-false (m plen) assign na) (ap (λ (x : List ℕ). m plen ∷ x) w.is));
      same = ap (λ (x : List ℕ). m plen ∷ x) w.same;
      short = let short = w.short in omega arith;
      read = let read = w.read in omega arith;
      parts = let parts = w.parts in unfold split in ground arith;
      ended = let ended = w.ended in ground arith;
      kept = λ h. kept ∙ ground arith;
      lost = λ z h. let here = memchr-here m plen sep (length w.text) s in cc;
      found = λ k z h.
          let here = memchr-here m plen sep (length w.text) s in
          let zero_ : k ≡ 0 = ground arith in kept ∙ ground arith;
    }

scan_text-Scanned :
    (m : Bytes) (sep assign plen first count n : ℕ)
    → Scanned m sep assign plen first count n (scan_text m sep assign plen first count n)
unfolding scan_text before
scan_text-Scanned m sep assign plen first count zero =
    scan_end m sep assign plen first count 0 (scan_text m sep assign plen first count 0) refl refl
      refl refl refl
scan_text-Scanned m sep assign plen first count (suc n) = elim (ℕ_discrete (m plen) assign) [
  | yes z ↦
      let is_assign : (m plen == assign) ≡ true = (==_iff (m plen) assign).1 z in
      rw is_assign (
        scan_end m sep assign plen first count (suc n)
          (record { plen = plen + 1; first = first; count = count + 1; add = 0 })
          (rw is_assign refl) (omega arith) (omega arith) (ground arith) refl)
  | no na ↦ elim (ℕ_discrete (m plen) sep) [
    | yes z ↦
        rw (==-false (m plen) assign na, (==_iff (m plen) sep).1 z)
          (scan_sep m sep assign plen first count n
            (scan_text m sep assign (plen + 1) (if count == 0 then plen else first) (count + 1) n)
            na z
            (scan_text-Scanned m sep assign (plen + 1) (if count == 0 then plen else first)
              (count + 1) n))
    | no ns ↦
        rw (==-false (m plen) assign na, ==-false (m plen) sep ns)
          (scan_char m sep assign plen first count n
            (scan_text m sep assign (plen + 1) first count n) na ns
            (scan_text-Scanned m sep assign (plen + 1) first count n))
  ]
]

-- The number of characters that a call reads at most.
abbrev pub size_of : Option ℕ → ℕ → ℕ
size_of len text = elim len [ none ↦ text + 1 | some n ↦ n ]

-- The first length that is stored for the length `f` of the first part.
abbrev stored : ℕ → ℕ
stored f = if ltb 255 f then 0 else f

stored-first :
    (m : Bytes) (sep assign n : ℕ) (r : Scan) (w : Scanned m sep assign 0 0 0 n r)
    → stored r.first ≢ 0
    → memchr m 0 sep (length w.text) ≡ some (stored r.first)
stored-first m sep assign n r w ne = elim (Option-cases (memchr m 0 sep (length w.text))) [
  | inl h ↦ let none_ = w.lost refl h in absurd (ne (ground arith))
  | inr (k, h) ↦
      let place = w.found k refl h in let kept : stored r.first ≡ k = ground arith in rw kept h
]

-- Setting a path to a text of `n` characters, fewer than an address counts, with fewer than 2^31
-- elements gives a text path whose elements are the parts, between separators, of the text before the first assign character. The
-- result is their number, and one less if the text has no assign character. A negative length
-- stands for the string with its terminator.
pub path_set_lem :
    (p : ElementPath) (m : Bytes) (len : Option ℕ) (strlen : ℕ)
    → let n = size_of len strlen in
      let text = before p.assign (slice m 0 n) in
      n + 1 < 2 ^ 64
      → length (split p.sep text) < 2 ^ 31
      → (p' : ElementPath) × (count : ℕ) × (path_set p (some m) len strlen ≡ done (p', count))
        × IsText m p'
        × (elements m p' ≡ split p.sep text)
        × (count + (if length text == n then 1 else 0) ≡ length (split p.sep text))
unfolding path_set
path_set_lem p m len strlen h few =
    let n = size_of len strlen in
    let r = scan_text m p.sep p.assign 0 0 0 n in
    let w : Scanned m p.sep p.assign 0 0 0 n r = scan_text-Scanned m p.sep p.assign 0 0 0 n in
    let short = w.short in
    let read = w.read in
    let len_ : r.plen + r.add ≡ length w.text + 1 = omega arith in
    let size : r.plen + r.add - 1 ≡ length w.text = omega arith in
    let parts = w.parts in
    let parts_few : length (split p.sep w.text) < 2 ^ 31 = rw w.is few in
    let counted : leb (2 ^ 31) r.count ≡ false = ground arith in
    let some_ : r.plen + r.add ≢ 0 = omega arith in
    (
      record p { base = some m; off = 0; len = r.plen + r.add; first = stored r.first; flags = 0 },
      r.count,
      rw counted refl,
      record {
        base = refl;
        text = refl;
        first = λ ne. rw size (stored-first m p.sep p.assign n r w ne);
        bound = omega arith;
      },
      rw (==-false (r.plen + r.add) 0 some_, size)
          (ap (λ (s : List ℕ). split p.sep s) (w.same ∙ w.is)),
      rw (← w.is, ← w.ended) (w.parts ∙ omega arith),
    )
