-- ===== src/Convert/Cobs/Decode/Safe.antt =====
-- The decoder on any data in one element: it ends, and stays inside of the element.
use mpt_base.Prelude.{
  ℕ, ◌+◌, ◌-◌, ◌<◌, ◌≤◌, ◌≡◌, refl, [], ◌∷◌, Bool, true, false, none, some, ltb, ◌==◌,
  if◌then◌else◌, arith, err, Run, Option-cases, ◌^◌, Bool-cases, not, ◌&&◌, inl, inr, bad_argument,
  bad_operation, ◌||◌,
}
use mpt_base.Prelude.Mem.{Bytes}
use mpt_base.Convert.Cobs.Decode.{
  Cursor, Vec, DecodeState, Decoded, Format, decode_from, decode_cobs, refuse, dropped,
  drop_message, align_target, seek_from, seek,
}
use mpt_base.Convert.Cobs.Decode.Stream.{cursor, align_target_bound, seek-one, seek-first}
use mpt_base.Convert.Cobs.Decode.Ending.{Ends}
use mpt_base.Convert.Cobs.Decode.Entering.{
  Ends-refuse, seek-short, decode_from-Ends, seek-first_short, Ends-above,
}

if-Ends :
    {r r' : Run Decoded} (c : Bool) (m : Bytes) (lo hi total : ℕ)
    → Ends m lo hi total r
    → (c ≡ false → Ends m lo hi total r')
    → Ends m lo hi total (if c then r else r')
if-Ends true m lo hi total h k = h
if-Ends false m lo hi total h k = k refl

drop-curr : (s : DecodeState) → (drop_message s).curr ≡ s.curr
drop-curr s = elim (Option-cases s.msg) [ inl e ↦ rw e refl | inr (n, e) ↦ rw e refl ]

drop-len :
    (s : DecodeState)
    → dropped s ≤ s.len
    → s.len < 2 ^ 64
    → dropped s + (drop_message s).len ≡ s.len
drop-len s h small = elim (Option-cases s.msg) [
  | inl e ↦ rw e (omega arith)
  | inr (n, e) ↦ let le : n ≤ s.len = rw e at h in rw e (omega arith)
]

moved :
    (f : Format) (single : Bool) (fuel start p total : ℕ) (s : DecodeState) (lo hi b u post : ℕ)
    (m : Bytes)
    → lo ≤ b
    → b + u ≡ hi
    → s.curr ≤ total
    → u < fuel
    → start + (u - post) ≤ total
    → Ends m lo hi total (decode_from f single fuel start 0 p s (seek_from (cursor b u) post).0 m)
moved f single fuel start p total s lo hi b u post m le end h hf room =
    elim (Bool-cases (ltb u post)) [
      | inl less ↦
          let at_ : b + u + 0 ≡ hi = omega arith in
          rw (seek-short b u post less) (
            Ends-above m lo (b + u) hi total
              (decode_from f single fuel start 0 p s (cursor (b + u) 0) m) (omega arith)
              (rw at_ at (
                decode_from-Ends f single fuel start 0 p total s (b + u) 0 m h (omega arith)
                  (omega arith))))
      | inr fits ↦
          let some_ : post ≤ u = ground arith in
          let at_ : b + post + (u - post) ≡ hi = omega arith in
          rw (seek-one b u post some_) (
            Ends-above m lo (b + post) hi total
              (decode_from f single fuel start 0 p s (cursor (b + post) (u - post)) m) (omega arith)
              (rw at_ at (
                decode_from-Ends f single fuel start 0 p total s (b + post) (u - post) m h
                  (omega arith) (omega arith))))
    ]

-- The call behind its first test, from the cursor at the end of the data.
abbrev body :
    (f : Format) (fuel : ℕ) (single : Bool) (s : DecodeState) (c : Cursor) (m : Bytes) → Run Decoded
body f fuel single s c m =
    let dlen = s.pos + s.len in
    let proc = s.curr - dlen in
    let s' = drop_message s in
    if single && not (elim s.msg [ none ↦ true | some _ ↦ false ])
    then refuse (err bad_operation) s m
    else if not (s'.len == 0)
    then decode_from f single fuel (s.pos + dropped s) s'.len proc s' c m
    else if single
    then refuse (err bad_operation) s' m
    else (let post = align_target 4 c.base c.used proc in
        decode_from f single fuel (dlen + post) 0 (proc - post) (record s' { pos = dlen + post })
          (seek_from c post).0 m)

entry :
    (f : Format) (fuel : ℕ) (single : Bool) (s : DecodeState) (v : Vec) (m : Bytes)
    → decode_cobs f fuel s (some (v ∷ [])) (if single then 0 else 1) m ≡ (
        if ltb s.curr (s.pos + s.len) || not (seek 0 0 (v ∷ []) (s.pos + s.len)).1
        then refuse (err bad_argument) s m
        else body f fuel single s (seek 0 0 (v ∷ []) (s.pos + s.len)).0 m)
unfolding decode_cobs
entry f fuel true s v m = refl
entry f fuel false s v m = refl

-- A call whose state's data lies in the element.
call :
    (f : Format) (fuel total : ℕ) (single : Bool) (s : DecodeState) (v : Vec) (m : Bytes)
    → s.pos + s.len ≤ v.len
    → s.pos + s.len ≤ s.curr
    → dropped s ≤ s.len
    → s.len < 2 ^ 64
    → s.curr ≤ total
    → v.len ≤ total
    → v.len < fuel
    → Ends m v.base
        (v.base + v.len)
        total
        (body f fuel single s (cursor (v.base + (s.pos + s.len)) (v.len - (s.pos + s.len))) m)
call f fuel total single s v m fits order old small ht hv hf =
    let dlen = s.pos + s.len in
    let s' = drop_message s in
    let curr' : s'.curr ≤ total = rw (drop-curr s) ht in
    let len' = drop-len s old small in
    let proc = s.curr - dlen in
    let post = align_target 4 (v.base + dlen) (v.len - dlen) proc in
    let lo = v.base in
    let hi = v.base + v.len in
    let end : v.base + dlen + (v.len - dlen) ≡ hi = omega arith in
    let bound = align_target_bound 4 (v.base + dlen) (v.len - dlen) proc in
    if-Ends (single && not (elim s.msg [ none ↦ true | some _ ↦ false ])) m lo hi total
      (Ends-refuse m lo hi total (err bad_operation) s ht)
      λ _.
        if-Ends (not (s'.len == 0)) m lo hi total
          (Ends-above m lo (v.base + dlen) hi total
            (decode_from f single fuel (s.pos + dropped s) s'.len proc s'
              (cursor (v.base + dlen) (v.len - dlen)) m)
            (omega arith)
            (rw end at (
              decode_from-Ends f single fuel (s.pos + dropped s) s'.len proc total s'
                (v.base + dlen) (v.len - dlen) m curr' (omega arith) (omega arith))))
          λ _.
            if-Ends single m lo hi total (Ends-refuse m lo hi total (err bad_operation) s' curr')
              λ _.
                moved f single fuel (dlen + post) (proc - post) total
                  (record s' { pos = dlen + post }) lo hi (v.base + dlen) (v.len - dlen) post m
                  (omega arith) end curr' (omega arith) (omega arith)

-- On any data in one element, in any state whose message is within its data, a call with more fuel
-- than the element has bytes ends, for every format; it changes no byte outside of the element, and
-- leaves the place of the encoded data within it, or at most where it was.
pub decode_cobs-Ends :
    (f : Format) (fuel total : ℕ) (single : Bool) (s : DecodeState) (v : Vec) (m : Bytes)
    → dropped s ≤ s.len
    → s.len < 2 ^ 64
    → s.curr ≤ total
    → v.len ≤ total
    → v.len < fuel
    → Ends m v.base
        (v.base + v.len)
        total
        (decode_cobs f fuel s (some (v ∷ [])) (if single then 0 else 1) m)
decode_cobs-Ends f fuel total single s v m old small ht hv hf =
    let dlen = s.pos + s.len in
    let refused = Ends-refuse m v.base (v.base + v.len) total (err bad_argument) s ht in
    elim (Bool-cases (ltb s.curr dlen)) [
      | inl bad ↦ rw (entry f fuel single s v m, bad) refused
      | inr ordered ↦ elim (Bool-cases (ltb v.len dlen)) [
        | inl short ↦
            rw (entry f fuel single s v m, ordered, seek-first_short v dlen (ground arith)) refused
        | inr fits ↦
            rw (entry f fuel single s v m, ordered, seek-first v dlen (ground arith))
              (call f fuel total single s v m (ground arith) (ground arith) old small ht hv hf)
      ]
    ]
