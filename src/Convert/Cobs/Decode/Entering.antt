-- ===== src/Convert/Cobs/Decode/Entering.antt =====
-- mptcore/convert/decode_cobs.c: where a call of the decoder enters its loop.
use mpt_base.Prelude.{
  ℕ, ◌+◌, ◌-◌, ◌<◌, ◌≤◌, ◌≡◌, refl, sym, ap, ◌∙◌, [], ◌∷◌, Bool, true, false, ltb, ◌==◌,
  if◌then◌else◌, arith, ==-false, ==_iff, Result, ok, err, Run, ◌%◌, ◌/◌, Bool-cases, not, inl, inr,
  bad_argument, bad_value,
}
use native.Mathlib.Decide.{ℕ_discrete}
use mpt_base.Prelude.Mem.{Bytes}
use mpt_base.Convert.Cobs.Decode.{
  Vec, Decoder, DecodeState, Decoded, Format, decode_loop, decode_from, refuse, decoder, seek,
}
use mpt_base.Convert.Cobs.Decode.Stream.{cursor, seek-one}
use mpt_base.Convert.Cobs.Decode.Step.{reader-eq}
use mpt_base.Convert.Cobs.Decode.Advance.{Inside-refl}
use mpt_base.Convert.Cobs.Decode.Ending.{Ends, decode_loop-Ends}

pub Ends-refuse :
    (m : Bytes) (lo hi total : ℕ) (r : Result ℕ) (s : DecodeState)
    → s.curr ≤ total
    → Ends m lo hi total (refuse r s m)
Ends-refuse m lo hi total r s h = record {
  e = record { result = r; state = s; mem = m };
  is = refl;
  curr = h;
  inside = Inside-refl lo hi m;
}

pub seek-short : (b u p : ℕ) → ltb u p ≡ true → seek b u [] p ≡ (cursor (b + u) 0, false)
unfolding seek
seek-short b u p h = rw h refl

-- The loop where the call enters it.
enter :
    (f : Format) (single : Bool) (fuel start l p total : ℕ) (s : DecodeState)
    (b u src k code pos : ℕ) (m : Bytes)
    → src ≡ b + p
    → p + k ≡ u
    → u < fuel
    → start + l + u ≤ total
    → Ends m b (b + u) total (
        decode_loop f single start s fuel (record {
          mem = m;
          dst = b;
          dlen = u;
          dvec = [];
          src = src;
          clen = k;
          cont = [];
          proc = p;
          mlen = l;
          code = code;
          pos = pos;
        }))
enter f single fuel start l p total s b u src k code pos m e n hf room =
    let end : b + p + k ≡ b + u = omega arith in
    let ends =
      rw end at (decode_loop-Ends f single start s fuel m b p k l code pos (omega arith)) in
    let enters =
      ap (λ (d : Decoder). decode_loop f single start s fuel d)
        (reader-eq m b p k l code pos b u src refl (sym n) e) in
    record {
      e = ends.e;
      is = enters ∙ ends.is;
      curr = let c = ends.curr in omega arith;
      inside = ends.inside;
    }

-- A call that starts with the code of a block.
first_code :
    (f : Format) (single : Bool) (fuel start l p total : ℕ) (s : DecodeState) (b u : ℕ) (m : Bytes)
    → p ≤ u
    → s.curr ≤ total
    → u < fuel
    → start + l + u ≤ total
    → Ends m b (b + u) total (
        let next = seek (b + p) (u - p) [] 1 in
        if not next.1
        then refuse (ok 0) s m
        else if m (b + p) == 0
        then refuse (err bad_value) (record s { curr = p + 1 }) m
        else decode_loop f single start s fuel
            (decoder s l (cursor b u) next.0 (p + 1) (m (b + p)) m))
first_code f single fuel start l p total s b u m le h hf room = elim (Bool-cases (ltb (u - p) 1)) [
  | inl none_ ↦ rw (seek-short (b + p) (u - p) 1 none_) (Ends-refuse m b (b + u) total (ok 0) s h)
  | inr any ↦
      let one : 1 ≤ u - p = ground arith in
      elim (ℕ_discrete (m (b + p)) 0) [
        | yes z ↦
            rw (seek-one (b + p) (u - p) 1 one, (==_iff (m (b + p)) 0).1 z)
              (Ends-refuse m b (b + u) total (err bad_value) (record s { curr = p + 1 })
                (omega arith))
        | no nz ↦
            rw (seek-one (b + p) (u - p) 1 one, ==-false (m (b + p)) 0 nz)
              (enter f single fuel start l (p + 1) total s b u (b + p + 1) (u - p - 1) (m (b + p))
                (s.ctx / 256 % 256) m (omega arith) (omega arith) hf room)
      ]
]

pub decode_from-Ends :
    (f : Format) (single : Bool) (fuel start l p total : ℕ) (s : DecodeState) (b u : ℕ) (m : Bytes)
    → s.curr ≤ total
    → u < fuel
    → start + l + u ≤ total
    → Ends m b (b + u) total (decode_from f single fuel start l p s (cursor b u) m)
unfolding decode_from
decode_from-Ends f single fuel start l p total s b u m h hf room = elim (Bool-cases (ltb u p)) [
  | inl short ↦
      rw (decode_from, seek-short b u p short)
        (Ends-refuse m b (b + u) total (err bad_argument) s h)
  | inr fits ↦
      let le : p ≤ u = ground arith in
      elim (ℕ_discrete (s.ctx % 256) 0) [
        | no nz ↦
            rw (decode_from, seek-one b u p le, ==-false (s.ctx % 256) 0 nz)
              (enter f single fuel start l p total s b u (b + p) (u - p) (s.ctx % 256)
                (s.ctx / 256 % 256) m refl (omega arith) hf room)
        | yes z ↦
            simp (seek-one b u p le, (==_iff (s.ctx % 256) 0).1 z)
              (first_code f single fuel start l p total s b u m le h hf room)
      ]
]

pub seek-first_short : (v : Vec) (n : ℕ) → v.len < n → (seek 0 0 (v ∷ []) n).1 ≡ false
unfolding seek
seek-first_short v n h = ground arith

pub Ends-above :
    (m : Bytes) (lo lo' hi total : ℕ) (r : Run Decoded)
    → lo ≤ lo'
    → Ends m lo' hi total r
    → Ends m lo hi total r
Ends-above m lo lo' hi total r h w = record {
  e = w.e;
  is = w.is;
  curr = w.curr;
  inside = λ a o. w.inside a (elim o [ inl b ↦ inl (omega arith) | inr b ↦ inr b ]);
}
