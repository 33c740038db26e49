-- ===== src/Convert/Cobs/Decode/Ending.antt =====
-- mptcore/convert/decode_cobs.c: the decoder's loop on any data in one element ends inside of it.
use mpt_base.Prelude.{
  ℕ, zero, suc, ◌+◌, ◌-◌, ◌<◌, ◌≤◌, ◌≡◌, refl, Bool, true, false, if◌then◌else◌, arith, ==-false,
  ok, Run, done, fault,
}
use native.Mathlib.Decide.{ℕ_discrete}
use mpt_base.Prelude.Mem.{Bytes}
use mpt_base.Convert.Cobs.Decode.{
  DecodeState, Decoded, running, stopped, overrun, Format, read_code, decode_loop, deliver, pause,
}
use mpt_base.Convert.Cobs.Decode.Step.{reader}
use mpt_base.Convert.Cobs.Decode.Advance.{
  Inside, Inside-refl, Inside-trans, goes_on, stops, data_bytes-Advance, read_code-Advance,
}

-- The loop's outcome: it ends, with the place of the encoded data in the element of which `total`
-- bytes lie from `start` on.
pub record Ends (m : Bytes) (lo hi total : ℕ) (r : Run Decoded) : Type 0 where
  pub e : Decoded
  pub is : r ≡ done e
  pub curr : e.state.curr ≤ total
  pub inside : Inside lo hi m e.mem

module _ (f : Format) (single : Bool) (start : ℕ) (s : DecodeState) where
  abbrev Later : ℕ → Type 0
  Later fuel =
      (m : Bytes) (t g k l c p : ℕ)
      → k < fuel
      → Ends m t (t + g + k) (start + l + g + k)
          (decode_loop f single start s fuel (reader m t g k l c p))

  Ends-widen :
      (m m' : Bytes) (t t' hi total total' : ℕ) (r : Run Decoded)
      → t ≤ t'
      → total' ≤ total
      → Inside t hi m m'
      → Ends m' t' hi total' r
      → Ends m t hi total r
  Ends-widen m m' t t' hi total total' r h n i w = record {
    e = w.e;
    is = w.is;
    curr = let c = w.curr in omega arith;
    inside = Inside-trans t hi t' m m' w.e.mem h i w.inside;
  }

  -- Behind the bytes of a block.
  behind_block :
      (fuel : ℕ) (m : Bytes) (t g k l c p : ℕ)
      → k < suc fuel
      → Later fuel
      → Ends m t (t + g + k) (start + l + g + k) (elim (read_code f (reader m t g k l c p)) [
        | overrun ↦ fault
        | stopped r d'' ↦ done (pause start s r d'')
        | running d'' ↦ decode_loop f single start s fuel d''
      ])
  behind_block fuel m t g k l c p h more = elim (read_code-Advance f m t g k l c p) [
    | stops x d e size inside ↦
        rw e (record { e = pause start s x d; is = refl; curr = omega arith; inside = inside })
    | goes_on m' t' g' k' l' c' p' e lo sum size less inside ↦ rw e (
        Ends-widen m m' t t' (t + g + k) (start + l + g + k) (start + l' + g' + k')
          (decode_loop f single start s fuel (reader m' t' g' k' l' c' p')) lo (omega arith) inside
          (rw sum at (more m' t' g' k' l' c' p' (omega arith))))
  ]

  block_end :
      (first : Bool) (fuel : ℕ) (m : Bytes) (t g k l c p : ℕ)
      → k < suc fuel
      → Later fuel
      → Ends m t (t + g + k) (start + l + g + k) (
          if first
          then done (pause start s (ok 0) (reader m t g k l c p))
          else elim (read_code f (reader m t g k l c p)) [
            | overrun ↦ fault
            | stopped r d'' ↦ done (pause start s r d'')
            | running d'' ↦ decode_loop f single start s fuel d''
          ])
  block_end true fuel m t g k l c p h more = record {
    e = pause start s (ok 0) (reader m t g k l c p);
    is = refl;
    curr = omega arith;
    inside = Inside-refl t (t + g + k) m;
  }
  block_end false fuel m t g k l c p h more = behind_block fuel m t g k l c p h more

  pub decode_loop-Ends :
      (fuel : ℕ) (m : Bytes) (t g k l c p : ℕ)
      → k < fuel
      → Ends m t
          (t + g + k)
          (start + l + g + k)
          (decode_loop f single start s fuel (reader m t g k l c p))
  unfolding decode_loop
  decode_loop-Ends zero m t g k l c p h = absurd (omega arith)
  decode_loop-Ends (suc fuel) m t g k l c p h = elim (ℕ_discrete c 0) [
    | yes z ↦ rw z (record {
      e = deliver start (reader m t g k l 0 p);
      is = refl;
      curr = omega arith;
      inside = Inside-refl t (t + g + k) m;
    })
    | no nz ↦ elim (data_bytes-Advance (f.len_data c - p) m t g k l c p) [
      | stops x d e size inside ↦
          rw (decode_loop, ==-false c 0 nz, e)
            (record { e = pause start s x d; is = refl; curr = omega arith; inside = inside })
      | goes_on m' t' g' k' l' c' p' e lo sum size less inside ↦
          rw (decode_loop, ==-false c 0 nz, e)
            (Ends-widen m m' t t' (t + g + k) (start + l + g + k) (start + l' + g' + k')
              (if single
                then done (pause start s (ok 0) (reader m' t' g' k' l' c' p'))
                else elim (read_code f (reader m' t' g' k' l' c' p')) [
                  | overrun ↦ fault
                  | stopped r d'' ↦ done (pause start s r d'')
                  | running d'' ↦ decode_loop f single start s fuel d''
                ])
              lo (omega arith) inside
              (rw (← sum)
                (block_end single fuel m' t' g' k' l' c' p' (omega arith) (decode_loop-Ends fuel))))
    ]
  ]
