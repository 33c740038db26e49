-- ===== src/Convert/Cobs/Decode/Step.antt =====
-- Steps of the decoder's loop over one element of memory.
use mpt_base.Prelude.{
  ℕ, suc, ◌+◌, ◌-◌, ◌<◌, ◌≡◌, ◌≢◌, refl, ap, [], false, some, ltb, ◌==◌, if◌then◌else◌, arith,
  ==-false, Run, done, not, ◌&&◌, ◌⊎◌,
}
use mpt_base.Prelude.Mem.{Bytes, update}
use mpt_base.Convert.Cobs.Decode.{
  Decoder, DecodeState, running, regular, fetch, put, data_byte, data_bytes, zero_bytes, read_code,
  decode_loop, deliver, Decoded,
}

-- A decoder that writes at `t` and reads `g` bytes behind it, where the element has `k` bytes.
abbrev pub reader : Bytes → (t g k l c p : ℕ) → Decoder
reader m t g k l c p = record {
  mem = m;
  dst = t;
  dlen = g + k;
  dvec = [];
  src = t + g;
  clen = k;
  cont = [];
  proc = g;
  mlen = l;
  code = c;
  pos = p;
}

pub reader-eq :
    (m : Bytes) (t g k l c p dst dlen src : ℕ)
    → dst ≡ t
    → dlen ≡ g + k
    → src ≡ t + g
    → ◌≡◌ {A = Decoder}
        (record {
          mem = m;
          dst = dst;
          dlen = dlen;
          dvec = [];
          src = src;
          clen = k;
          cont = [];
          proc = g;
          mlen = l;
          code = c;
          pos = p;
        })
        (reader m t g k l c p)
reader-eq m t g k l c p dst dlen src a b e = λ i. record {
  mem = m;
  dst = a i;
  dlen = b i;
  dvec = [];
  src = e i;
  clen = k;
  cont = [];
  proc = g;
  mlen = l;
  code = c;
  pos = p;
}

pub fetch-next : (src n k : ℕ) → n ≡ suc k → fetch src n [] ≡ some (src, k, [])
unfolding fetch
fetch-next src n k e = rw e refl

pub data_byte-reader :
    (m : Bytes) (t g k l c p : ℕ)
    → 0 < g
    → m (t + g) ≢ 0
    → data_byte (reader m t g (suc k) l c p)
      ≡ running (reader (update m t (m (t + g))) (t + 1) g k (l + 1) c (p + 1))
unfolding data_byte put
data_byte-reader m t g k l c p h ne =
    rw
      (
        data_byte,
        fetch-next (t + g) (suc k) k refl,
        ==-false (m (t + g)) 0 ne,
        ==-false g 0 (omega arith),
        put,
        fetch-next t (g + suc k) (g + k) (omega arith),
      )
      (ap running (
        reader-eq (update m t (m (t + g))) (t + 1) g k (l + 1) c (p + 1) (t + 1) (g + k) (t + g + 1)
          refl refl (omega arith)))

-- A code behind a block of maximum length, or the end of the message, stands for no zero.
read_code-plain :
    (m : Bytes) (t g k l c p : ℕ)
    → p ≡ c - 1
    → (c ≡ 255) ⊎ (m (t + g) ≡ 0)
    → read_code regular (reader m t g (suc k) l c p)
      ≡ running (reader m t (g + 1) k l (m (t + g)) 0)
unfolding zero_bytes read_code
read_code-plain m t g k l c p e last =
    let none_ : c - 1 + (if ltb c 255 && not (m (t + g) == 0) then 1 else 0) - p ≡ 0 =
      ground arith in
    rw (read_code, fetch-next (t + g) (suc k) k refl, none_)
      (ap running (
        reader-eq m t (g + 1) k l (m (t + g)) 0 t (g + suc k) (t + g + 1) refl (omega arith)
          (omega arith)))

read_code-zero :
    (m : Bytes) (t g k l c p : ℕ)
    → 0 < g
    → p ≡ c - 1
    → c < 255
    → m (t + g) ≢ 0
    → read_code regular (reader m t g (suc k) l c p)
      ≡ running (reader (update m t 0) (t + 1) g k (l + 1) (m (t + g)) 0)
unfolding zero_bytes read_code put
read_code-zero m t g k l c p h e short more =
    let one : c - 1 + (if ltb c 255 && not (m (t + g) == 0) then 1 else 0) - p ≡ 1 = ground arith in
    let back : g - 1 + 1 ≡ g = omega arith in
    rw
      (
        read_code,
        fetch-next (t + g) (suc k) k refl,
        one,
        ==-false g 0 (omega arith),
        put,
        fetch-next t (g + suc k) (g + k) (omega arith),
        back,
      )
      (ap running (
        reader-eq (update m t 0) (t + 1) g k (l + 1) (m (t + g)) 0 (t + 1) (g + k) (t + g + 1) refl
          refl (omega arith)))

module _ (start : ℕ) (s : DecodeState) where
  abbrev pub loop : (fuel : ℕ) → Decoder → Run Decoded
  loop fuel d = decode_loop regular false start s fuel d

  pub loop-data :
      (fuel : ℕ) (m : Bytes) (t g k l c p : ℕ)
      → 0 < g
      → c ≢ 0
      → p < c - 1
      → m (t + g) ≢ 0
      → loop (suc fuel) (reader m t g (suc k) l c p)
        ≡ loop (suc fuel) (reader (update m t (m (t + g))) (t + 1) g k (l + 1) c (p + 1))
  unfolding decode_loop data_bytes
  loop-data fuel m t g k l c p h nz more ne =
      let n : c - 1 - p ≡ suc (c - 1 - (p + 1)) = omega arith in
      rw (==-false c 0 nz, n, data_byte-reader m t g k l c p h ne) refl

  pub loop-plain :
      (fuel : ℕ) (m : Bytes) (t g k l c p : ℕ)
      → c ≢ 0
      → p ≡ c - 1
      → (c ≡ 255) ⊎ (m (t + g) ≡ 0)
      → loop (suc fuel) (reader m t g (suc k) l c p)
        ≡ loop fuel (reader m t (g + 1) k l (m (t + g)) 0)
  unfolding decode_loop data_bytes
  loop-plain fuel m t g k l c p nz e last =
      let n : c - 1 - p ≡ 0 = omega arith in
      rw (==-false c 0 nz, n, read_code-plain m t g k l c p e last) refl

  pub loop-zero :
      (fuel : ℕ) (m : Bytes) (t g k l c p : ℕ)
      → 0 < g
      → c ≢ 0
      → p ≡ c - 1
      → c < 255
      → m (t + g) ≢ 0
      → loop (suc fuel) (reader m t g (suc k) l c p)
        ≡ loop fuel (reader (update m t 0) (t + 1) g k (l + 1) (m (t + g)) 0)
  unfolding decode_loop data_bytes
  loop-zero fuel m t g k l c p h nz e short more =
      let n : c - 1 - p ≡ 0 = omega arith in
      rw (==-false c 0 nz, n, read_code-zero m t g k l c p h e short more) refl

  pub loop-end : (fuel : ℕ) (d : Decoder) → d.code ≡ 0 → loop (suc fuel) d ≡ done (deliver start d)
  unfolding decode_loop
  loop-end fuel d e = rw e refl
