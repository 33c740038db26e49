-- ===== src/Convert/Cobs/Decode/Advance.antt =====
-- mptcore/convert/decode_cobs.c: the parts of the decoder's loop on any data in one element.
use mpt_base.Prelude.{
  ℕ, zero, suc, ◌+◌, ◌-◌, ◌<◌, ◌≤◌, ◌≡◌, ◌≢◌, refl, ap, ◌∙◌, [], true, ◌==◌, arith, ==-false,
  ==_iff, Result, ok, err, ◌⊎◌, inl, inr, missing_data, missing_buffer,
}
use native.Mathlib.Decide.{ℕ_discrete}
use mpt_base.Prelude.Mem.{Bytes, update}
use mpt_base.Convert.Cobs.Decode.{
  Decoder, Progress, running, stopped, Format, fetch, put, data_byte, data_bytes, zero_bytes,
  read_code,
}
use mpt_base.Convert.Cobs.Decode.Step.{reader, reader-eq, fetch-next, data_byte-reader}

-- Memory that is changed from `lo` on and below `hi` at most.
abbrev pub Inside : (lo hi : ℕ) → Bytes → Bytes → Type 0
Inside lo hi m m' = (a : ℕ) → (a < lo) ⊎ (hi ≤ a) → m' a ≡ m a

pub Inside-refl : (lo hi : ℕ) (m : Bytes) → Inside lo hi m m
Inside-refl lo hi m a o = refl

Inside-widen : (lo hi hi' : ℕ) (m m' : Bytes) → hi ≤ hi' → Inside lo hi m m' → Inside lo hi' m m'
Inside-widen lo hi hi' m m' h k a o = k a (elim o [ inl b ↦ inl b | inr b ↦ inr (omega arith) ])

pub Inside-trans :
    (lo hi lo' : ℕ) (m m' m'' : Bytes)
    → lo ≤ lo'
    → Inside lo hi m m'
    → Inside lo' hi m' m''
    → Inside lo hi m m''
Inside-trans lo hi lo' m m' m'' le h k a o =
    k a (elim o [ inl b ↦ inl (omega arith) | inr b ↦ inr b ]) ∙ h a o

Inside-update : (lo hi t v : ℕ) (m : Bytes) → lo ≤ t → t < hi → Inside lo hi m (update m t v)
Inside-update lo hi t v m l h a o = elim o [ inl b ↦ ground arith | inr b ↦ ground arith ]

-- What a part of the loop does from `reader m t g k l c p` on: it goes on with a reader over the
-- same element that has `less` bytes fewer at least, or it stops.
pub data Advance (m : Bytes) (t g k l less : ℕ) (r : Progress) : Type 0 where
  goes_on :
      (m' : Bytes) (t' g' k' l' c' p' : ℕ)
      → r ≡ running (reader m' t' g' k' l' c' p')
      → t ≤ t'
      → t' + g' + k' ≡ t + g + k
      → l' + t ≡ l + t'
      → k' + less ≤ k
      → Inside t (t + g + k) m m'
      → Advance m t g k l less r
  stops :
      (x : Result ℕ) (d : Decoder)
      → r ≡ stopped x d
      → d.mlen + d.proc ≤ l + g + k
      → Inside t (t + g + k) m d.mem
      → Advance m t g k l less r

-- A reader behind a code whose byte is not counted as space yet.
abbrev reader_behind : Bytes → (t g k l c p : ℕ) → Decoder
reader_behind m t g k l c p = record {
  mem = m;
  dst = t;
  dlen = suc (g + k);
  dvec = [];
  src = suc (t + g);
  clen = k;
  cont = [];
  proc = g;
  mlen = l;
  code = c;
  pos = p;
}

behind-eq :
    (m : Bytes) (t g k l c p dst dlen src proc : ℕ)
    → dst ≡ t
    → dlen ≡ suc (g + k)
    → src ≡ suc (t + g)
    → proc ≡ g
    → ◌≡◌ {A = Decoder}
        (record {
          mem = m;
          dst = dst;
          dlen = dlen;
          dvec = [];
          src = src;
          clen = k;
          cont = [];
          proc = proc;
          mlen = l;
          code = c;
          pos = p;
        })
        (reader_behind m t g k l c p)
behind-eq m t g k l c p dst dlen src proc a b e f = λ i. record {
  mem = m;
  dst = a i;
  dlen = b i;
  dvec = [];
  src = e i;
  clen = k;
  cont = [];
  proc = f i;
  mlen = l;
  code = c;
  pos = p;
}

data Zeros (m : Bytes) (t g k l c : ℕ) (r : Progress) : Type 0 where
  written :
      (m' : Bytes) (t' g' l' p' : ℕ)
      → r ≡ running (reader_behind m' t' g' k l' c p')
      → t ≤ t'
      → t' + g' ≡ t + g
      → l' + t ≡ l + t'
      → Inside t (t + g) m m'
      → Zeros m t g k l c r
  full :
      (x : Result ℕ) (d : Decoder)
      → r ≡ stopped x d
      → d.mlen + d.proc ≤ l + g
      → Inside t (t + g) m d.mem
      → Zeros m t g k l c r

zero_bytes-Zeros :
    (n : ℕ) (m : Bytes) (t g k l c p : ℕ)
    → Zeros m t g k l c (zero_bytes n (reader_behind m t g k l c p))
unfolding zero_bytes put
zero_bytes-Zeros zero m t g k l c p =
    written m t g l p refl (omega arith) refl refl (Inside-refl t (t + g) m)
zero_bytes-Zeros (suc n) m t zero k l c p =
    full (err missing_buffer) (reader_behind m t 0 k l c p) refl (omega arith)
      (Inside-refl t (t + 0) m)
zero_bytes-Zeros (suc n) m t (suc g) k l c p =
    let m' = update m t 0 in
    let step : zero_bytes (suc n) (reader_behind m t (suc g) k l c p)
        ≡ zero_bytes n (reader_behind m' (t + 1) g k (l + 1) c (p + 1)) =
      rw
        (
          zero_bytes,
          ==-false (suc g) 0 (omega arith),
          put,
          fetch-next t (suc (suc g + k)) (suc g + k) refl,
        )
        (ap (λ (d : Decoder). zero_bytes n d)
          (behind-eq m' (t + 1) g k (l + 1) c (p + 1) (t + 1) (suc g + k) (suc (t + suc g))
            (suc g - 1) refl (omega arith) (omega arith) (omega arith))) in
    let one = Inside-update t (t + suc g) t 0 m (omega arith) (omega arith) in
    let end : t + 1 + g ≡ t + suc g = omega arith in
    elim (zero_bytes-Zeros n m' (t + 1) g k (l + 1) c (p + 1)) [
      | written m'' t' g' l' p' e lo sum size inside ↦
          written m'' t' g' l' p' (step ∙ e) (omega arith) (omega arith) (omega arith)
            (Inside-trans t (t + suc g) (t + 1) m m' m'' (omega arith) one (rw end at inside))
      | full x d e size inside ↦
          full x d (step ∙ e) (omega arith)
            (Inside-trans t (t + suc g) (t + 1) m m' d.mem (omega arith) one (rw end at inside))
    ]

data_more :
    (n : ℕ) (m : Bytes) (t g k l c p : ℕ)
    → m (t + g) ≢ 0
    → Advance
        (update m t (m (t + g)))
        (t + 1)
        g
        k
        (l + 1)
        0
        (data_bytes n (reader (update m t (m (t + g))) (t + 1) g k (l + 1) c (p + 1)))
    → Advance m t g (suc k) l 0 (data_bytes (suc n) (reader m t g (suc k) l c p))
unfolding data_bytes data_byte put fetch
data_more n m t zero k l c p nz rest =
    stops (ok 0) (record (reader m t 0 (suc k) l c p) { src = t + 0 + 1; clen = k })
      (rw (data_bytes, ==-false (m (t + 0)) 0 nz) refl) (omega arith)
      (Inside-refl t (t + 0 + suc k) m)
data_more n m t (suc g) k l c p nz rest =
    let v = m (t + suc g) in
    let m' = update m t v in
    let step : data_bytes (suc n) (reader m t (suc g) (suc k) l c p)
        ≡ data_bytes n (reader m' (t + 1) (suc g) k (l + 1) c (p + 1)) =
      rw (data_bytes, data_byte-reader m t (suc g) k l c p (omega arith) nz) refl in
    let end : t + 1 + suc g + k ≡ t + suc g + suc k = omega arith in
    let one = Inside-update t (t + suc g + suc k) t v m (omega arith) (omega arith) in
    elim rest [
      | goes_on m'' t' g' k' l' c' p' e lo sum size less inside ↦
          goes_on m'' t' g' k' l' c' p' (step ∙ e) (omega arith) (omega arith) (omega arith)
            (omega arith)
            (Inside-trans t (t + suc g + suc k) (t + 1) m m' m'' (omega arith) one
              (rw end at inside))
      | stops x d e size inside ↦ stops x d (step ∙ e) (omega arith) (
          Inside-trans t (t + suc g + suc k) (t + 1) m m' d.mem (omega arith) one
            (rw end at inside))
    ]

pub data_bytes-Advance :
    (n : ℕ) (m : Bytes) (t g k l c p : ℕ)
    → Advance m t g k l 0 (data_bytes n (reader m t g k l c p))
unfolding data_bytes data_byte put fetch
data_bytes-Advance zero m t g k l c p =
    goes_on m t g k l c p refl (omega arith) refl refl (omega arith) (Inside-refl t (t + g + k) m)
data_bytes-Advance (suc n) m t g zero l c p =
    stops (ok 0) (reader m t g 0 l c p) refl (omega arith) (Inside-refl t (t + g + 0) m)
data_bytes-Advance (suc n) m t g (suc k) l c p = elim (ℕ_discrete (m (t + g)) 0) [
  | yes z ↦
      let zero_ : (m (t + g) == 0) ≡ true = (==_iff (m (t + g)) 0).1 z in
      stops (err missing_data) (reader m t g (suc k) l c p) (rw (data_bytes, zero_) refl)
        (omega arith) (Inside-refl t (t + g + suc k) m)
  | no nz ↦
      data_more n m t g k l c p nz
        (data_bytes-Advance n (update m t (m (t + g))) (t + 1) g k (l + 1) c (p + 1))
]

pub read_code-Advance :
    (f : Format) (m : Bytes) (t g k l c p : ℕ)
    → Advance m t g k l 1 (read_code f (reader m t g k l c p))
unfolding read_code fetch
read_code-Advance f m t g zero l c p =
    stops (ok 0) (reader m t g 0 l c p) refl (omega arith) (Inside-refl t (t + g + 0) m)
read_code-Advance f m t g (suc k) l c p =
    let next = m (t + g) in
    let n = f.len_data c + f.len_zero c next - p in
    let behind : record (reader m t g (suc k) l c p) { src = t + g + 1; clen = k; cont = [] }
        ≡ reader_behind m t g k l c p =
      behind-eq m t g k l c p t (g + suc k) (t + g + 1) g refl (omega arith) (omega arith) refl in
    let same = λ (r : Progress) (e : zero_bytes n (reader_behind m t g k l c p) ≡ r).
      ap (λ (d : Decoder). zero_bytes n d) behind ∙ e in
    elim (zero_bytes-Zeros n m t g k l c p) [
      | written m' t' g' l' p' e lo sum size inside ↦
          goes_on m' t' (g' + 1) k l' next 0
            (rw (read_code, same (running (reader_behind m' t' g' k l' c p')) e)
              (ap running (
                reader-eq m' t' (g' + 1) k l' next 0 t' (suc (g' + k)) (suc (t' + g')) refl
                  (omega arith) (omega arith))))
            lo (omega arith) size (omega arith)
            (Inside-widen t (t + g) (t + g + suc k) m m' (omega arith) inside)
      | full x d e size inside ↦
          stops x d (rw (read_code, same (stopped x d) e) refl) (omega arith)
            (Inside-widen t (t + g) (t + g + suc k) m d.mem (omega arith) inside)
    ]
