-- ===== src/Queue/Crop.antt =====
-- `mpt_queue_crop`: a run of bytes cut out of the queue.
use native.Mathlib.Nat.{add_comm}
use mpt_base.Prelude.{
  ℕ, zero, suc, ◌+◌, ◌-◌, ◌<◌, ◌≤◌, ◌≡◌, ◌≢◌, ◌⊎◌, inl, inr, ◌==◌, ltb, leb, refl, if◌then◌else◌,
  arith, done, fault, true, false, ok, err, bad_argument, Bool-cases, ◌^◌, ◌∙◌, ==-false, ltb-true,
}
use native.Mathlib.Decide.{dec_lt}
use mpt_base.Prelude.Mem.{Bytes, blit}
use mpt_base.Queue.{Queue, data_low, is_frag, queue_crop, crop_inner, crop_split, crop_front}
use mpt_base.Queue.Contents.{IsValid, address, at, crop_front-IsValid, crop_front-ok, crop_front-at}

-- The queue less the bytes from `pos` to `pos + n`.
pub record Cuts (q : Queue) (pos n : ℕ) (q' : Queue) : Type 0 where
  pub valid : IsValid q'
  pub len : q'.len ≡ q.len - n
  pub max : q'.max ≡ q.max
  pub bytes : (i : ℕ) → i + n < q.len → at q' i ≡ (if ltb i pos then at q i else at q (i + n))

-- The memory after a move within one segment: `rest` bytes go from `base + n` to `base`.
abbrev closed : Queue → (base n rest : ℕ) → Bytes
closed q base n rest = if rest == 0 then q.bytes else blit q.bytes base q.bytes (base + n) rest

crop_inner-line :
    (q : Queue) (base low n : ℕ)
    → n ≤ low
    → base + low ≤ q.max
    → crop_inner q base low 0 n
      ≡ done (ok 0, record q { len = q.len - n; bytes = closed q base n (low - n) })
unfolding crop_inner
crop_inner-line q base low n h l = ground arith

data_low-line :
    (q : Queue) → IsValid q → is_frag q ≡ false → (data_low q ≡ q.len) × (q.off + q.len ≤ q.max)
data_low-line q v f = ground arith

data_low-frag :
    (q : Queue)
    → IsValid q
    → is_frag q ≡ true
    → (data_low q ≡ q.max - q.off) × (q.max < q.off + q.len)
data_low-frag q v f = ground arith

data_low-le : (q : Queue) → data_low q ≤ q.len
data_low-le q = ground arith

-- Where a cut lies in one segment: the segment's address of byte `pos`, and what is left there.
data Place (q : Queue) (pos : ℕ) : Type 0 where
  first : is_frag q ≡ false → pos < q.len → Place q pos
  second : is_frag q ≡ true → data_low q ≤ pos → Place q pos
  end : is_frag q ≡ false → pos ≡ q.len → Place q pos

abbrev base_of : {q : Queue} {pos : ℕ} → Place q pos → ℕ
base_of {q} {pos} (first _ _) = q.off + pos
base_of {q} {pos} (second _ _) = pos - (q.max - q.off)
base_of {q} {pos} (end _ _) = 0

place :
    (q : Queue) (pos : ℕ)
    → pos ≤ q.len
    → IsValid q
    → (is_frag q ≡ false) ⊎ (data_low q ≤ pos)
    → Place q pos
place q pos h v (inl line) = elim (dec_lt pos q.len) [
  | yes l ↦ first line l
  | no l ↦ end line (omega arith)
]
place q pos h v (inr low) = elim (Bool-cases (is_frag q)) [
  | inl frag ↦ second frag low
  | inr line ↦ end line (omega (arith, data_low-line q v line))
]

queue_crop-Place :
    (q : Queue) (pos n : ℕ)
    → IsValid q
    → pos ≢ 0
    → pos ≤ q.len
    → (p : Place q pos) → queue_crop q pos n ≡ crop_inner q (base_of p) (q.len - pos) 0 n
unfolding queue_crop
queue_crop-Place q pos n v ne h (first line l) =
    let (e, fits) = data_low-line q v line in ground arith
queue_crop-Place q pos n v ne h (second frag l) =
    let (e, fits) = data_low-frag q v frag in ground arith
queue_crop-Place q pos n v ne h (end line l) =
    let (e, fits) = data_low-line q v line in ground arith

base_of-le :
    (q : Queue) (pos : ℕ)
    → IsValid q
    → pos ≤ q.len
    → (p : Place q pos) → base_of p + (q.len - pos) ≤ q.max
base_of-le q pos v h (first line l) = omega (arith, data_low-line q v line)
base_of-le q pos v h (second frag l) = omega (arith, data_low-frag q v frag)
base_of-le q pos v h (end line l) = omega (arith, data_low-line q v line)

closed_line :
    (q : Queue) (pos n i : ℕ)
    → q.off + q.len ≤ q.max
    → pos + n ≤ q.len
    → i + n < q.len
    → closed q (q.off + pos) n (q.len - pos - n) (address q i)
      ≡ (if ltb i pos then at q i else at q (i + n))
closed_line q pos n i f h l = ground arith

closed_second :
    (q : Queue) (pos n i : ℕ)
    → q.max < q.off + q.len
    → q.len ≤ q.max
    → q.off ≤ q.max
    → q.max - q.off ≤ pos
    → pos + n ≤ q.len
    → i + n < q.len
    → closed q (pos - (q.max - q.off)) n (q.len - pos - n) (address q i)
      ≡ (if ltb i pos then at q i else at q (i + n))
closed_second q pos n i f g o low h l = ground arith

closed_end :
    (q : Queue) (pos n i : ℕ)
    → pos ≡ q.len
    → pos + n ≤ q.len
    → i + n < q.len
    → closed q 0 n (q.len - pos - n) (address q i) ≡ (if ltb i pos then at q i else at q (i + n))
closed_end q pos n i e h l = ground arith

crop_split-fault :
    (q : Queue) (base low post n : ℕ)
    → q.max < 2 ^ 63
    → base + low ≡ q.max
    → 0 < low
    → post ≢ low
    → crop_split q base low post n ≡ fault
unfolding crop_split
crop_split-fault q base low post n small e p ne = ground arith

closed-Place :
    (q : Queue) (pos n i : ℕ)
    → IsValid q
    → pos + n ≤ q.len
    → i + n < q.len
    → (p : Place q pos)
    → closed q (base_of p) n (q.len - pos - n) (address q i)
      ≡ (if ltb i pos then at q i else at q (i + n))
closed-Place q pos n i v h l (first line _) = closed_line q pos n i (data_low-line q v line).1 h l
closed-Place q pos n i v h l (second frag low) =
    let (e, wraps) = data_low-frag q v frag in
    closed_second q pos n i wraps v.len_in v.off_in (omega arith) h l
closed-Place q pos n i v h l (end _ e) = closed_end q pos n i e h l

suc_some : {k : ℕ} → suc k ≢ 0
suc_some e = omega arith

-- A cut of bytes of the queue that begins at the queue's start, in data that does not wrap, or behind
-- the first segment, takes out exactly the bytes from `pos` to `pos + n`, keeps the others in order,
-- and reads and writes inside of the memory.
pub queue_crop-ok :
    (q : Queue) (pos n : ℕ)
    → IsValid q
    → pos + n ≤ q.len
    → (pos ≡ 0) ⊎ ((is_frag q ≡ false) ⊎ (data_low q ≤ pos))
    → (r : ℕ) × (q' : Queue) × (queue_crop q pos n ≡ done (ok r, q')) × Cuts q pos n q'
queue_crop-ok q zero n v h which =
    let (len', bytes', max') = crop_front-ok q n v (omega arith) in
    (
      if leb (data_low q) n then if n - data_low q == 0 then 0 else 2 else 0,
      (crop_front q n).1,
      unfold queue_crop crop_front in ground arith,
      record {
        valid = crop_front-IsValid n v;
        len = len';
        max = max';
        bytes = λ i l. ground (arith, crop_front-at q n i v, add_comm i n);
      },
    )
queue_crop-ok q (suc pos) n v h which =
    let inner : (is_frag q ≡ false) ⊎ (data_low q ≤ suc pos) = elim which [
      | inl z ↦ absurd (suc_some z)
      | inr w ↦ w
    ] in
    let p = place q (suc pos) (omega arith) v inner in
    let rest = q.len - suc pos in
    (
      0,
      record q { len = q.len - n; bytes = closed q (base_of p) n (rest - n) },
      queue_crop-Place q (suc pos) n v (ground arith) (omega arith) p
          ∙ crop_inner-line q (base_of p) rest n (omega arith)
              (base_of-le q (suc pos) v (omega arith) p),
      record {
        valid = record { small = v.small; off_in = v.off_in; len_in = omega (arith, v) };
        len = refl;
        max = refl;
        bytes = λ i l. closed-Place q (suc pos) n i v h (omega arith) p;
      },
    )

queue_crop_split :
    (q : Queue) (pos n : ℕ)
    → pos ≢ 0
    → pos < data_low q
    → queue_crop q pos n ≡ crop_inner q (q.off + pos) (data_low q - pos) (q.len - data_low q) n
unfolding queue_crop
queue_crop_split q pos n ne l = rw (==-false pos 0 ne, ltb-true pos (data_low q) l)

crop_inner-range :
    (q : Queue) (base low high n : ℕ)
    → low + high < n
    → crop_inner q base low high n ≡ done (err bad_argument, q)
unfolding crop_inner
crop_inner-range q base low high n h = rw (ltb-true (low + high) n h)

-- A cut of bytes past the end is refused, wherever it starts in the data.
pub queue_crop-range :
    (q : Queue) (pos n : ℕ)
    → IsValid q
    → pos ≤ q.len
    → q.len < pos + n
    → queue_crop q pos n ≡ done (err bad_argument, q)
queue_crop-range q zero n v p h = unfold queue_crop crop_front in ground arith
queue_crop-range q (suc pos) n v p h = elim (dec_lt (suc pos) (data_low q)) [
  | yes l ↦
      queue_crop_split q (suc pos) n (ground arith) l
      ∙ crop_inner-range q (q.off + suc pos) (data_low q - suc pos) (q.len - data_low q) n
          (omega (arith, data_low-le q))
  | no l ↦
      let at_place = place q (suc pos) p v (inr (omega arith)) in
      queue_crop-Place q (suc pos) n v (ground arith) p at_place
      ∙ crop_inner-range q (base_of at_place) (q.len - suc pos) 0 n (omega arith)
]

crop_inner-fault :
    (q : Queue) (base low high n : ℕ)
    → n ≤ low + high
    → high ≢ 0
    → crop_split q base low (low + high - n) n ≡ fault
    → crop_inner q base low high n ≡ fault
unfolding crop_inner
crop_inner-fault q base low high n h ne e = ground arith

-- A cut that starts inside of the first segment of data that wraps never ends well, unless as many
-- bytes are left behind it as lie in the first segment from its start on: it reads or writes
-- outside of the memory.
pub queue_crop_wrapped :
    (q : Queue) (pos n : ℕ)
    → IsValid q
    → is_frag q ≡ true
    → 0 < pos
    → pos < data_low q
    → pos + n ≤ q.len
    → q.len - pos - n ≢ data_low q - pos
    → queue_crop q pos n ≡ fault
queue_crop_wrapped q pos n v f p l h ne =
    let (e, w) = data_low-frag q v f in
    let same : data_low q - pos + (q.len - data_low q) - n ≡ q.len - pos - n = omega arith in
    queue_crop_split q pos n (omega arith) l
    ∙ crop_inner-fault q (q.off + pos) (data_low q - pos) (q.len - data_low q) n (omega arith)
        (omega arith)
        (rw same (
          crop_split-fault q (q.off + pos) (data_low q - pos) (q.len - pos - n) n v.small
            (omega arith) (omega arith) ne))
