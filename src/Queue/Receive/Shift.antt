-- ===== src/Queue/Receive/Shift.antt =====
-- mptcore/queue/queue_shift.c behind a message of the COBS decoder.
use mpt_base.Prelude.{
  ℕ, ◌+◌, ◌-◌, ◌<◌, ◌≤◌, ◌≡◌, refl, sym, ap, ◌∙◌, Bool, false, List, some, ok, done, arith, ltb,
  ◌>>=◌, ==-false, ◌==◌, if◌then◌else◌, Bool-cases, inl, inr, ◌⊎◌,
}
use mpt_base.Prelude.Mem.{Bytes}
use mpt_base.Prelude.Slice.{slice}
use native.Mathlib.Decide.{ℕ_discrete}
use mpt_base.Queue.{Queue, queue_crop, crop_front, data_low}
use mpt_base.Queue.Contents.{IsValid}
use mpt_base.Queue.Receive.{DecodeQueue, shift_size, shift_pos, cropped, queue_shift}
use mpt_base.Convert.Cobs.Decode.{DecodeState, regular, decode_cobs}
use mpt_base.Convert.Cobs.Decode.Whole.{ended}
use mpt_base.Convert.Cobs.Decode.Stream.{IsReady, ended-IsReady}

-- A queue whose data is in one segment, with the COBS decoder.
abbrev pub cobs_queue : (fuel : ℕ) → Queue → DecodeState → DecodeQueue
cobs_queue fuel q s = record { buffer = q; state = s; dec = some (decode_cobs regular fuel) }

-- The queue behind a message: it starts with the message `y`, the data behind the frame, which ends
-- at the address `end`, is kept, and the state is between messages.
pub record Received (fuel : ℕ) (q : Queue) (end : ℕ) (y : List ℕ) (r : DecodeQueue) : Type 0 where
  pub buffer : Queue
  pub state : DecodeState
  pub is : r ≡ cobs_queue fuel buffer state
  pub ready : IsReady state
  pub front : state.pos ≡ 0
  pub complete : state.msg ≡ some state.len
  pub message : slice buffer.bytes (buffer.off + state.pos) state.len ≡ y
  pub next : (buffer.len ≡ 0) ⊎ (buffer.off + state.curr ≡ end)
  pub left : buffer.len - state.curr ≡ q.off + q.len - end
  pub valid : IsValid buffer
  pub kept : (a : ℕ) → end ≤ a → buffer.bytes a ≡ q.bytes a

pub if-else {ℓ} : {A : Type ℓ} (x y : A) (b : Bool) → b ≡ false → (if b then x else y) ≡ y
if-else x y b e = rw e refl

zero_less : {n : ℕ} → n ≡ 0 → 0 < n → ⊥
zero_less e h = omega arith

-- A shift that takes off the first `n` bytes.
queue_shift-by :
    (qu : DecodeQueue) (n : ℕ) (q' : Queue)
    → 0 < n
    → ¬ (qu.state.curr ≡ 0)
    → shift_size qu.state ≡ n
    → queue_crop qu.buffer 0 n ≡ done (ok 0, q')
    → queue_shift qu
      ≡ done (record qu {
        buffer = q';
        state = record qu.state { curr = qu.state.curr - n; pos = shift_pos qu.state };
      })
unfolding queue_shift
queue_shift-by qu n q' z c e k =
    if-else _ _ (qu.state.curr == 0) (==-false qu.state.curr 0 c)
    ∙ (if-else _ _ (shift_size qu.state == 0)
          (==-false (shift_size qu.state) 0 (λ f. zero_less (sym e ∙ f) z))
        ∙ ((λ i. queue_crop qu.buffer 0 (e i) >>= λ r. done (cropped qu r))
            ∙ (ap (λ w. w >>= λ r. done (cropped qu r)) k ∙ (λ i. done (record qu {
              buffer = q';
              state = record qu.state { curr = qu.state.curr - e i; pos = shift_pos qu.state };
            })))))

-- The shift of a queue behind a message of `l` bytes at `start`, with `g` bytes to the frame's end.
module _ (fuel start l g : ℕ) (q : Queue) (m : Bytes) (y : List ℕ) (v : IsValid q)
    (line : q.off + q.len ≤ q.max) (h : start + l + g ≤ q.len) (p : 0 < l + g)
    (holds : slice m (q.off + start) l ≡ y)
    (kept : (a : ℕ) → q.off + start + l + g ≤ a → m a ≡ q.bytes a) where
  abbrev behind_message : DecodeQueue
  behind_message = cobs_queue fuel (record q { bytes = m }) (ended start m l g).state

  abbrev Shifted : Type 0
  Shifted =
      (r : DecodeQueue) × (queue_shift behind_message ≡ done r)
      × Received fuel q (q.off + start + l + g) y r

  low_all : data_low (record q { bytes = m }) ≡ q.len
  low_all = ground (arith, v.small, v.off_in, v.len_in)

  shift_none : start ≡ 0 → ¬ (l ≡ 0) → Shifted
  unfolding queue_shift
  shift_none z n = (
    behind_message,
    ground arith,
    record {
      buffer = record q { bytes = m };
      state = (ended start m l g).state;
      is = refl;
      complete = refl;
      front = ground arith;
      ready = ended-IsReady start l g m;
      message = holds;
      next = inr (omega arith);
      left = omega arith;
      valid = record { small = v.small; off_in = v.off_in; len_in = v.len_in };
      kept = kept;
    },
  )

  abbrev moved : (n g' : ℕ) → DecodeState
  moved n g' = record (ended start m l g).state { curr = g'; pos = start - n }

  abbrev rest : ℕ → Queue
  rest n = record q { bytes = m; off = q.off + n; len = q.len - n }

  size_some : 0 < start → shift_size (ended start m l g).state ≡ start
  size_some z = ground arith

  size_empty : start ≡ 0 → l ≡ 0 → shift_size (ended start m l g).state ≡ g
  size_empty z n = ground arith

  crop_some :
      (n : ℕ) → 0 < n → n < q.len → queue_crop (record q { bytes = m }) 0 n ≡ done (ok 0, rest n)
  unfolding queue_crop crop_front
  crop_some n z k = ground (arith, low_all)

  crop_all :
      queue_crop (record q { bytes = m }) 0 q.len
      ≡ done (ok 0, record q { bytes = m; off = 0; len = 0 })
  unfolding queue_crop crop_front
  crop_all = ground (arith, low_all)

  shift_by :
      (n : ℕ) (q' : Queue)
      → 0 < n
      → shift_size (ended start m l g).state ≡ n
      → queue_crop (record q { bytes = m }) 0 n ≡ done (ok 0, q')
      → queue_shift behind_message
        ≡ done (
            cobs_queue fuel q' (record (ended start m l g).state {
              curr = start + l + g - n;
              pos = shift_pos (ended start m l g).state;
            }))
  shift_by n q' z e k = queue_shift-by behind_message n q' z (omega arith) e k

  shift_some : 0 < start → Shifted
  shift_some z = (
    cobs_queue fuel (rest start) (record (ended start m l g).state {
      curr = start + l + g - start;
      pos = shift_pos (ended start m l g).state;
    }),
    shift_by start (rest start) z (size_some z) (crop_some start z (omega arith)),
    record {
      buffer = rest start;
      state = record (ended start m l g).state {
        curr = start + l + g - start;
        pos = shift_pos (ended start m l g).state;
      };
      is = refl;
      complete = refl;
      front = ground arith;
      ready = record { ctx = refl; msg = inr refl; order = ground arith };
      message =
          (let first : q.off + start + shift_pos (ended start m l g).state ≡ q.off + start =
              ground arith in
            rw first holds);
      next = inr (omega arith);
      left = omega arith;
      valid = record {
        small = v.small;
        off_in = omega (arith, v.len_in);
        len_in = omega (arith, v.len_in);
      };
      kept = kept;
    },
  )

  no_bytes : (a : ℕ) → l ≡ 0 → slice m a l ≡ y
  no_bytes a n = ap (λ k. slice m a k) n ∙ (sym (ap (λ k. slice m (q.off + start) k) n) ∙ holds)

  shift_empty : start ≡ 0 → l ≡ 0 → Shifted
  shift_empty z n = elim (Bool-cases (ltb g q.len)) [
    | inl k ↦ (
      cobs_queue fuel (rest g) (record (ended start m l g).state {
        curr = start + l + g - g;
        pos = shift_pos (ended start m l g).state;
      }),
      shift_by g (rest g) (omega arith) (size_empty z n) (crop_some g (omega arith) (ground arith)),
      record {
        buffer = rest g;
        state = record (ended start m l g).state {
          curr = start + l + g - g;
          pos = shift_pos (ended start m l g).state;
        };
        is = refl;
        complete = refl;
        front = ground arith;
        ready = record { ctx = refl; msg = inr refl; order = ground arith };
        message = no_bytes _ n;
        next = inr (omega arith);
        left = omega arith;
        valid = record {
          small = v.small;
          off_in = omega (arith, v.len_in);
          len_in = omega (arith, v.len_in);
        };
        kept = kept;
      },
    )
    | inr k ↦
        (let all : g ≡ q.len = ground arith in
          (
            cobs_queue fuel (record q { bytes = m; off = 0; len = 0 })
                (record (ended start m l g).state {
                  curr = start + l + g - g;
                  pos = shift_pos (ended start m l g).state;
                }),
            shift_by g (record q { bytes = m; off = 0; len = 0 }) (omega arith) (size_empty z n)
                (rw all crop_all),
            record {
              buffer = record q { bytes = m; off = 0; len = 0 };
              state = record (ended start m l g).state {
                curr = start + l + g - g;
                pos = shift_pos (ended start m l g).state;
              };
              is = refl;
              complete = refl;
              front = ground arith;
              ready = record { ctx = refl; msg = inr refl; order = ground arith };
              message = no_bytes _ n;
              next = inl refl;
              left = omega arith;
              valid = record { small = v.small; off_in = omega arith; len_in = omega arith };
              kept = kept;
            },
          ))
  ]

  pub shift-Received : Shifted
  shift-Received = elim (ℕ_discrete start 0) [
    | no s ↦ shift_some (omega arith)
    | yes s ↦ elim (ℕ_discrete l 0) [ no n ↦ shift_none s n | yes n ↦ shift_empty s n ]
  ]
