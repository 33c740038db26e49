-- ===== src/Queue/Ends.antt =====
-- Adding and taking bytes at both ends of the queue: mptcore/queue/qpost.c, qpre.c, qpush.c,
-- qunshift.c, qshift.c and qpop.c. A division by zero is a fault.
use mpt_base.Prelude.{
  ℕ, ◌+◌, ◌-◌, ◌/◌, not, ◌&&◌, Option, none, some, ◌==◌, ltb, leb, if◌then◌else◌, Result, ok, err,
  missing_buffer, ◌≡◌, ap, ◌∙◌, Run, done, fault, ◌>>=◌,
}
use mpt_base.Prelude.Int.{as_int}
use mpt_base.Prelude.Mem.{Bytes, copy_out, sub_size}
use mpt_base.Queue.{Queue, Space, data_low, queue_empty, queue_set, crop_front}

-- `return total / len;` after `queue->len += len;`
abbrev grown : Queue → (total len : ℕ) → Run (Result ℕ × Queue)
grown q total len =
    if len == 0 then fault else done (ok ((total - len) / len), record q { len = q.len + len })

-- `mpt_qpost`
abbrev post_in : Queue → ℕ → Option Space → Run (Result ℕ × Queue)
post_in q len none = done (err missing_buffer, q)
post_in q len (some s) =
    if ltb (s.low + s.high) len then done (err missing_buffer, q) else grown q (s.low + s.high) len

unfoldable pub qpost : Queue → ℕ → Run (Result ℕ × Queue)
unfolding queue_empty
qpost q len = post_in q len (queue_empty q)

-- `mpt_qpre`: it does not look at the result of `mpt_queue_empty`, which leaves `low` and `high`
-- unwritten if there is no space.
abbrev pre_offset : Queue → Space → ℕ → ℕ
pre_offset q s len =
    if not (s.high == 0) && ltb s.high len
    then q.max - (len - s.high)
    else if ltb len q.off
    then q.off - len
    else q.off + (q.max - len)

abbrev pre_in : Queue → ℕ → Option Space → Run (Result ℕ × Queue)
pre_in q len none = fault
pre_in q len (some s) =
    if ltb (s.low + s.high) len
    then done (err missing_buffer, q)
    else grown (record q { off = pre_offset q s len }) (s.low + s.high) len

unfoldable pub qpre : Queue → ℕ → Run (Result ℕ × Queue)
unfolding queue_empty
qpre q len = pre_in q len (queue_empty q)

-- `mpt_qpush` and `mpt_qunshift`; the count of `mpt_qpost` and `mpt_qpre` is stored as an `int`, and
-- a negative one is returned.
abbrev unless_negative : Result ℕ → Queue → Run (Result ℕ × Queue) → Run (Result ℕ × Queue)
unless_negative (err e) q writes = done (err e, q)
unless_negative (ok _) q writes = writes

abbrev push_data : ℕ → Option Bytes → Result ℕ × Queue → Run (Result ℕ × Queue)
push_data len d (err e, q) = done (err e, q)
push_data len d (ok n, q) = unless_negative (as_int n) q (queue_set q (sub_size q.len len) len d)

unfoldable pub qpush : Queue → ℕ → Option Bytes → Run (Result ℕ × Queue)
qpush q len d = qpost q len >>= push_data len d

pub qpush_by :
    (q q₁ : Queue) (len n : ℕ) (r : Result ℕ) (d : Option Bytes)
    → qpost q len ≡ done (ok n, q₁)
    → as_int n ≡ r
    → qpush q len d ≡ unless_negative r q₁ (queue_set q₁ (sub_size q₁.len len) len d)
unfolding qpush
qpush_by q q₁ len n r d e f =
    ap (λ k. k >>= push_data len d) e
    ∙ ap (λ k. unless_negative k q₁ (queue_set q₁ (sub_size q₁.len len) len d)) f

abbrev unshift_data : ℕ → Option Bytes → Result ℕ × Queue → Run (Result ℕ × Queue)
unshift_data len d (err e, q) = done (err e, q)
unshift_data len d (ok n, q) = unless_negative (as_int n) q (queue_set q 0 len d)

unfoldable pub qunshift : Queue → ℕ → Option Bytes → Run (Result ℕ × Queue)
qunshift q len d = qpre q len >>= unshift_data len d

pub qunshift_by :
    (q q₁ : Queue) (len n : ℕ) (r : Result ℕ) (d : Option Bytes)
    → qpre q len ≡ done (ok n, q₁)
    → as_int n ≡ r
    → qunshift q len d ≡ unless_negative r q₁ (queue_set q₁ 0 len d)
unfolding qunshift
qunshift_by q q₁ len n r d e f =
    ap (λ k. k >>= unshift_data len d) e ∙ ap (λ k. unless_negative k q₁ (queue_set q₁ 0 len d)) f

-- What `mpt_qshift` and `mpt_qpop` return: a null pointer with the error number, an address in the
-- queue's memory, or the caller's buffer.
pub data Taken : Type 0 where
  invalid : Taken
  range : Taken
  inside : ℕ → Taken
  buffer : Taken

abbrev pub Take : Type 0
Take = Taken × Option Bytes × Queue

-- `if (data) memcpy(data, base, len);`
abbrev pub copy_if : Queue → (addr len : ℕ) → Option Bytes → Run (Option Bytes)
copy_if q addr len none = done none
copy_if q addr len (some d) = do d' ← copy_out q.max q.bytes addr d 0 len; done (some d')

-- The copy of the two segments into the caller's buffer.
abbrev shift_parts : Queue → (low len : ℕ) → Option Bytes → Run Take
shift_parts q low len none = done (invalid, none, q)
shift_parts q low len (some d) = if ltb q.len len then done (range, some d, q) else (do
  d' ← copy_out q.max q.bytes q.off d 0 low
  d'' ← copy_out q.max q.bytes 0 d' low (len - low)
  done (buffer, some d'', (crop_front q len).1))

-- `mpt_qshift`
unfoldable pub qshift : Queue → ℕ → Option Bytes → Run Take
unfolding crop_front
qshift q len d =
    let low = data_low q in
    if leb len low
    then (do d' ← copy_if q q.off len d; done (inside q.off, d', (crop_front q len).1))
    else shift_parts q low len d

-- The case of `mpt_qpop` for more bytes than the second segment holds: `len` is what is left.
abbrev pop_parts : Queue → (low high len : ℕ) → Option Bytes → Run Take
pop_parts q low high len none = done (invalid, none, q)
pop_parts q low high len (some d) = if ltb low len then done (range, some d, q) else (do
  d' ← copy_out q.max q.bytes (q.max - len) d 0 high
  d'' ← copy_out q.max q.bytes 0 d' len high
  done (buffer, some d'', record q { len = q.len - len }))

-- `mpt_qpop`
unfoldable pub qpop : Queue → ℕ → Option Bytes → Run Take
qpop q len d =
    let low = data_low q in
    let high = q.len - low in
    if high == 0
    then (if ltb low len then done (range, d, q) else (do
      d' ← copy_if q q.off len d
      done (inside q.off, d', record q { len = q.len - len })))
    else if ltb high len
    then pop_parts q low high (len - high) d
    else (do
      d' ← copy_if q (high - len) len d
      done (inside (high - len), d', record q { len = q.len - len }))
