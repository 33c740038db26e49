-- ===== src/Message/Get.antt =====
-- mptcore/message/message_get.c: a part of a queue's data as a message.
mod Tests
use mpt_base.Prelude.{
  ℕ, suc, ◌+◌, ◌-◌, ◌<◌, ◌≤◌, ◌≡◌, refl, Bool, true, ltb, leb, if◌then◌else◌, Option, none, some,
  Result, ok, err, bad_argument, bad_value, bad_type, arith, Bool-cases, inl, inr,
}
use mpt_base.Queue.{Queue, data_low}
use mpt_base.Queue.Contents.{IsValid, address}

-- `msg->base` and `msg->used`, with the length of the part at the start of the memory, which
-- `vec` gets, if there is one.
pub record Got : Type 0 where
  pub base : ℕ
  pub used : ℕ
  pub upper : Option ℕ

abbrev pick : (base low high take : ℕ) → Bool → Result Got
pick base low high take has_vec =
    if ltb (low + high) take
    then err bad_value
    else if leb take low
    then ok (record { base = base; used = take; upper = none })
    else if has_vec
    then ok (record { base = base; used = low; upper = some (take - low) })
    else err bad_type

-- `mpt_message_get`; its results -1, -2 and -3 are the values of the errors.
unfoldable pub message_get : Queue → (off take : ℕ) → (has_vec : Bool) → Result Got
message_get q off take has_vec =
    let low = data_low q in
    let high = q.len - low in
    if ltb off low
    then pick (q.off + off) (low - off) high take has_vec
    else if ltb high (off - low)
    then err bad_argument
    else pick (off - low) (high - (off - low)) 0 take has_vec

-- The address of byte `i` of a message.
abbrev pub got_address : Got → ℕ → ℕ
got_address g i = if ltb i g.used then g.base + i else i - g.used

abbrev pub got_length : Got → ℕ
got_length g = elim g.upper [ none ↦ g.used | some n ↦ g.used + n ]

-- What a call gives for bytes that the queue has.
pub record Gets (q : Queue) (off take : ℕ) (r : Result Got) : Type 0 where
  pub got : Got
  pub is : r ≡ ok got
  pub size : got_length got ≡ take
  pub bytes : (i : ℕ) → i < take → got_address got i ≡ address q (off + i)

-- `mpt_message_get` of bytes that a valid queue has, with room for a second part, gives exactly
-- these bytes in their order.
pub message_get_lem :
    (q : Queue) (off take : ℕ)
    → IsValid q
    → off + take ≤ q.len
    → Gets q off take (message_get q off take true)
unfolding message_get
message_get_lem q off take v h = elim (Bool-cases (ltb off (data_low q))) [
  | inl e ↦ elim (Bool-cases (leb take (data_low q - off))) [
    | inl k ↦ record {
      got = record { base = q.off + off; used = take; upper = none };
      is = ground (arith, v.small, v.off_in, v.len_in);
      size = refl;
      bytes = λ i l. ground (arith, v.small, v.off_in, v.len_in);
    }
    | inr k ↦ record {
      got = record {
        base = q.off + off;
        used = data_low q - off;
        upper = some (take - (data_low q - off));
      };
      is = ground (arith, v.small, v.off_in, v.len_in);
      size = ground arith;
      bytes = λ i l. ground (arith, v.small, v.off_in, v.len_in);
    }
  ]
  | inr e ↦ record {
    got = record { base = off - data_low q; used = take; upper = none };
    is = ground (arith, v.small, v.off_in, v.len_in);
    size = refl;
    bytes = λ i l. ground (arith, v.small, v.off_in, v.len_in);
  }
]
