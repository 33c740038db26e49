-- ===== src/Config/Path.antt =====
-- mptcore/config/path_set.c, path_next.c and path_last.c: a path over text that is separated by a
-- character, or over binary elements between their lengths.
pub mod Split
pub mod Next
pub mod Set
pub mod Last
mod Tests
use Prim.Native.Nat.{bit_and}
use mpt_base.Prelude.{
  ℕ, zero, suc, ◌+◌, ◌-◌, ◌^◌, ◌%◌, Bool, true, false, not, ◌||◌, Option, none, some, ◌==◌, ltb,
  if◌then◌else◌, leb, Result, err, missing_data, bad_argument, bad_value, Run, done, fault,
}
use mpt_base.Prelude.Int.{as_int}
use mpt_base.Prelude.Mem.{Bytes, sub_size}

-- `MPT_STRUCT(path)`
pub record ElementPath : Type 0 where
  pub base : Option Bytes
  pub off : ℕ
  pub len : ℕ
  pub first : ℕ
  pub flags : ℕ
  pub sep : ℕ
  pub assign : ℕ

-- `path->flags & MPT_PATHFLAG(SepBinary)`
abbrev pub is_binary : ElementPath → Bool
is_binary p = not (bit_and p.flags 128 == 0)

-- `memchr`: the first place of a byte among `n` from the address `a`.
unfoldable pub memchr : Bytes → (a c n : ℕ) → Option ℕ
memchr m a c zero = none
memchr m a c (suc n) =
    let rest = memchr m (a + 1) c n in
    if m a == c then some 0 else elim rest [ none ↦ none | some k ↦ some (k + 1) ]

-- `path->off += skip; path->len -= skip; return len;`, where the result is an `int`.
abbrev pub consume : ElementPath → (skip len : ℕ) → ElementPath × Result ℕ
consume p skip len =
    (record p { off = (p.off + skip) % 2 ^ 64; len = sub_size p.len skip }, as_int len)

-- `mpt_path_next`
unfoldable pub path_next : ElementPath → ElementPath × Result ℕ
path_next p = if p.len == 0 then (p, err missing_data) else elim p.base [
  | none ↦ (p, err bad_argument)
  | some m ↦
      if is_binary p
      then consume (record p { first = m (p.off + (p.first + 1)) }) (p.first + 2) p.first
      else if not (p.first == 0)
      then consume (record p { first = 0 }) (p.first + 1) p.first
      else elim (memchr m p.off p.sep (p.len - 1)) [
        | some k ↦ consume p (k + 1) k
        | none ↦ consume p p.len (p.len - 1)
      ]
]

-- The loop's variables: the characters read, the length of the first part, the count and `add`.
pub record Scan : Type 0 where
  pub plen : ℕ
  pub first : ℕ
  pub count : ℕ
  pub add : ℕ

-- `while (plen < vlen)`: the characters before `plen` are read and `n` are to come.
unfoldable pub scan_text : (m : Bytes) (sep assign plen first count n : ℕ) → Scan
scan_text m sep assign plen first count zero = record {
  plen = plen;
  first = first;
  count = count;
  add = 1;
}
scan_text m sep assign plen first count (suc n) =
    let part =
      scan_text m sep assign (plen + 1) (if count == 0 then plen else first) (count + 1) n in
    let inside = scan_text m sep assign (plen + 1) first count n in
    if m plen == assign
    then record { plen = plen + 1; first = first; count = count + 1; add = 0 }
    else if m plen == sep
    then part
    else inside

-- `mpt_path_set`; a negative length is `none`, and `text` is what `strlen` returns for it. The count
-- is an `int`, and to count further is undefined.
unfoldable pub path_set :
    ElementPath → Option Bytes → (len : Option ℕ) (text : ℕ) → Run (ElementPath × ℕ)
path_set p none len text =
    done (record p { base = none; off = 0; len = 0; first = 0; flags = 0 }, 0)
path_set p (some m) len text =
    let vlen : ℕ = elim len [ none ↦ text + 1 | some n ↦ n ] in
    let scanned = scan_text m p.sep p.assign 0 0 0 vlen in
    let first = scanned.first in
    if leb (2 ^ 31) scanned.count
    then fault
    else done (
      record p {
        base = some m;
        off = 0;
        len = scanned.plen + scanned.add;
        first = if ltb 255 first then 0 else first;
        flags = 0;
      },
      scanned.count,
    )

-- `while (pos && *data != path->sep)`: the place and the length of the last element.
unfoldable pub scan_back : (m : Bytes) (sep pos len : ℕ) → ℕ × ℕ
scan_back m sep zero len = (0, len)
scan_back m sep (suc k) len =
    let rest = scan_back m sep k (len + 1) in if m k == sep then (suc k, len) else rest

-- A `char` as a `size_t`.
abbrev pub char_size : ℕ → ℕ
char_size c = if ltb c 128 then c else c + (2 ^ 64 - 256)

-- `mpt_path_last`: it reads from the path's base, without its offset.
unfoldable pub path_last : ElementPath → ElementPath × Result ℕ
path_last p = if p.len == 0 then (p, err bad_value) else elim p.base [
  | none ↦ (p, err bad_value)
  | some m ↦
      if is_binary p
      then (let len = char_size (m (p.len - 2)) in
          if ltb p.len 2 || ltb p.len len then (p, err bad_value) else (
            record p {
              off = (p.off + (p.len - len)) % 2 ^ 64;
              len = len % 256 + 2;
              first = len % 256;
            },
            as_int len,
          ))
      else (let found = scan_back m p.sep (p.len - 1) 0 in
          (
            record p {
              off = (p.off + found.0) % 2 ^ 64;
              len = found.1 % 256 + 1;
              first = found.1 % 256;
            },
            as_int found.1,
          ))
]
