-- ===== src/Util/Buffers.antt =====
-- util.go: filling and reversing buffers.
pub mod Reversed
use mulsigo.Prelude.{
  ℕ, zero, suc, ◌+◌, ◌-◌, Bool, true, false, not, Option, none, some, List, [], ◌∷◌, Bytes, length,
  set, get_elem?, ◌==◌, if◌then◌else◌, nat_eq,
}

pub data Error : Type 0 where
  read_error : ℕ → Error
  short_read : ℕ → Error
  different_sizes : Error

-- What a `Read` into a buffer gives: the count, and the error.
abbrev pub ReadResult : Type 0
ReadResult = ℕ × Option ℕ

-- `fillBuff` on a buffer of `len` bytes.
unfoldable pub fill_buff : (ℕ → ReadResult) → ℕ → Option Error
fill_buff fn len =
    let (n, e) = fn len in
    elim e [
      | some x ↦ some (read_error x)
      | none ↦ if n == len then none else some (short_read len)
    ]

-- `randomBytes`: `none` is a nil reader.
unfoldable pub random_bytes : (ℕ → ReadResult) → Option (ℕ → ReadResult) → ℕ → Option Error
unfolding fill_buff
random_bytes rand_read none len = fill_buff rand_read len
random_bytes rand_read (some read) len = fill_buff read len

unfoldable pub nth : Bytes → ℕ → ℕ
nth xs i = elim (get_elem? xs i) [ none ↦ 0 | some x ↦ x ]

-- The loop of `reverse` with `left` rounds to go, so that `n - i - 1` is `left - 1`. `same` says that
-- both slices are the one buffer `dst`.
unfoldable pub reverse_loop : Bool → ℕ → ℕ → Bytes → Bytes → Bytes
unfolding nth
reverse_loop same zero i src dst = dst
reverse_loop same (suc left) i src dst =
    reverse_loop same left (i + 1) src (set dst left (nth (if same then dst else src) i))

-- `reverse`: the buffer `dst` after it.
unfoldable pub reverse_buffer : Bool → Bytes → Bytes → Bytes × Option Error
unfolding reverse_loop
reverse_buffer same src dst =
    if length src == length dst
    then (reverse_loop same (length src) 0 src dst, none)
    else (dst, some different_sizes)
