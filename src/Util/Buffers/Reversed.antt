-- ===== src/Util/Buffers/Reversed.antt =====
-- util.go: what `reverse` leaves in its second buffer.
use mulsigo.Prelude.{
  ℕ, zero, suc, ◌+◌, ◌-◌, ◌≤◌, ◌<◌, ◌≡◌, ◌≢◌, ◌⊎◌, inl, inr, refl, Bool, true, false, none, [], ◌∷◌,
  Bytes, length, set, if◌then◌else◌, nat_eq, arith, ap, ◌∙◌,
}
use Prim.Native.Nat.{min}
use mulsigo.Util.Buffers.{nth, reverse_loop, reverse_buffer}

length-set : (xs : Bytes) (i v : ℕ) → length (set xs i v) ≡ length xs
length-set [] i v = refl
length-set (x ∷ xs) zero v = refl
length-set (x ∷ xs) (suc i) v = ap suc (length-set xs i v)

nth_written : (xs : Bytes) (i v : ℕ) → i < length xs → nth (set xs i v) i ≡ v
unfolding nth
nth_written [] i v h = absurd (omega arith)
nth_written (x ∷ xs) zero v h = refl
nth_written (x ∷ xs) (suc i) v h = nth_written xs i v (omega arith)

nth_other : (xs : Bytes) (i v j : ℕ) → i ≢ j → nth (set xs i v) j ≡ nth xs j
unfolding nth
nth_other [] i v j h = refl
nth_other (x ∷ xs) zero v zero h = absurd (h refl)
nth_other (x ∷ xs) zero v (suc j) h = refl
nth_other (x ∷ xs) (suc i) v zero h = refl
nth_other (x ∷ xs) (suc i) v (suc j) h = nth_other xs i v j (λ e. h (ap suc e))

<-or-≡ : (m n : ℕ) → m ≤ n → (m < n) ⊎ (m ≡ n)
<-or-≡ m n h = ground arith

<-or-≥ : (m n : ℕ) → (m < n) ⊎ (n ≤ m)
<-or-≥ m n = ground arith

later : (j i p : ℕ) → (j < i) ⊎ (p ≤ j) → (j < i + 1) ⊎ (p ≤ j)
later j i p (inl h) = inl (omega arith)
later j i p (inr h) = inr h

length-reverse_loop :
    (same : Bool) (left i : ℕ) (src dst : Bytes)
    → length (reverse_loop same left i src dst) ≡ length dst
unfolding reverse_loop
length-reverse_loop same zero i src dst = refl
length-reverse_loop same (suc left) i src dst =
    let v = nth (if same then dst else src) i in
    length-reverse_loop same left (i + 1) src (set dst left v) ∙ length-set dst left v

-- The part of the buffer that the loop does not reach any more.
loop_leaves :
    (same : Bool) (left i : ℕ) (src dst : Bytes) (j : ℕ)
    → left ≤ j
    → nth (reverse_loop same left i src dst) j ≡ nth dst j
unfolding reverse_loop
loop_leaves same zero i src dst j h = refl
loop_leaves same (suc left) i src dst j h =
    let v = nth (if same then dst else src) i in
    loop_leaves same left (i + 1) src (set dst left v) j (omega arith)
    ∙ nth_other dst left v j (omega arith)

-- The round that writes at `left`.
loop_writes :
    (same : Bool) (left i : ℕ) (src dst : Bytes)
    → left < length dst
    → nth (reverse_loop same (suc left) i src dst) left ≡ nth (if same then dst else src) i
unfolding reverse_loop
loop_writes same left i src dst h =
    let v = nth (if same then dst else src) i in
    loop_leaves same left (i + 1) src (set dst left v) left (omega arith) ∙ nth_written dst left v h

distinct_loop :
    (left i : ℕ) (src dst : Bytes) (j p : ℕ)
    → left ≤ length dst
    → p + j + 1 ≡ i + left
    → j < left
    → nth (reverse_loop false left i src dst) j ≡ nth src p
unfolding reverse_loop
distinct_loop zero i src dst j p h e k = absurd (omega arith)
distinct_loop (suc left) i src dst j p h e k = elim (<-or-≡ j left (omega arith)) [
  | inl before ↦
      distinct_loop left (i + 1) src (set dst left (nth src i)) j p
        (omega (arith, length-set dst left (nth src i))) (omega arith) before
  | inr here ↦
      let at : p ≡ i = omega arith in rw (here, at) (loop_writes false left i src dst (omega arith))
]

-- Within one buffer: a place that takes the byte from `p`, which is not written before it is read.
moved_loop :
    (left i : ℕ) (src dst : Bytes) (j p : ℕ)
    → left ≤ length dst
    → p + j + 1 ≡ i + left
    → j < left
    → (j < i) ⊎ (p ≤ j)
    → nth (reverse_loop true left i src dst) j ≡ nth dst p
unfolding reverse_loop
moved_loop zero i src dst j p h e k c = absurd (omega arith)
moved_loop (suc left) i src dst j p h e k c = elim (<-or-≡ j left (omega arith)) [
  | inl before ↦
      moved_loop left (i + 1) src (set dst left (nth dst i)) j p
        (omega (arith, length-set dst left (nth dst i))) (omega arith) before (later j i p c)
      ∙ nth_other dst left (nth dst i) p (omega (arith, c))
  | inr here ↦
      let at : p ≡ i = omega arith in rw (here, at) (loop_writes true left i src dst (omega arith))
]

-- A place in the first half: it keeps its byte.
kept_loop :
    (left i : ℕ) (src dst : Bytes) (j p : ℕ)
    → left ≤ length dst
    → p + j + 1 ≡ i + left
    → i ≤ j
    → j < p
    → nth (reverse_loop true left i src dst) j ≡ nth dst j
unfolding reverse_loop
kept_loop zero i src dst j p h e k c = absurd (omega arith)
kept_loop (suc left) i src dst j p h e k c = elim (<-or-≡ i j k) [
  | inl later_on ↦
      kept_loop left (i + 1) src (set dst left (nth dst i)) j p
        (omega (arith, length-set dst left (nth dst i))) (omega arith) (omega arith) c
      ∙ nth_other dst left (nth dst i) j (omega arith)
  | inr now ↦
      let at : p ≡ left = omega arith in
      moved_loop left (i + 1) src (set dst left (nth dst i)) j p
        (omega (arith, length-set dst left (nth dst i))) (omega arith) (omega arith)
        (inl (omega arith))
      ∙ rw (at, now) (nth_written dst left (nth dst j) (omega arith))
]

-- Between two buffers of one length `reverse` leaves the bytes of the first in reverse order in the
-- second. Within one buffer it keeps the first half and mirrors it into the second, so that it
-- reverses the buffer only if that reads the same both ways.
reverse_buffer_lem :
    (src dst : Bytes) (j : ℕ)
    → length src ≡ length dst
    → j < length src
    → let out = reverse_buffer false src dst in
      let inside = reverse_buffer true src src in
      (out.1 ≡ none)
      × (length out.0 ≡ length src)
      × (nth out.0 j ≡ nth src (length src - 1 - j))
      × (inside.1 ≡ none)
      × (nth inside.0 j ≡ nth src (min j (length src - 1 - j)))
unfolding reverse_buffer
reverse_buffer_lem src dst j h k = (
  ground arith,
  ground (arith, length-reverse_loop false (length src) 0 src dst),
  ground (arith, distinct_loop (length src) 0 src dst j (length src - 1 - j)),
  ground arith,
  elim (<-or-≥ j (length src - 1 - j)) [
    | inl low ↦ ground (arith, kept_loop (length src) 0 src src j (length src - 1 - j))
    | inr high ↦
        ground (arith, moved_loop (length src) 0 src src j (length src - 1 - j) _ _ _ (inr high))
  ],
)
