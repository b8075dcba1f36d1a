-- ===== src/Client/Stream/Sublists.antt =====
-- Lists that are picked from a prefix of another, in order.
use mathlib.Core.List.{Sublistᴰ}
use mulsigo.Prelude.{ℕ, zero, suc, ◌≤◌, ◌≡◌, some, List, [], ◌∷◌, ◌++◌, get_elem?, arith, take}

pub single-sublist :
    {A : Type 0} (log : List A) (k : ℕ) {b : A}
    → get_elem? log k ≡ some b
    → Sublistᴰ (b ∷ []) (take (suc k) log)
single-sublist [] k h = cc
single-sublist (x ∷ xs) zero h = Sublistᴰ.cons-cons (ground arith) Sublistᴰ.slnil
single-sublist (x ∷ xs) (suc k) h = Sublistᴰ.cons (single-sublist xs k h)

pub extend-sublist :
    {A : Type 0} {ds l : List A}
    → Sublistᴰ ds l
    → (log : List A) (m k : ℕ) {b : A} → take m log ≡ l
    → m ≤ k
    → get_elem? log k ≡ some b
    → Sublistᴰ (ds ++ b ∷ []) (take (suc k) log)
extend-sublist Sublistᴰ.slnil log m k e h g = single-sublist log k g
extend-sublist (Sublistᴰ.cons d) [] m k e h g = cc
extend-sublist (Sublistᴰ.cons d) (x ∷ xs) zero k e h g = cc
extend-sublist (Sublistᴰ.cons d) (x ∷ xs) (suc m) zero e h g = elim h [ ]
extend-sublist (Sublistᴰ.cons d) (x ∷ xs) (suc m) (suc k) e h g =
    Sublistᴰ.cons (extend-sublist d xs m k (ground arith) (omega arith) g)
extend-sublist (Sublistᴰ.cons-cons q d) [] m k e h g = cc
extend-sublist (Sublistᴰ.cons-cons q d) (x ∷ xs) zero k e h g = cc
extend-sublist (Sublistᴰ.cons-cons q d) (x ∷ xs) (suc m) zero e h g = elim h [ ]
extend-sublist (Sublistᴰ.cons-cons q d) (x ∷ xs) (suc m) (suc k) e h g =
    Sublistᴰ.cons-cons (ground arith) (extend-sublist d xs m k (ground arith) (omega arith) g)

pub nil-sublist : {A : Type 0} (log : List A) → Sublistᴰ [] log
nil-sublist [] = Sublistᴰ.slnil
nil-sublist (x ∷ xs) = Sublistᴰ.cons (nil-sublist xs)

pub sublist_of_take :
    {A : Type 0} {ds l : List A} (k : ℕ) (log : List A)
    → Sublistᴰ ds l
    → take k log ≡ l
    → Sublistᴰ ds log
sublist_of_take k log Sublistᴰ.slnil e = nil-sublist log
sublist_of_take zero [] (Sublistᴰ.cons d) e = cc
sublist_of_take (suc k) [] (Sublistᴰ.cons d) e = cc
sublist_of_take zero (x ∷ xs) (Sublistᴰ.cons d) e = cc
sublist_of_take (suc k) (x ∷ xs) (Sublistᴰ.cons d) e =
    Sublistᴰ.cons (sublist_of_take k xs d (ground arith))
sublist_of_take zero [] (Sublistᴰ.cons-cons q d) e = cc
sublist_of_take (suc k) [] (Sublistᴰ.cons-cons q d) e = cc
sublist_of_take zero (x ∷ xs) (Sublistᴰ.cons-cons q d) e = cc
sublist_of_take (suc k) (x ∷ xs) (Sublistᴰ.cons-cons q d) e =
    Sublistᴰ.cons-cons (ground arith) (sublist_of_take k xs d (ground arith))
