-- ===== src/Pgp/Batch.antt =====
-- old/pgp/keys.go: what the batch file says of a key.
use mulsigo.Prelude.{◌≡◌, ◌≢◌, refl, [], ◌∷◌, ◌++◌, Bytes, All, arith}
use mulsigo.Pgp.{
  GpgKeyInfo, no_protection, key_type, key_curve, name_real, name_comment, name_email, batch,
}

-- A text without the end of a line.
abbrev pub IsLine : Bytes → Type 0
IsLine = All (λ c. c ≢ b'\n')

-- Two texts of one line each are the same if the lines begin the same text.
lines_split :
    (xs ys : Bytes) {us vs : Bytes}
    → IsLine xs
    → IsLine ys
    → (xs ++ b'\n' ∷ us) ≡ (ys ++ b'\n' ∷ vs)
    → (xs ≡ ys) × (us ≡ vs)
lines_split [] [] hx hy e = (refl, cc)
lines_split [] (y ∷ ys) hx hy e = absurd (hy.0 (cc))
lines_split (x ∷ xs) [] hx hy e = absurd (hx.0 (cc))
lines_split (x ∷ xs) (y ∷ ys) {us} {vs} hx hy e =
    let (p, q) = lines_split xs ys {us = us} {vs = vs} hx.1 hy.1 (cc) in (cc, q)

append_cancel : (p : Bytes) {xs ys : Bytes} → (p ++ xs) ≡ (p ++ ys) → xs ≡ ys
append_cancel [] e = e
append_cancel (c ∷ p) {xs} {ys} e = append_cancel p {xs = xs} {ys = ys} (cc)

-- The batch file of a key whose name, comment and email are one line each determines all three.
batch_determines :
    (g h : GpgKeyInfo)
    → IsLine g.name
    → IsLine g.comment
    → IsLine g.email
    → IsLine h.name
    → IsLine h.comment
    → IsLine h.email
    → batch g ≡ batch h
    → g ≡ h
unfolding batch
batch_determines g h gn gc ge hn hc he e =
    let rest =
      append_cancel name_real
        (append_cancel key_curve (append_cancel key_type (append_cancel no_protection e))) in
    let (name, rest1) = lines_split g.name h.name gn hn rest in
    let (comment, rest2) =
      lines_split g.comment h.comment gc hc (append_cancel name_comment rest1) in
    let (email, rest3) = lines_split g.email h.email ge he (append_cancel name_email rest2) in
    ground (arith, name, comment, email)
