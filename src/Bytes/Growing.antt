-- ===== src/Bytes/Growing.antt =====
-- Byte strings that grow: what has been read at a place stays there.
use sni_gate.Prelude.{
  leb-true, leb_of_le, ℕ, zero, suc, ◌+◌, ◌≤◌, ◌≡◌, refl, inl, inr, true, [], ◌∷◌, ◌++◌, some,
  arith, leb, length, take-append, length-append, get_elem?, drop, Bool-cases,
}
use sni_gate.Bytes.{Bytes, slice}

pub get_elem?-append :
    (b more : Bytes) (i : ℕ) {x : ℕ} → get_elem? b i ≡ some x → get_elem? (b ++ more) i ≡ some x
get_elem?-append [] more i h = cc
get_elem?-append (y ∷ b) more zero h = h
get_elem?-append (y ∷ b) more (suc i) h = get_elem?-append b more i h

drop-append : (p : ℕ) (b more : Bytes) → p ≤ length b → drop p (b ++ more) ≡ drop p b ++ more
drop-append zero b more le = refl
drop-append (suc p) [] more le = absurd (omega arith)
drop-append (suc p) (x ∷ b) more le = drop-append p b more (omega arith)

length-drop : (p : ℕ) (b : Bytes) → p ≤ length b → p + length (drop p b) ≡ length b
length-drop zero b le = omega arith
length-drop (suc p) [] le = absurd (omega arith)
length-drop (suc p) (x ∷ b) le = omega (arith, length-drop p b (omega arith))

pub length-le : (b more : Bytes) → length b ≤ length (b ++ more)
length-le b more = omega (arith, length-append {0} b more)

pub slice-append :
    (b more : Bytes) (p len : ℕ) {s : Bytes}
    → slice b p len ≡ some s
    → slice (b ++ more) p len ≡ some s
slice-append b more p len h = elim (Bool-cases (leb (p + len) (length b))) [
  | inr out ↦ cc (rw out at h)
  | inl fits ↦
      rw
        (
          longer fits,
          drop-append p b more (omega (arith, le fits)),
          take-append {0} len (drop p b) more
              (omega (arith, le fits, length-drop p b (omega (arith, le fits)))),
        )
        (rw fits at h)
]
  where
    le : leb (p + len) (length b) ≡ true → p + len ≤ length b
    le e = leb-true (p + len) (length b) e

    longer : leb (p + len) (length b) ≡ true → leb (p + len) (length (b ++ more)) ≡ true
    longer e = leb_of_le (p + len) (length (b ++ more)) (omega (arith, le e, length-le b more))
