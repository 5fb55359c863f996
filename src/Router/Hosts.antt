-- ===== src/Router/Hosts.antt =====
-- Host names that `normalize` of src/router.rs leaves as they are.
use mathlib.Core.Bool.{and-eq-true_iff}
use sni_gate.Prelude.{
  Bool, ◌&&◌, not, all, ◌==◌, true, ℕ, ◌≡◌, refl, ◌≢◌, false, [], ◌∷◌, ◌++◌, arith, All,
  All-append_right,
}
use sni_gate.Text.{Text, is_space, lower}
use sni_gate.Text.Parts.{Lacks}
use sni_gate.Text.Trimming.{
  NoEndDot, trim_of_Fails, trim_end_dots_of_NoEndDot, split_first_of_Lacks,
  to_ascii_lowercase_of_All,
}
use sni_gate.Router.Names.{normalize, cut_port}

-- Not white space, not an upper-case ASCII letter, and not one of `:` and `[`.
pub record IsPlain (c : ℕ) : Type 0 where
  pub no_space : is_space c ≡ false
  pub no_upper : lower c ≡ c
  pub no_colon : c ≢ b':'
  pub no_bracket : c ≢ b'['

-- A host name as the router stores and compares it.
pub record IsHost (h : Text) : Type 0 where
  pub present : h ≢ []
  pub plain : All IsPlain h
  pub end : NoEndDot h

-- One label of a host name.
abbrev pub IsLabel : Text → Type 0
IsLabel l = (l ≢ []) × Lacks b'.' l

pub All-map {ℓ κ} :
    {P : ℕ → Type ℓ} {Q : ℕ → Type κ} → ((c : ℕ) → P c → Q c) → (s : Text) → All P s → All Q s
All-map f [] h = tt
All-map f (c ∷ s) h = (f c h.0, All-map f s h.1)

pub cut_port_of_plain : (h : Text) → All IsPlain h → cut_port h ≡ h
unfolding cut_port
cut_port_of_plain [] p = refl
cut_port_of_plain (c ∷ h) p = ground (
  arith,
  p.0.no_bracket,
  split_first_of_Lacks b':' (c ∷ h) (All-map (λ _ q. q.no_colon) (c ∷ h) p),
)

pub normalize_of_IsHost : (h : Text) → IsHost h → normalize h ≡ h
unfolding normalize
normalize_of_IsHost h i = rw (
  trim_of_Fails h (All-map (λ _ q. q.no_space) h i.plain),
  cut_port_of_plain h i.plain,
  trim_end_dots_of_NoEndDot h i.end,
  to_ascii_lowercase_of_All h (All-map (λ _ q. q.no_upper) h i.plain),
)

NoEndDot-append : (s : Text) (c : ℕ) (t : Text) → NoEndDot (s ++ c ∷ t) → NoEndDot (c ∷ t)
NoEndDot-append [] c t h = h
NoEndDot-append (d ∷ []) c t h = h
NoEndDot-append (d ∷ e ∷ s) c t h = NoEndDot-append (e ∷ s) c t h

IsHost-tail : (p : Text) → NoEndDot (b'.' ∷ p) → All IsPlain p → IsHost p
IsHost-tail [] e a = absurd (e refl)
IsHost-tail (c ∷ p) e a = record { present = λ k. cc; plain = a; end = e }

-- What stands behind a dot of a host name is a host name.
pub IsHost-parent : (l p : Text) → IsHost (l ++ b'.' ∷ p) → IsHost p
IsHost-parent l p i =
    IsHost-tail p (NoEndDot-append l b'.' p i.end) (All-append_right IsPlain l (b'.' ∷ p) i.plain).1

plain_char : ℕ → Bool
unfolding is_space lower
plain_char c = not (is_space c) && lower c == c && not (c == b':') && not (c == b'[')

no_end_dot : Text → Bool
no_end_dot [] = true
no_end_dot (c ∷ []) = not (c == b'.')
no_end_dot (c ∷ d ∷ s) = no_end_dot (d ∷ s)

-- A test for `IsHost`.
unfoldable pub is_host : Text → Bool
unfolding plain_char no_end_dot
is_host [] = false
is_host (c ∷ h) = all plain_char (c ∷ h) && no_end_dot (c ∷ h)

plain_char_sound : (c : ℕ) → plain_char c ≡ true → IsPlain c
unfolding plain_char
plain_char_sound c h = record {
  no_space = ground arith;
  no_upper = ground arith;
  no_colon = ground arith;
  no_bracket = ground arith;
}

all_chars_sound : (h : Text) → all plain_char h ≡ true → All IsPlain h
all_chars_sound [] e = tt
all_chars_sound (c ∷ h) e =
    let (here, rest) = (and-eq-true_iff _ _).0 e in
    (plain_char_sound c here, all_chars_sound h rest)

no_end_dot_sound : (h : Text) → no_end_dot h ≡ true → NoEndDot h
unfolding no_end_dot
no_end_dot_sound [] e = tt
no_end_dot_sound (c ∷ []) e = ground arith
no_end_dot_sound (c ∷ d ∷ h) e = no_end_dot_sound (d ∷ h) e

pub is_host-IsHost : (h : Text) → is_host h ≡ true → IsHost h
unfolding is_host
is_host-IsHost [] e = cc
is_host-IsHost (c ∷ h) e =
    let (plain, end) = (and-eq-true_iff _ _).0 e in
    record {
      present = λ k. cc;
      plain = all_chars_sound (c ∷ h) plain;
      end = no_end_dot_sound (c ∷ h) end;
    }
