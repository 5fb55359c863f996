-- ===== src/Router/Matching/Spelling.antt =====
-- src/router.rs, `normalize`: the spellings of one host are routed alike.
use sni_gate.Prelude.{
  ℕ, zero, suc, ◌≡◌, refl, sym, ap, ◌∙◌, ◌≢◌, true, false, [], ◌∷◌, ◌++◌, arith, ◌==◌, All,
  All-append,
}
use mathlib.Core.List.{map-append}
use sni_gate.Text.{Text, is_space, lower, to_ascii_lowercase, trim_end_by, trim, trim_end_dots}
use sni_gate.Text.Casing.{
  to_ascii_lowercase_idempotent, trim-lowercase, trim_end_dots-lowercase, split_first-lowercase,
  starts_with-lowercase,
}
use sni_gate.Text.Trimming.{
  trim_of_Fails, trim_start_by-head, trim_end_by-keep, trim_end_by-drop, split_first-append,
  trim_end_dots_of_NoEndDot, to_ascii_lowercase_of_All,
}
use sni_gate.Router.Names.{normalize, cut_port}
use sni_gate.Router.Hosts.{IsPlain, IsHost, All-map, normalize_of_IsHost, cut_port_of_plain}
use sni_gate.Router.Build.{RegexEngine, Router}
use sni_gate.Router.Matching.{match_host, match_or_default}

cut_port-lowercase : (s : Text) → cut_port (to_ascii_lowercase s) ≡ to_ascii_lowercase (cut_port s)
unfolding cut_port
cut_port-lowercase s = ground (arith, starts_with-lowercase s, split_first-lowercase s)

-- Normalizing ignores the case of ASCII letters.
pub normalize-lowercase : (s : Text) → normalize (to_ascii_lowercase s) ≡ normalize s
unfolding normalize
normalize-lowercase s =
    rw (trim-lowercase s, cut_port-lowercase (trim s), trim_end_dots-lowercase (cut_port (trim s)))
      (to_ascii_lowercase_idempotent (trim_end_dots (cut_port (trim s))))

abbrev pub dots : ℕ → Text
dots zero = []
dots (suc n) = b'.' ∷ dots n

dots-dots : (n : ℕ) → All (λ c. (c == b'.') ≡ true) (dots n)
dots-dots zero = tt
dots-dots (suc n) = (refl, dots-dots n)

dot-IsPlain : IsPlain b'.'
unfolding is_space lower
dot-IsPlain = record {
  no_space = refl;
  no_upper = refl;
  no_colon = omega arith;
  no_bracket = omega arith;
}

dots-IsPlain : (n : ℕ) → All IsPlain (dots n)
dots-IsPlain zero = tt
dots-IsPlain (suc n) = (dot-IsPlain, dots-IsPlain n)

colon_no_space : is_space b':' ≡ false
unfolding is_space
colon_no_space = refl

trim-colon :
    (a port : Text)
    → a ≢ []
    → All IsPlain a
    → trim (a ++ b':' ∷ port) ≡ a ++ b':' ∷ trim_end_by is_space port
unfolding trim
trim-colon [] port p h = absurd (p refl)
trim-colon (c ∷ a) port p h = rw (trim_start_by-head is_space c (a ++ b':' ∷ port) h.0.no_space) (
    trim_end_by-keep is_space (c ∷ a) b':' port (All-map (λ _ q. q.no_space) (c ∷ a) h)
      colon_no_space)

cut_port-colon : (a port : Text) → a ≢ [] → All IsPlain a → cut_port (a ++ b':' ∷ port) ≡ a
unfolding cut_port
cut_port-colon [] port p h = absurd (p refl)
cut_port-colon (c ∷ a) port p h = ground (
  arith,
  h.0.no_bracket,
  split_first-append b':' (c ∷ a) port (All-map (λ _ q. q.no_colon) (c ∷ a) h),
)

trim_end_dots-drop : (s : Text) (n : ℕ) → trim_end_dots (s ++ dots n) ≡ trim_end_dots s
unfolding trim_end_dots
trim_end_dots-drop s n = trim_end_by-drop (λ c. c == b'.') s (dots n) (dots-dots n)

append-present : (h t : Text) → h ≢ [] → h ++ t ≢ []
append-present [] t p e = p refl
append-present (c ∷ h) t p e = cc

module _ (h : Text) (i : IsHost h) (n : ℕ) where
  IsPlain-dots : All IsPlain (h ++ dots n)
  IsPlain-dots = All-append IsPlain h (dots n) i.plain (dots-IsPlain n)

  without_dots : to_ascii_lowercase (trim_end_dots (h ++ dots n)) ≡ h
  without_dots =
      rw (trim_end_dots-drop h n, trim_end_dots_of_NoEndDot h i.end)
        (to_ascii_lowercase_of_All h (All-map (λ _ q. q.no_upper) h i.plain))

  normalize-dots : normalize (h ++ dots n) ≡ h
  unfolding normalize
  normalize-dots =
      rw
        (
          trim_of_Fails (h ++ dots n) (All-map (λ _ q. q.no_space) (h ++ dots n) IsPlain-dots),
          cut_port_of_plain (h ++ dots n) IsPlain-dots,
        )
        without_dots

  normalize-port : (port : Text) → normalize ((h ++ dots n) ++ b':' ∷ port) ≡ h
  unfolding normalize
  normalize-port port =
      let present = append-present h (dots n) i.present in
      rw
        (
          trim-colon (h ++ dots n) port present IsPlain-dots,
          cut_port-colon (h ++ dots n) (trim_end_by is_space port) present IsPlain-dots,
        )
        without_dots

dots-lowercase : (n : ℕ) → to_ascii_lowercase (dots n) ≡ dots n
dots-lowercase n =
    to_ascii_lowercase_of_All (dots n) (All-map (λ _ q. q.no_upper) (dots n) (dots-IsPlain n))

lowercase-append :
    (s t : Text) → to_ascii_lowercase (s ++ t) ≡ to_ascii_lowercase s ++ to_ascii_lowercase t
unfolding to_ascii_lowercase
lowercase-append s t = map-append lower s t

-- A host is routed like every spelling of it: letters of any case, any number of dots behind it,
-- and any port behind those.
pub match_host-spelling :
    (engine : RegexEngine) (r : Router) (s : Text) (n : ℕ) (port : Text)
    → IsHost (to_ascii_lowercase s)
    → (match_host engine r (s ++ dots n) ≡ match_host engine r (to_ascii_lowercase s))
      × (match_host engine r ((s ++ dots n) ++ b':' ∷ port)
          ≡ match_host engine r (to_ascii_lowercase s))
unfolding match_host
match_host-spelling engine r s n port i = (
  ap (match_or_default engine r) (spelt (s ++ dots n) dotted ∙ sym same),
  ap (match_or_default engine r) (spelt ((s ++ dots n) ++ b':' ∷ port) ported ∙ sym same),
)
  where
    h : Text
    h = to_ascii_lowercase s

    same : normalize h ≡ h
    same = normalize_of_IsHost h i

    spelt : (t : Text) → normalize (to_ascii_lowercase t) ≡ h → normalize t ≡ h
    spelt t e = sym (normalize-lowercase t) ∙ e

    dotted : normalize (to_ascii_lowercase (s ++ dots n)) ≡ h
    dotted = rw (lowercase-append s (dots n), dots-lowercase n) (normalize-dots h i n)

    ported : normalize (to_ascii_lowercase ((s ++ dots n) ++ b':' ∷ port)) ≡ h
    ported =
        rw
          (
            lowercase-append (s ++ dots n) (b':' ∷ port),
            lowercase-append s (dots n),
            dots-lowercase n,
          )
          (unfold to_ascii_lowercase lower in normalize-port h i n (to_ascii_lowercase port))
