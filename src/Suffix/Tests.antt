-- ===== src/Suffix/Tests.antt =====
-- The registry boundary and the coverage rule at concrete names.
use sni_gate.Prelude.{
  ◌≡◌, refl, ◌↔◌, true, false, [], ◌∷◌, ◌++◌, none, some, Any, if◌then◌else◌, ok, err,
}
use sni_gate.Text.{Text, codes, text_eq, split_last, to_ascii_lowercase, trim_end_dots}
use sni_gate.Ip.{is_ip_addr}
use sni_gate.Router.Walk.{IsDomainOf}
use sni_gate.Suffix.{
  PublicSuffix, SuffixList, icann, private, wildcard_is_mintable, host_covered_by,
  replace_from_bytes, parsing, sanity_check,
}
use sni_gate.Suffix.Mintable.{wildcard_is_mintable_iff}
use sni_gate.Suffix.Boundary.{
  IsRegistrable, parent_name, wildcard_is_mintable-IsRegistrable, wildcard_is_mintable-suffix,
}
use sni_gate.Suffix.Coverage.{Covers, host_covered_by_iff}

-- A stand-in for the crate: the last label is a registry suffix, and `github.io` a private one.
abbrev pub last_label : PublicSuffix
unfolding split_last
last_label = record {
  parses = λ bytes. if text_eq bytes [] then false else true;
  suffix = λ list name.
      if text_eq name (codes "github.io")
      then some (name, some private)
      else some (split_last b'.' name, some icann);
  domain = λ list name. if text_eq list (codes "old") then none else some name;
}

abbrev pub a_list : SuffixList
a_list = record { list = codes "new" }

mintable_tests :
    (wildcard_is_mintable last_label a_list (codes "Example.com.") ≡ true)
    × (wildcard_is_mintable last_label a_list (codes "com") ≡ false)
    × (wildcard_is_mintable last_label a_list (codes "github.io") ≡ true)
    × (wildcard_is_mintable last_label a_list (codes "127.0.0.1") ≡ false)
unfolding wildcard_is_mintable split_last
mintable_tests = (refl, refl, refl, refl)

replace_tests :
    (replace_from_bytes last_label a_list [] ≡ (a_list, err parsing))
    × (replace_from_bytes last_label a_list (codes "old") ≡ (a_list, err sanity_check))
    × (replace_from_bytes last_label a_list (codes "b") ≡ (record { list = codes "b" }, ok tt))
unfolding replace_from_bytes split_last
replace_tests = (refl, refl, refl)

coverage_tests :
    (host_covered_by (codes "*.example.com" ∷ []) (codes "a.example.com") ≡ true)
    × (host_covered_by (codes "*.example.com" ∷ []) (codes "example.com") ≡ false)
    × (host_covered_by (codes "*.example.com" ∷ []) (codes ".example.com") ≡ false)
    × (host_covered_by (codes "*" ∷ []) (codes "example.com") ≡ false)
unfolding host_covered_by
coverage_tests = (refl, refl, refl, refl)

host_covered_by_iff_example :
    (host_covered_by (codes "*.example.com" ∷ []) (codes "a.example.com") ≡ true)
    ↔ Any (Covers (codes "a.example.com")) (codes "*.example.com" ∷ [])
host_covered_by_iff_example =
    host_covered_by_iff (codes "*.example.com" ∷ []) (codes "a.example.com")

wildcard_is_mintable-IsRegistrable_example :
    (is_ip_addr (codes "www.github.io") ≡ false)
    × ((d : Text) × IsRegistrable last_label a_list.list (parent_name (codes "www.github.io")) d
        × IsDomainOf d (parent_name (codes "www.github.io"))
        × ((l : Text) → IsDomainOf d (l ++ b'.' ∷ parent_name (codes "www.github.io"))))
unfolding wildcard_is_mintable split_last
wildcard_is_mintable-IsRegistrable_example =
    wildcard_is_mintable-IsRegistrable last_label a_list (codes "www.github.io") refl

wildcard_is_mintable_iff_example :
    (wildcard_is_mintable last_label a_list (codes "github.io") ≡ true) ↔ (
      (is_ip_addr (codes "github.io") ≡ false)
      × ((d : Text) × IsRegistrable last_label a_list.list (parent_name (codes "github.io")) d
          × IsDomainOf d (parent_name (codes "github.io"))))
wildcard_is_mintable_iff_example = wildcard_is_mintable_iff last_label a_list (codes "github.io")

wildcard_is_mintable-suffix_example : wildcard_is_mintable last_label a_list (codes "COM.") ≡ false
unfolding split_last to_ascii_lowercase trim_end_dots
wildcard_is_mintable-suffix_example =
    wildcard_is_mintable-suffix last_label a_list (codes "COM.") (some icann) refl refl
