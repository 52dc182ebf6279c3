-- ===== src/Puppet/Tests.antt =====
-- A puppet that writes one key, and the nameservers of its network.
use siplane.Base.{
  ℕ, String, ◌≡◌, refl, inl, inr, true, false, [], ◌∷◌, ◌==◌, if◌then◌else◌, Bool-cases,
}
use Prim.Native.Char.{Char}
use siplane.Base.Split.{split, lacks}
use siplane.Puppet.Network.{is_empty, nameserver_str, nameservers_round_trip}

-- any printing of addresses will do
abbrev print : ℕ → String
print n = if n == 1 then "1.1.1.1" else "8.8.8.8"

abbrev bar : Char
bar = "|"

print-lacks : (m : ℕ) → lacks bar (print m) ≡ true
print-lacks m = elim (Bool-cases (m == 1)) [ inl e ↦ rw e refl | inr e ↦ rw e refl ]

print-is_full : (m : ℕ) → is_empty (print m) ≡ false
print-is_full m = elim (Bool-cases (m == 1)) [ inl e ↦ rw e refl | inr e ↦ rw e refl ]

nameservers_round_trip_example :
    split bar (nameserver_str print (1 ∷ 8 ∷ [])) ≡ "1.1.1.1" ∷ "8.8.8.8" ∷ []
nameservers_round_trip_example = nameservers_round_trip print 1 (8 ∷ []) print-is_full print-lacks
