-- ===== src/Puppet/Network.antt =====
-- The environment of the network configuration script of puppet/src/main.rs.
use siplane.Base.{
  ℕ, String, ◌≡◌, refl, ap, ◌∙◌, Bool, true, false, Option, none, some, List, [], ◌∷◌, ◌++◌, map,
  arith, if◌then◌else◌, All,
}
use Prim.Native.Char.{Char}
use Prim.Native.String as Text
use Prim.Native.String.append
use text.Mathlib.TextLemmas
use siplane.Base.Split.{split, join, lacks, join-merge, split-join}
use siplane.Api.Puppet.{NetworkConfig, Ipv4NetworkConfig, Ipv6NetworkConfig}

-- `Display` of the addresses and of the length of a prefix
pub record Printing : Type 0 where
  pub ipv4 : ℕ → String
  pub ipv6 : ℕ → String
  pub prefix_length : ℕ → String

abbrev pub is_empty : String → Bool
is_empty Text.[] = true
is_empty (Text.◌∷◌ c s) = false

-- the `fold` over the printed nameservers
pub fold_nameservers : (ℕ → String) → String → List ℕ → String
fold_nameservers print acc [] = acc
fold_nameservers print acc (n ∷ ns) =
    let sep = if is_empty acc then "" else "|" in
    fold_nameservers print (Text.◌++◌ (Text.◌++◌ acc sep) (print n)) ns

pub nameserver_str : (ℕ → String) → List ℕ → String
unfolding fold_nameservers
nameserver_str print ns = fold_nameservers print "" ns

module _ (p : Printing) where
  optional : String → Option String → List (String × String)
  optional name none = []
  optional name (some v) = (name, v) ∷ []

  printed : Option ℕ → (ℕ → String) → Option String
  printed none print = none
  printed (some n) print = some (print n)

  ipv4_env : Option Ipv4NetworkConfig → List (String × String)
  unfolding optional printed nameserver_str
  ipv4_env none = []
  ipv4_env (some v4) =
      ("IPV4_ADDRESS", p.ipv4 v4.address)
      ∷ ("IPV4_PREFIX_LENGTH", p.prefix_length v4.prefix_length)
      ∷ (optional "IPV4_GATEWAY" (printed v4.gateway p.ipv4)
          ++ ("IPV4_NAMESERVERS", nameserver_str p.ipv4 v4.nameservers) ∷ [])

  ipv6_env : Option Ipv6NetworkConfig → List (String × String)
  unfolding optional printed nameserver_str
  ipv6_env none = []
  ipv6_env (some v6) =
      ("IPV6_ADDRESS", p.ipv6 v6.address)
      ∷ ("IPV6_PREFIX_LENGTH", p.prefix_length v6.prefix_length)
      ∷ (optional "IPV6_GATEWAY" (printed v6.gateway p.ipv6)
          ++ ("IPV6_NAMESERVERS", nameserver_str p.ipv6 v6.nameservers) ∷ [])

  -- What is set beside the puppet's own environment.
  pub script_env : NetworkConfig → List (String × String)
  unfolding optional ipv4_env ipv6_env
  script_env nc =
      ("HOSTNAME", nc.hostname)
      ∷ (optional "INTERFACE" nc.interface ++ ipv4_env nc.ipv4 ++ ipv6_env nc.ipv6)

abbrev bar : Char
bar = "|"

module _ (print : ℕ → String) where
  append-is_empty : (s t : String) → is_empty s ≡ false → is_empty (Text.◌++◌ s t) ≡ false
  append-is_empty Text.[] t h = absurd (ground arith)
  append-is_empty (Text.◌∷◌ c s) t h = rw (append.cons c s t) refl

  append-bar : (s t : String) → Text.◌++◌ (Text.◌++◌ s "|") t ≡ Text.◌++◌ s (Text.◌∷◌ bar t)
  append-bar s t =
      TextLemmas.append_assoc s "|" t
      ∙ ap (Text.◌++◌ s) (append.cons bar "" t ∙ ap (Text.◌∷◌ bar) (append.nil t))

  fold-join :
      (acc : String) (ns : List ℕ)
      → is_empty acc ≡ false
      → fold_nameservers print acc ns ≡ join bar (acc ∷ map print ns)
  unfolding fold_nameservers
  fold-join acc [] h = refl
  fold-join acc (n ∷ ns) h =
      rw (h, append-bar acc (print n))
        (fold-join (Text.◌++◌ acc (Text.◌∷◌ bar (print n))) ns
            (append-is_empty acc (Text.◌∷◌ bar (print n)) h)
          ∙ join-merge bar acc (print n) (map print ns))

  map-All :
      ((m : ℕ) → lacks bar (print m) ≡ true)
      → (ns : List ℕ) → All (λ t. lacks bar t ≡ true) (map print ns)
  map-All clean [] = tt
  map-All clean (n ∷ ns) = (clean n, map-All clean ns)

  -- Where there is at least one nameserver, and no printed address is empty or contains a bar, a
  -- script that takes the variable apart at the bars finds the nameservers in their order.
  pub nameservers_round_trip :
      (n : ℕ) (ns : List ℕ)
      → ((m : ℕ) → is_empty (print m) ≡ false)
      → ((m : ℕ) → lacks bar (print m) ≡ true)
      → split bar (nameserver_str print (n ∷ ns)) ≡ map print (n ∷ ns)
  unfolding nameserver_str fold_nameservers
  nameservers_round_trip n ns full clean =
      rw (append.nil (print n), fold-join (print n) ns (full n))
        (split-join bar (print n) (map print ns) (map-All clean (n ∷ ns)))
