-- ===== src/Nspawn/Config/Address.antt =====
-- nspawn-runner/src/main.rs: which address of a container its SSH connections go to.
use siplane.Base.{ℕ, ◌≡◌, Option, none, some, List, [], ◌∷◌, ◌++◌, arith}
use siplane.Nspawn.Config.{
  SshPreferredIpVersion, v6, Ipv4NetworkConfig, Ipv6NetworkConfig, EnvironmentConfig, SocketAddr,
  sock_v4, sock_v6, ssh_addr, ssh_socket_addr,
}

abbrev v4_addrs : ℕ → Option Ipv4NetworkConfig → List SocketAddr
v4_addrs port none = []
v4_addrs port (some n) = sock_v4 n.address port ∷ []

abbrev v6_addrs : ℕ → Option Ipv6NetworkConfig → List SocketAddr
v6_addrs port none = []
v6_addrs port (some n) = sock_v6 n.address port ∷ []

-- The addresses that the container has, the preferred version first.
abbrev pub by_preference :
    ℕ
    → SshPreferredIpVersion
    → Option Ipv4NetworkConfig
    → Option Ipv6NetworkConfig
    → List SocketAddr
by_preference port v6 n4 n6 = v6_addrs port n6 ++ v4_addrs port n4
by_preference port _ n4 n6 = v4_addrs port n4 ++ v6_addrs port n6

abbrev pub first {ℓ} : {A : Type ℓ} → List A → Option A
first [] = none
first (x ∷ xs) = some x

abbrev pub best_address : EnvironmentConfig → Option SocketAddr
best_address e = elim e.ssh_port [
  | none ↦ none
  | some port ↦ first (by_preference port e.ssh_preferred_ip_version e.ipv4_network e.ipv6_network)
]

-- SSH connections go to the first address that the container has when those of the preferred version
-- come first, IPv4 if none is preferred; without a port, or without a network, to none.
pub ssh_goes_to_best_address : (e : EnvironmentConfig) → ssh_socket_addr e ≡ best_address e
unfolding ssh_socket_addr ssh_addr
ssh_goes_to_best_address e = ground arith
