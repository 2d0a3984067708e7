-- ===== src/InetAddress.antt =====
-- cppweb/InetAddress.hpp and cppweb/InetAddress.cpp: an address of IPv4, its numbers in the byte order of the
-- network as `sockaddr_in` holds them. `inet_pton`, `inet_ntop` and `std::to_string` are parameters.
use cppweb.Base.{
  ℕ, ◌^◌, ◌<◌, ◌≡◌, refl, Bool, Option, none, some, List, [], ◌∷◌, ◌++◌, if◌then◌else◌, Result,
  Returns, ok, fault, exited,
}
use cppweb.Bytes.Words.{object_value-reverse-reverse}
use cppweb.Buffer.{swap_bytes}

pub record InetAddress : Type 0 where
  pub sin_family : ℕ
  pub s_addr : ℕ
  pub sin_port : ℕ

-- `AF_INET`
abbrev pub af_inet : ℕ
af_inet = 2

-- `INADDR_LOOPBACK` and `INADDR_ANY`
abbrev pub inaddr_loopback : ℕ
inaddr_loopback = 2_130_706_433

abbrev pub inaddr_any : ℕ
inaddr_any = 0

-- `InetAddress(uint16_t port, bool loopback)`; `htonl` and `htons` swap the bytes.
unfoldable pub make_local : ℕ → Bool → InetAddress
make_local port loopback = record {
  sin_family = af_inet;
  s_addr = swap_bytes 4 (if loopback then inaddr_loopback else inaddr_any);
  sin_port = swap_bytes 2 port;
}

-- `toPort`; `ntohs` swaps the bytes.
unfoldable pub to_port : InetAddress → ℕ
to_port a = swap_bytes 2 a.sin_port

module _ (inet_pton : List ℕ → Option ℕ) where
  -- `InetAddress(const std::string& ip, uint16_t port)`
  unfoldable pub make : List ℕ → ℕ → Result InetAddress
  make ip port = elim (inet_pton ip) [
    | none ↦ fault exited
    | some n ↦ ok (record { sin_family = af_inet; s_addr = n; sin_port = swap_bytes 2 port })
  ]

module _ (inet_ntop : ℕ → Option (List ℕ)) where
  -- `toIp`
  unfoldable pub to_ip : InetAddress → List ℕ
  to_ip a = elim (inet_ntop a.s_addr) [ none ↦ [] | some ip ↦ ip ]

  -- `toIpPort`
  unfoldable pub to_ip_port : (ℕ → List ℕ) → InetAddress → List ℕ
  to_ip_port to_string a = (to_ip a ++ (58 ∷ [])) ++ to_string (to_port a)

swap_bytes-swap_bytes : (w x : ℕ) → x < 256 ^ w → swap_bytes w (swap_bytes w x) ≡ x
unfolding swap_bytes
swap_bytes-swap_bytes w x h = object_value-reverse-reverse w x h

-- Where `inet_ntop` prints the number that `inet_pton` reads from the text `ip` as that text, the address
-- made of `ip` and a port below 65536 prints as `ip`, a colon and the port, and gives the port back; and an
-- address made of a port alone gives it back as well.
pub to_ip_port-make :
    (inet_pton : List ℕ → Option ℕ) (inet_ntop : ℕ → Option (List ℕ)) (to_string : ℕ → List ℕ)
    (ip : List ℕ) (port : ℕ) (loopback : Bool) {n : ℕ}
    → inet_pton ip ≡ some n
    → inet_ntop n ≡ some ip
    → port < 65536
    → Returns (make inet_pton ip port) (λ a.
      (to_ip_port inet_ntop to_string a ≡ (ip ++ (58 ∷ [])) ++ to_string port) × (to_port a ≡ port))
      × (to_port (make_local port loopback) ≡ port)
unfolding make to_ip_port to_ip to_port make_local
to_ip_port-make inet_pton inet_ntop to_string ip port loopback {n} reads prints small =
    let same = swap_bytes-swap_bytes 2 port small in
    (
      (
        record { sin_family = af_inet; s_addr = n; sin_port = swap_bytes 2 port },
        rw (reads, make) refl,
        (rw (prints, to_ip_port, to_ip, same) refl, same),
      ),
      same,
    )
