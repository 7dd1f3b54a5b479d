-- ===== src/InetAddr.antt =====
-- net/InetAddr.h and net/InetAddr.cpp: an address, and the number that groups connections by it.
-- The fields hold what `sockaddr_in` holds, in network order. Parsing and printing of addresses, and the byte
-- order, are the C library's and parameters.
pub mod Texts
mod Tests
use Prim.Native.Nat.{bit_or}
use musketeer.Prelude.{ℕ, ◌+◌, ◌*◌, ◌%◌, ◌^◌, ◌<◌, ◌≡◌, refl, arith, ap₂, ◌∙◌, sym}
use musketeer.Prelude.Bits.{bit_or-shift}

-- `struct sockaddr_in`: `sin_addr.s_addr` and `sin_port`.
pub record InetAddr : Type 0 where
  pub s_addr : ℕ
  pub sin_port : ℕ

pub record IsAddr (a : InetAddr) : Type 0 where
  pub addr_small : a.s_addr < 2 ^ 32
  pub port_small : a.sin_port < 2 ^ 16

-- `ToNumeric`, on `uint64_t`.
unfoldable pub to_numeric : InetAddr → ℕ
to_numeric a = bit_or (a.s_addr * 2 ^ 16 % 2 ^ 64) a.sin_port

to_numeric_lem : (a : InetAddr) → IsAddr a → to_numeric a ≡ a.s_addr * 2 ^ 16 + a.sin_port
unfolding to_numeric
to_numeric_lem a h =
    let small : a.s_addr * 2 ^ 16 % 2 ^ 64 ≡ a.s_addr * 2 ^ 16 = omega (arith, h.addr_small) in
    rw small (bit_or-shift 16 a.s_addr a.sin_port h.port_small)

-- Two addresses within the sizes of their fields that have the same number have the same host and
-- port.
pub to_numeric-injective :
    (a b : InetAddr) → IsAddr a → IsAddr b → to_numeric a ≡ to_numeric b → a ≡ b
to_numeric-injective a b h k e = ground (arith, to_numeric_lem a h, to_numeric_lem b k)
