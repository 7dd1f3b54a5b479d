-- ===== src/InetAddr/Tests.antt =====
-- Addresses of the loopback interface, and a library whose texts are single numbers.
use musketeer.Prelude.{
  ℕ, ◌+◌, ◌*◌, ◌/◌, ◌%◌, ◌^◌, ◌<◌, ◌≡◌, refl, arith, List, [], ◌∷◌, ◌++◌, Option, none, some, ltb,
  if◌then◌else◌, ok,
}
use musketeer.InetAddr.{InetAddr, IsAddr, to_numeric, to_numeric-injective}
use musketeer.InetAddr.Texts.{
  NetLibrary, IsStandard, any, parse, to_string, parse-to_string, parse_refused,
}

-- 127.0.0.1, port 7000, as a little-endian machine reads the two fields.
abbrev loopback : InetAddr
loopback = record { s_addr = 0x0100007f; sin_port = 0x581b }

loopback-IsAddr : IsAddr loopback
loopback-IsAddr = omega arith

to_numeric-loopback : to_numeric loopback ≡ 0x0100007f581b
unfolding to_numeric
to_numeric-loopback = refl

to_numeric-injective_example : loopback ≡ record { s_addr = 16777343; sin_port = 22555 }
to_numeric-injective_example =
    to_numeric-injective loopback (record { s_addr = 16777343; sin_port = 22555 }) loopback-IsAddr
      (omega arith) refl

abbrev parse_one : List ℕ → Option ℕ
parse_one [] = none
parse_one (h ∷ []) = if ltb h (2 ^ 32) then some h else none
parse_one (h ∷ k ∷ ks) = none

-- The two bytes of a port are swapped.
abbrev library : NetLibrary
library = record {
  htons = λ p. p % 256 * 256 + p / 256;
  ntohs = λ p. p % 256 * 256 + p / 256;
  htonl = λ h. h;
  inet_pton = parse_one;
  inet_ntop = λ h. if ltb h (2 ^ 32) then some (h ∷ []) else none;
  digits = λ p. p ∷ [];
}

library-IsStandard : IsStandard library
library-IsStandard = record {
  ports_back = λ p h. omega arith;
  ports_small = λ p h. omega arith;
  hosts_small = λ x h. h;
  zero_host = refl;
  parsed_small = small;
  printed_back = λ h t e. ground arith;
  printed = λ h l. (h ∷ [], ground arith);
}
  where
    small : (t : List ℕ) (h : ℕ) → parse_one t ≡ some h → h < 2 ^ 32
    small [] h e = cc
    small (x ∷ []) h e = ground arith
    small (x ∷ y ∷ ys) h e = cc

parse-to_string_example :
    (ip : List ℕ) × (to_string library loopback ≡ ok (ip ++ 58 ∷ 7000 ∷ []))
    × (parse library ip 7000 ≡ loopback)
parse-to_string_example =
    parse-to_string library loopback 7000 library-IsStandard loopback-IsAddr (omega arith) refl

parse_refused_example : parse library [] 7000 ≡ any library 7000
parse_refused_example = parse_refused library [] 7000 library-IsStandard refl
