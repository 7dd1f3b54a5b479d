-- ===== src/InetAddr/Texts.antt =====
-- net/InetAddr.cpp, the constructors and `ToString`: addresses and their texts.
use musketeer.Prelude.{
  ℕ, ◌^◌, ◌<◌, ◌≡◌, refl, ap, ◌∙◌, Bool, true, false, List, ◌∷◌, ◌++◌, Option, none, some, arith,
  Outcome, ok, ◌>>◌, assert,
}
use musketeer.InetAddr.{InetAddr, IsAddr}

-- What the program uses of the C library: `htons` and `ntohs`, `htonl`, `inet_pton` and `inet_ntop` for
-- AF_INET, and `std::to_string`. A text is the list of its characters.
pub record NetLibrary : Type 0 where
  pub htons : ℕ → ℕ
  pub ntohs : ℕ → ℕ
  pub htonl : ℕ → ℕ
  pub inet_pton : List ℕ → Option ℕ
  pub inet_ntop : ℕ → Option (List ℕ)
  pub digits : ℕ → List ℕ

-- What their documentation says of them.
pub record IsStandard (lib : NetLibrary) : Type 0 where
  pub ports_back : (p : ℕ) → p < 2 ^ 16 → lib.ntohs (lib.htons p) ≡ p
  pub ports_small : (p : ℕ) → p < 2 ^ 16 → lib.htons p < 2 ^ 16
  pub hosts_small : (h : ℕ) → h < 2 ^ 32 → lib.htonl h < 2 ^ 32
  pub zero_host : lib.htonl 0 ≡ 0
  pub parsed_small : (t : List ℕ) (h : ℕ) → lib.inet_pton t ≡ some h → h < 2 ^ 32
  pub printed_back : (h : ℕ) (t : List ℕ) → lib.inet_ntop h ≡ some t → lib.inet_pton t ≡ some h
  pub printed : (h : ℕ) → h < 2 ^ 32 → (t : List ℕ) × (lib.inet_ntop h ≡ some t)

-- `InetAddr()`
abbrev pub blank_addr : InetAddr
blank_addr = record { s_addr = 0; sin_port = 0 }

abbrev pub inaddr_any : ℕ
inaddr_any = 0

-- What `inet_pton` stored: nothing, where it could not parse.
abbrev pub stored : Option ℕ → ℕ
stored none = 0
stored (some h) = h

abbrev is_some : Option (List ℕ) → Bool
is_some none = false
is_some (some t) = true

abbrev text_of : Option (List ℕ) → List ℕ
text_of none = List.[]
text_of (some t) = t

module _ (lib : NetLibrary) where
  -- `InetAddr(uint16_t)`
  pub any : ℕ → InetAddr
  any port = record { s_addr = lib.htonl inaddr_any; sin_port = lib.htons port }

  -- `InetAddr(const std::string&, uint16_t)` and `InetAddr(const char*, uint16_t)`
  pub parse : List ℕ → ℕ → InetAddr
  parse ip port = record { s_addr = stored (lib.inet_pton ip); sin_port = lib.htons port }

  -- `ToString`, where 58 is the colon
  pub to_string : InetAddr → Outcome (List ℕ)
  to_string a =
      let printed = lib.inet_ntop a.s_addr in
      assert (is_some printed) >> ok (text_of printed ++ 58 ∷ lib.digits (lib.ntohs a.sin_port))

  -- An address that was made of a port, or of a text and a port, is within the sizes of its fields.
  parse-IsAddr :
      (ip : List ℕ) (port : ℕ)
      → IsStandard lib
      → port < 2 ^ 16
      → IsAddr (parse ip port) × IsAddr (any port)
  unfolding parse any
  parse-IsAddr ip port st p = (
    record { addr_small = small (lib.inet_pton ip) refl; port_small = st.ports_small port p },
    record { addr_small = st.hosts_small 0 (omega arith); port_small = st.ports_small port p },
  )
    where
      small : (o : Option ℕ) → lib.inet_pton ip ≡ o → stored o < 2 ^ 32
      small none e = omega arith
      small (some h) e = st.parsed_small ip h e

  -- Of an address that was made of the text of a host and a port, `ToString` gives that text, a colon and
  -- the port's digits.
  pub to_string-parse :
      (h port : ℕ) (ip : List ℕ)
      → IsStandard lib
      → lib.inet_ntop h ≡ some ip
      → port < 2 ^ 16
      → to_string (parse ip port) ≡ ok (ip ++ 58 ∷ lib.digits port)
  unfolding to_string parse
  to_string-parse h port ip st shown p =
      rw (st.printed_back h ip shown, shown, st.ports_back port p) refl

  -- With a C library that does what is documented, of an address within the sizes of its fields
  -- whose port is one of 16 bits as the network writes it: `ToString` prints a text of the host, a
  -- colon and the port's digits, and the constructor makes the same address of that text and port
  -- again.
  pub parse-to_string :
      (a : InetAddr) (port : ℕ)
      → IsStandard lib
      → IsAddr a
      → port < 2 ^ 16
      → a.sin_port ≡ lib.htons port
      → (ip : List ℕ) × (to_string a ≡ ok (ip ++ 58 ∷ lib.digits port)) × (parse ip port ≡ a)
  unfolding to_string parse
  parse-to_string a port st v p e =
      let (ip, shown) = st.printed a.s_addr v.addr_small in
      let back : lib.ntohs a.sin_port ≡ port = ap lib.ntohs e ∙ st.ports_back port p in
      (ip, rw (shown, back) refl, ground (arith, st.printed_back a.s_addr ip shown))

  -- A text that does not parse makes the address of every interface, the same that the constructor from a
  -- port alone makes.
  pub parse_refused :
      (ip : List ℕ) (port : ℕ) → IsStandard lib → lib.inet_pton ip ≡ none → parse ip port ≡ any port
  unfolding parse any
  parse_refused ip port st refused = rw (refused, st.zero_host) refl
